-- ===== src/Setfattr/Whole.antt =====
-- What a run of 16-extended-attributes/setfattr.c does, by the options it is called with.
use linux_programming_interf.Common.{
  if◌then◌else◌, ◌≡◌, ◌≢◌, ◌⊎◌, true, none, some, List, [], ◌∷◌, CString, All,
}
use linux_programming_interf.Common.Output.{Output, text, str}
use linux_programming_interf.Setfattr.{Calls}
use linux_programming_interf.Setfattr.Laws.{IsLawful}
use linux_programming_interf.Setfattr.Options.{Action, sets, removes, shows_usage}

-- Every setxattr() succeeds, and behind removexattr() the attribute of the file is gone, or it was not
-- there and the call fails with ENODATA; nothing else changes but for the paths that name the same
-- file.
pub record IsReliable (C : Calls) (L : IsLawful C) : Type 0 where
  pub set_succeeds :
      (file name value : CString) (w : C.World) → (C.setxattr file name value w).0 ≡ true
  pub remove_done :
      (file name : CString) (w : C.World) → L.attr (C.removexattr file name w).1 file name ≡ none
  pub remove_other :
      (file name path other : CString) (w : C.World)
      → (L.attr (C.removexattr file name w).1 path other ≡ L.attr w path other)
        ⊎ (other ≡ name) × (L.attr (C.removexattr file name w).1 path other ≡ none)

module _ (C : Calls) (L : IsLawful C) (R : IsReliable C L) where
  open L use {attr}

  -- No attribute of another name has changed on any path.
  abbrev Untouched : CString → C.World → C.World → Type 0
  Untouched name w w' =
      (path other : CString) → other ≢ name → attr w' path other ≡ attr w path other

  abbrev message : CString → CString → Output
  message name file =
      text "Unable to remove attr '" ∷ str name ∷ text "' on '" ∷ str file ∷ text "'\n" ∷ []

  -- The world after one round of the loop of `do_remove_attr`.
  abbrev round : CString → CString → C.World → C.World
  round name file w =
      let (done, w') = C.removexattr file name w in
      if done then w' else C.print (message name file) w'

  -- What is to be seen of an action in the attributes.
  abbrev pub Applied : Action → List CString → C.World → C.World → Type 0
  Applied (sets a b) files w w' = All (λ file. attr w' file a ≡ some b) files × Untouched a w w'
  Applied (removes a) files w w' = All (λ file. attr w' file a ≡ none) files × Untouched a w w'
  Applied shows_usage files w w' = (path other : CString) → attr w' path other ≡ attr w path other
