-- ===== src/Setfattr/Laws.antt =====
-- What 16-extended-attributes/setfattr.c does to the attributes of files.
use linux_programming_interf.Common.{
  ℕ, ◌≡◌, ◌≢◌, refl, ◌∙◌, ◌⊎◌, inl, inr, Bool, true, Option, none, some, List, [], ◌∷◌, CString,
  arith, All, if◌then◌else◌, Bool-cases,
}
use linux_programming_interf.Common.Output.{Output, text, str}
use linux_programming_interf.Setfattr.{
  Calls, Settings, Run, ok, exited, parse_arguments, unset, aborted, validate_arguments, apply,
  do_set_attr, do_remove_attr, main,
}

-- Either the name and the value are given and no name to remove, or only the latter.
abbrev pub IsComplete : Settings → Type 0
IsComplete s =
    ((a : CString) × (b : CString) × (s.name ≡ some a)
      × (s.value ≡ some b)
      × (s.remove_name ≡ none))
    ⊎ ((a : CString) × (s.name ≡ none) × (s.remove_name ≡ some a))

abbrev pub settings : Bool → Option CString → Option CString → Option CString → Settings
settings d n v r = record { no_deref_flag = d; name = n; value = v; remove_name = r }

checked_fields :
    (d : Bool) (n v r : Option CString) (s' : Settings)
    → (validate_arguments (settings d n v r)).0 ≡ ok s'
    → (settings d n v r ≡ s') × IsComplete (settings d n v r)
unfolding validate_arguments
checked_fields d none v none s' e = absurd (ground arith)
checked_fields d none v (some r) s' e = (ground arith, inr (r, refl, refl))
checked_fields d (some n) none none s' e = absurd (ground arith)
checked_fields d (some n) (some v) none s' e = (ground arith, inl (n, v, refl, refl, refl))
checked_fields d (some n) v (some r) s' e = absurd (ground arith)

-- What passes `validate_arguments` is unchanged and names exactly one action, with a value for
-- setting.
validate_arguments-IsComplete :
    (s s' : Settings) → (validate_arguments s).0 ≡ ok s' → (s ≡ s') × IsComplete s
validate_arguments-IsComplete s s' e =
    checked_fields s.no_deref_flag s.name s.value s.remove_name s' e

apply-defined :
    (C : Calls) (s : Settings) (files : List CString) (w : C.World)
    → IsComplete s
    → (w' : C.World) × (apply C s files w ≡ some w')
unfolding apply
apply-defined C s files w (inl (a, b, n, v, r)) = (do_set_attr C a b files w, rw (n, apply, v) refl)
apply-defined C s files w (inr (a, n, r)) = (do_remove_attr C a files w, rw (n, apply, r) refl)

Run-cases :
    (r : Run Settings) → ((s : Settings) × (r ≡ ok s)) ⊎ ((n : ℕ) × (r ≡ exited n)) ⊎ (r ≡ aborted)
Run-cases (ok s) = inl (s, refl)
Run-cases (exited n) = inr (inl (n, refl))
Run-cases aborted = inr (inr refl)

-- With whatever options the program is called, it reads no null pointer: after the validation the
-- name and the value that `do_set_attr` uses, or the name of `do_remove_attr`, are set.
pub main-defined :
    (C : Calls) (opts : List (ℕ × CString)) (files : List CString) (w : C.World)
    → main C opts files w ≢ none
unfolding main apply
main-defined C opts files w = elim (Run-cases (parse_arguments opts unset).0) [
  | inr (inl (n, e)) ↦ rw (e, main) ground arith
  | inr (inr e) ↦ rw (e, main) ground arith
  | inl (s, e) ↦
      rw (e, main)
        (elim (Run-cases (validate_arguments s).0) [
          | inr (inl (n, f)) ↦ rw (f, main) ground arith
          | inr (inr f) ↦ rw (f, main) ground arith
          | inl (s', f) ↦
              let (same, complete) = validate_arguments-IsComplete s s' f in
              elim complete [
                | inl (a, b, n, v, r) ↦ rw (n, r, v, main, apply) (ground arith)
                | inr (a, n, r) ↦ rw (n, r, main, apply) (ground arith)
              ]
        ])
]

-- The documented behaviour of setxattr(): on success the attribute of the file, and of every path
-- that names the same file, is the value, and nothing else changes.
pub record IsLawful (C : Calls) : Type 0 where
  pub attr : C.World → CString → CString → Option CString
  pub set_done :
      (file name value : CString) (w : C.World)
      → (C.setxattr file name value w).0 ≡ true
      → attr (C.setxattr file name value w).1 file name ≡ some value
  pub set_other :
      (file name value path other : CString) (w : C.World)
      → (attr (C.setxattr file name value w).1 path other ≡ attr w path other)
        ⊎ (other ≡ name) × (attr (C.setxattr file name value w).1 path other ≡ some value)
  pub print-frame :
      (o : Output) (path name : CString) (w : C.World)
      → attr (C.print o w) path name ≡ attr w path name

module _ (C : Calls) (L : IsLawful C) where
  open L use {attr}

  abbrev message : CString → CString → Output
  message name file =
      text "Unable to set attr '" ∷ str name ∷ text "' on '" ∷ str file ∷ text "'\n" ∷ []

  -- The world after one round of the loop of `do_set_attr`.
  abbrev round : CString → CString → CString → C.World → C.World
  round name value file w =
      let (done, w') = C.setxattr file name value w in
      if done then w' else C.print (message name file) w'

  round-other :
      (name value file path other : CString) (w : C.World)
      → (attr (round name value file w) path other ≡ attr w path other)
        ⊎ (other ≡ name) × (attr (round name value file w) path other ≡ some value)
  round-other name value file path other w =
      let w' = (C.setxattr file name value w).1 in
      let same : attr (round name value file w) path other ≡ attr w' path other =
        elim (Bool-cases (C.setxattr file name value w).0) [
          | inl e ↦ rw e refl
          | inr e ↦ rw e (L.print-frame (message name file) path other w')
        ] in
      rw same (L.set_other file name value path other w)

  do_set_attr-other :
      (name value : CString) (files : List CString) (path other : CString) (w : C.World)
      → (attr (do_set_attr C name value files w) path other ≡ attr w path other)
        ⊎ (other ≡ name) × (attr (do_set_attr C name value files w) path other ≡ some value)
  unfolding do_set_attr
  do_set_attr-other name value [] path other w = inl refl
  do_set_attr-other name value (file ∷ files) path other w =
      elim (do_set_attr-other name value files path other (round name value file w)) [
        | inr new ↦ inr new
        | inl kept ↦ elim (round-other name value file path other w) [
          | inl old ↦ inl (kept ∙ old)
          | inr (same, new) ↦ inr (same, kept ∙ new)
        ]
      ]

  -- When every setxattr() succeeds, each of the files has the attribute with the value, and no
  -- attribute of another name changes on any path.
  pub do_set_attr-sets :
      (name value : CString) (files : List CString) (w : C.World)
      → ((file : CString) (w' : C.World) → (C.setxattr file name value w').0 ≡ true)
      → All (λ file. attr (do_set_attr C name value files w) file name ≡ some value) files
        × ((path other : CString)
            → other ≢ name
            → attr (do_set_attr C name value files w) path other ≡ attr w path other)
  unfolding do_set_attr
  do_set_attr-sets name value files w done = (
    each files w,
    λ path other ne. elim (do_set_attr-other name value files path other w) [
      | inl e ↦ e
      | inr (e, _) ↦ absurd (ne e)
    ],
  )
    where
      each :
          (fs : List CString) (v : C.World)
          → All (λ file. attr (do_set_attr C name value fs v) file name ≡ some value) fs
      each [] v = tt
      each (file ∷ fs) v =
          let v' = round name value file v in
          let now : attr v' file name ≡ some value =
            rw (done file v) (L.set_done file name value v (done file v)) in
          (
            elim (do_set_attr-other name value fs file name v') [
              | inl kept ↦ kept ∙ now
              | inr (_, new) ↦ new
            ],
            each fs v',
          )
