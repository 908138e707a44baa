-- ===== src/Setfattr/Tests.antt =====
-- Runs of 16-extended-attributes/setfattr.c on one file.
use linux_programming_interf.Common.{
  ℕ, List, ◌≡◌, ◌≢◌, ◌⊎◌, refl, inl, inr, true, Option, none, some, [], ◌∷◌, CString, codes, str_eq,
  str_eq_iff, if◌then◌else◌, Bool-cases,
}
use linux_programming_interf.Setfattr.{Calls, main}
use linux_programming_interf.Setfattr.Laws.{IsLawful, main-defined}
use linux_programming_interf.Setfattr.Whole.{IsReliable}

-- Every path names one file, whose attributes are the state.
abbrev World : Type 0
World = CString → Option CString

abbrev with_attr : CString → CString → World → World
with_attr name value w other = if str_eq other name then some value else w other

abbrev one_file : Calls
one_file = record {
  World = World;
  setxattr = λ file name value w. (true, with_attr name value w);
  removexattr = λ file name w. (true, λ other. if str_eq other name then none else w other);
  print = λ o w. w;
}

str_eq_self : (name : CString) → str_eq name name ≡ true
str_eq_self name = (str_eq_iff name name).1 refl

others :
    (name value other : CString) (w : World)
    → (with_attr name value w other ≡ w other)
      ⊎ (other ≡ name) × (with_attr name value w other ≡ some value)
others name value other w = elim (Bool-cases (str_eq other name)) [
  | inl e ↦ inr ((str_eq_iff other name).0 e, rw e refl)
  | inr e ↦ inl (rw e refl)
]

abbrev one_file-IsLawful : IsLawful one_file
one_file-IsLawful = record {
  attr = λ w path name. w name;
  set_done = λ file name value w e. rw (str_eq_self name) refl;
  set_other = λ file name value path other w. others name value other w;
  print-frame = λ o path name w. refl;
}

abbrev empty : World
empty name = none

main-defined_example : main one_file ((b'n', codes "user.x") ∷ []) (codes "f" ∷ []) empty ≢ none
main-defined_example = main-defined one_file ((b'n', codes "user.x") ∷ []) (codes "f" ∷ []) empty

removed_others :
    (name other : CString) (w : World)
    → ((if str_eq other name then none else w other) ≡ w other)
      ⊎ (other ≡ name) × ((if str_eq other name then none else w other) ≡ none)
removed_others name other w = elim (Bool-cases (str_eq other name)) [
  | inl e ↦ inr ((str_eq_iff other name).0 e, rw e refl)
  | inr e ↦ inl (rw e refl)
]

abbrev one_file-IsReliable : IsReliable one_file one_file-IsLawful
one_file-IsReliable = record {
  set_succeeds = λ file name value w. refl;
  remove_done = λ file name w. rw (str_eq_self name) refl;
  remove_other = λ file name path other w. removed_others name other w;
}

-- -n user.x -v 1 -h -v 2: the last value counts.
abbrev options : List (ℕ × CString)
options = (b'n', codes "user.x") ∷ (b'v', codes "1") ∷ (b'h', []) ∷ (b'v', codes "2") ∷ []
