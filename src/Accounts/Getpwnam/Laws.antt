-- ===== src/Accounts/Getpwnam/Laws.antt =====
-- What `po_getpwnam` of 08-users-and-groups/getpwnam.c finds, once and a second time.
use linux_programming_interf.Common.{
  ◌≡◌, refl, sym, ap, ◌≢◌, inl, inr, false, Option, none, some, List, [], ◌∷◌, ◌++◌, CString,
  str_eq, str_eq_iff, All, Bool-cases,
}
use linux_programming_interf.Accounts.Getpwnam.{Passwd, po_getpwnam}

-- No entry has the name.
abbrev pub Lacks : CString → List Passwd → Type 0
Lacks name = All (λ (p : Passwd). p.pw_name ≢ name)

-- The answer is the first entry with the name, and the entries behind it are left. It is NULL,
-- and none is left, when no entry has the name.
abbrev pub Finds : CString → List Passwd → Option Passwd × List Passwd → Type 0
Finds name entries (none, rest) = Lacks name entries × (rest ≡ [])
Finds name entries (some p, rest) =
    (before : List Passwd) × (entries ≡ before ++ p ∷ rest) × Lacks name before × (p.pw_name ≡ name)

Finds-cons :
    (name : CString) (q : Passwd) (entries : List Passwd) (r : Option Passwd × List Passwd)
    → q.pw_name ≢ name
    → Finds name entries r
    → Finds name (q ∷ entries) r
Finds-cons name q entries (none, rest) other f = ((other, f.0), f.1)
Finds-cons name q entries (some p, rest) other (before, e, lacks, same) =
    (q ∷ before, ap (λ l. q ∷ l) e, (other, lacks), same)

-- `po_getpwnam` finds the first entry with the name among those that getpwent() still returns,
-- or NULL exactly when there is none.
pub po_getpwnam-Finds :
    (name : CString) (entries : List Passwd) → Finds name entries (po_getpwnam name entries)
unfolding po_getpwnam
po_getpwnam-Finds name [] = (tt, refl)
po_getpwnam-Finds name (p ∷ entries) = elim (Bool-cases (str_eq name p.pw_name)) [
  | inl same ↦ rw same ([], refl, tt, sym ((str_eq_iff name p.pw_name).0 same))
  | inr other ↦
      let differ : p.pw_name ≢ name = λ e. cc ((str_eq_iff name p.pw_name).1 (sym e)) in
      rw other (Finds-cons name p entries _ differ (po_getpwnam-Finds name entries))
]

po_getpwnam-Lacks :
    (name : CString) (entries : List Passwd)
    → Lacks name entries
    → po_getpwnam name entries ≡ (none, [])
unfolding po_getpwnam
po_getpwnam-Lacks name [] lacks = refl
po_getpwnam-Lacks name (p ∷ entries) lacks = elim (Bool-cases (str_eq name p.pw_name)) [
  | inl hit ↦ absurd (lacks.0 (sym ((str_eq_iff name p.pw_name).0 hit)))
  | inr miss ↦ rw miss (po_getpwnam-Lacks name entries lacks.1)
]

po_getpwnam_past :
    (name : CString) (before rest : List Passwd) (p : Passwd)
    → p.pw_name ≡ name
    → Lacks name before
    → po_getpwnam name (before ++ p ∷ rest) ≡ (some p, rest)
unfolding po_getpwnam
po_getpwnam_past name [] rest p same lacks = rw ((str_eq_iff name p.pw_name).1 (sym same))
po_getpwnam_past name (q ∷ before) rest p same lacks =
    let other : str_eq name q.pw_name ≡ false = elim (Bool-cases (str_eq name q.pw_name)) [
      | inl hit ↦ absurd (lacks.0 (sym ((str_eq_iff name q.pw_name).0 hit)))
      | inr miss ↦ miss
    ] in
    rw other (po_getpwnam_past name before rest p same lacks.1)

-- The database is not rewound: after a lookup that found the only entry with its name, the same
-- lookup gives NULL.
po_getpwnam_again :
    (name : CString) (before rest : List Passwd) (p : Passwd)
    → p.pw_name ≡ name
    → Lacks name before
    → Lacks name rest
    → ((po_getpwnam name (before ++ p ∷ rest)).0 ≡ some p)
      × ((po_getpwnam name (po_getpwnam name (before ++ p ∷ rest)).1).0 ≡ none)
po_getpwnam_again name before rest p same lb lr =
    let first = po_getpwnam_past name before rest p same lb in
    (
      ap (λ (t : Option Passwd × List Passwd). t.0) first,
      rw (first, po_getpwnam-Lacks name rest lr),
    )
