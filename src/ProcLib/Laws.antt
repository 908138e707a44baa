-- ===== src/ProcLib/Laws.antt =====
-- What trim() of 12-system-and-process-information/proclib.c leaves of a string.
use linux_programming_interf.Common.{
  ℕ, zero, suc, ◌≡◌, refl, sym, ap, ◌∙◌, true, false, Option, none, some, inl, inr, ◌⊎◌, [], ◌∷◌,
  ◌++◌, arith, length, length-take, take, get_or, All, CString, Bool-cases,
}
use mathlib.Core.Path.{subst}
use mathlib.Core.List.{append_assoc, append-nil}
use linux_programming_interf.ProcLib.{isspace, edge, trim_end, skip_spaces, trim}

abbrev pub Spaces : CString → Type 0
Spaces s = All (λ c. isspace c ≡ true) s

-- The last byte is no space.
abbrev pub EndsSolid : CString → Type 0
EndsSolid s = (front : CString) × (c : ℕ) × (s ≡ front ++ c ∷ []) × (isspace c ≡ false)

abbrev pub StartsSolid : CString → Type 0
StartsSolid s = (c : ℕ) × (rest : CString) × (s ≡ c ∷ rest) × (isspace c ≡ false)

Spaces-append : (a b : CString) → Spaces a → Spaces b → Spaces (a ++ b)
Spaces-append [] b sa sb = sb
Spaces-append (c ∷ a) b (h, sa) sb = (h, Spaces-append a b sa sb)

take_last : (l : ℕ) (s : CString) → length s ≡ suc l → s ≡ take l s ++ get_or s l 0 ∷ []
take_last l [] e = absurd (omega (arith, e))
take_last zero (c ∷ []) e = refl
take_last zero (c ∷ d ∷ s) e = absurd (omega (arith, e))
take_last (suc l) (c ∷ s) e = ap (λ t. c ∷ t) (take_last l s (omega (arith, e)))

trim_end-splits :
    (before : Option ℕ) (l : ℕ) (s : CString)
    → length s ≡ l
    → (trim_end before l s ≡ edge before) × Spaces s
      ⊎ (t z : CString) × (trim_end before l s ≡ some t) × (s ≡ t ++ z) × Spaces z × EndsSolid t
unfolding trim_end
trim_end-splits before zero [] e = inl (refl, tt)
trim_end-splits before zero (c ∷ s) e = absurd (omega (arith, e))
trim_end-splits before (suc l) s e =
    let last = take_last l s e in
    elim (Bool-cases (isspace (get_or s l 0))) [
      | inr solid ↦ inr (
        s,
        [],
        rw (solid, trim_end) refl,
        sym (append-nil s),
        tt,
        (take l s, get_or s l 0, last, solid),
      )
      | inl space ↦ elim (trim_end-splits before l (take l s) (omega (arith, e, length-take l s))) [
        | inl (run, all) ↦ inl (
          rw (space, trim_end) run,
          subst Spaces (sym last) (Spaces-append (take l s) (get_or s l 0 ∷ []) all (space, tt)),
        )
        | inr (t, z, run, split, all, solid) ↦ inr (
          t,
          z ++ get_or s l 0 ∷ [],
          rw (space, trim_end) run,
          last ∙ ap (λ f. f ++ get_or s l 0 ∷ []) split ∙ append_assoc t z (get_or s l 0 ∷ []),
          Spaces-append z (get_or s l 0 ∷ []) all (space, tt),
          solid,
        )
      ]
    ]

skip_spaces-splits :
    (front : CString) (c : ℕ)
    → isspace c ≡ false
    → (a : CString) × (front ++ c ∷ [] ≡ a ++ skip_spaces (front ++ c ∷ []))
      × Spaces a
      × StartsSolid (skip_spaces (front ++ c ∷ []))
      × EndsSolid (skip_spaces (front ++ c ∷ []))
unfolding skip_spaces
skip_spaces-splits [] c solid = (
  [],
  rw (solid, skip_spaces) refl,
  tt,
  (c, [], rw (solid, skip_spaces) refl, solid),
  ([], c, rw (solid, skip_spaces) refl, solid),
)
skip_spaces-splits (d ∷ front) c solid = elim (Bool-cases (isspace d)) [
  | inr other ↦ (
    [],
    rw (other, skip_spaces) refl,
    tt,
    (d, front ++ c ∷ [], rw (other, skip_spaces) refl, other),
    (d ∷ front, c, rw (other, skip_spaces) refl, solid),
  )
  | inl space ↦
      let (a, split, all, starts, ends) = skip_spaces-splits front c solid in
      (
        d ∷ a,
        rw (space, skip_spaces) (ap (λ l. d ∷ l) split),
        (space, all),
        rw (space, skip_spaces) starts,
        rw (space, skip_spaces) ends,
      )
]

edge_trimmed :
    (before : Option ℕ)
    → (elim (edge before) [ none ↦ none | some cut ↦ some (skip_spaces cut) ]) ≡ edge before
unfolding skip_spaces
edge_trimmed none = refl
edge_trimmed (some c) = elim (Bool-cases (isspace c)) [
  | inl space ↦ rw space refl
  | inr other ↦ rw other refl
]

-- For a string of spaces only, the empty one included, `trim` reads the byte in front of it: out of
-- bounds if there is none, and leaving the empty string if that is no space. From any other string
-- it cuts the spaces at both ends: what it leaves starts and ends with another byte.
pub trim-splits :
    (before : Option ℕ) (s : CString)
    → (trim before s ≡ edge before) × Spaces s
      ⊎ (a t z : CString) × (trim before s ≡ some t)
        × (s ≡ (a ++ t) ++ z)
        × Spaces a
        × Spaces z
        × StartsSolid t
        × EndsSolid t
unfolding trim
trim-splits before s = elim (trim_end-splits before (length s) s refl) [
  | inl (run, all) ↦ inl (rw (run, trim) (edge_trimmed before), all)
  | inr (t, z, run, split, all, (front, c, shape, solid)) ↦
      let (a, parts, spaces, starts, ends) = skip_spaces-splits front c solid in
      let same : skip_spaces (front ++ c ∷ []) ≡ skip_spaces t = ap skip_spaces (sym shape) in
      inr (
        a,
        skip_spaces t,
        z,
        rw (run, trim) refl,
        split ∙ ap (λ l. l ++ z) (shape ∙ parts ∙ ap (λ l. a ++ l) same),
        spaces,
        all,
        subst StartsSolid same starts,
        subst EndsSolid same ends,
      )
]
