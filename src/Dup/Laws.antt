-- ===== src/Dup/Laws.antt =====
-- dup2() of 05-file-io-further-details/dup.c on a table of descriptors.
use linux_programming_interf.Common.{
  ℕ, ◌≤◌, ◌<◌, ◌≡◌, ◌≢◌, refl, sym, ap, ◌∙◌, ◌⊎◌, inl, inr, true, Option, none, some, arith, ◌==◌,
  ==_iff, Bool-cases,
}
use linux_programming_interf.Dup.{Calls, Answer, ok, failed, ebadf, replace, dup2}

-- The documented behaviour of the calls in a process with one thread. `table` gives the open file
-- description of a descriptor.
pub record IsLawful (C : Calls) : Type 0 where
  pub table : C.World → ℕ → Option ℕ
  pub get_fd-ok : (fd n : ℕ) (w : C.World) → C.get_fd fd w ≡ ok n → (d : ℕ) × (table w fd ≡ some d)
  pub get_fd-failed :
      (fd e : ℕ) (w : C.World) → C.get_fd fd w ≡ failed e → (e ≡ ebadf) × (table w fd ≡ none)
  pub close_self : (fd : ℕ) (w : C.World) → table (C.close fd w).1 fd ≡ none
  pub close-frame : (fd g : ℕ) (w : C.World) → g ≢ fd → table (C.close fd w).1 g ≡ table w g
  pub dup_fd-ok :
      (fd least r : ℕ) (w : C.World)
      → (C.dup_fd fd least w).0 ≡ ok r
      → (least ≤ r)
        × ((g : ℕ) → least ≤ g → g < r → table w g ≢ none)
        × (table (C.dup_fd fd least w).1 r ≡ table w fd)
        × ((g : ℕ) → g ≢ r → table (C.dup_fd fd least w).1 g ≡ table w g)
  pub dup_fd-failed :
      (fd least e g : ℕ) (w : C.World)
      → (C.dup_fd fd least w).0 ≡ failed e
      → table (C.dup_fd fd least w).1 g ≡ table w g

module _ (C : Calls) (L : IsLawful C) where
  open L use {table}

  Answer-cases : (a : Answer) → ((n : ℕ) × (a ≡ ok n)) ⊎ ((e : ℕ) × (a ≡ failed e))
  Answer-cases (ok n) = inl (n, refl)
  Answer-cases (failed e) = inr (e, refl)

  -- The call of fcntl() that is to duplicate `oldfd` fails with `e`, where `newfd` is free.
  abbrev pub Refused : ℕ → ℕ → ℕ → Type 0
  Refused oldfd newfd e =
      (w : C.World) × (table w newfd ≡ none) × ((C.dup_fd oldfd newfd w).0 ≡ failed e)

  -- What dup2() is to give: `newfd` for the description of `oldfd`, or the error of that call; no
  -- other descriptor changes.
  abbrev pub Duplicated : ℕ → ℕ → C.World → Answer × C.World → Type 0
  Duplicated oldfd newfd w out =
      (((out.0 ≡ ok newfd) × (table out.1 newfd ≡ table w oldfd))
        ⊎ ((oldfd ≢ newfd) × ((e : ℕ) × (out.0 ≡ failed e) × Refused oldfd newfd e)))
      × ((g : ℕ) → g ≢ newfd → table out.1 g ≡ table w g)

  dup_fd-Duplicated :
      (oldfd newfd : ℕ) (w : C.World)
      → oldfd ≢ newfd
      → table w newfd ≡ none
      → Duplicated oldfd newfd w (C.dup_fd oldfd newfd w)
  dup_fd-Duplicated oldfd newfd w apart free = elim (Answer-cases (C.dup_fd oldfd newfd w).0) [
    | inr (e, a) ↦ (inr (apart, (e, a, (w, free, a))), λ g ne. L.dup_fd-failed oldfd newfd e g w a)
    | inl (r, a) ↦
        let (le, taken, same, others) = L.dup_fd-ok oldfd newfd r w a in
        elim (Bool-cases (newfd == r)) [
          | inl e ↦
              let eq = (==_iff newfd r).0 e in
              (
                inl (a ∙ ap ok (sym eq), ap (table (C.dup_fd oldfd newfd w).1) eq ∙ same),
                λ g ne. others g (λ k. ne (k ∙ sym eq)),
              )
          | inr e ↦ absurd (taken newfd (omega arith) (ground arith) free)
        ]
  ]

  replace-Duplicated :
      (oldfd newfd : ℕ) (w : C.World)
      → oldfd ≢ newfd
      → Duplicated oldfd newfd w (replace C oldfd newfd w)
  unfolding replace
  replace-Duplicated oldfd newfd w ne = elim (Answer-cases (C.get_fd newfd w)) [
    | inr (e, a) ↦
        let (bad, free) = L.get_fd-failed newfd e w a in
        let yes : (e == ebadf) ≡ true = ground arith in
        rw (a, yes, replace) (dup_fd-Duplicated oldfd newfd w ne free)
    | inl (n, a) ↦
        let w' = (C.close newfd w).1 in
        let (result, others) = dup_fd-Duplicated oldfd newfd w' ne (L.close_self newfd w) in
        let kept = L.close-frame newfd oldfd w ne in
        rw (a, replace)
          (
            elim result [ inl (done, same) ↦ inl (done, same ∙ kept) | inr wrong ↦ inr wrong ],
            λ g other. others g other ∙ L.close-frame newfd g w other,
          )
  ]

  -- `dup2` fails with EBADF and changes nothing where `oldfd` is not open. Otherwise `oldfd` is open,
  -- and it returns `newfd`, which has the description of `oldfd`, or, only where the two differ, the error by which
  -- fcntl() fails to duplicate `oldfd` to the free `newfd`; no other descriptor changes.
  pub dup2-Duplicated :
      (oldfd newfd : ℕ) (w : C.World)
      → (table w oldfd ≡ none) × (dup2 C oldfd newfd w ≡ (failed ebadf, w))
        ⊎ ((d : ℕ) × (table w oldfd ≡ some d) × Duplicated oldfd newfd w (dup2 C oldfd newfd w))
  unfolding dup2
  dup2-Duplicated oldfd newfd w = elim (Answer-cases (C.get_fd oldfd w)) [
    | inr (e, a) ↦ inl ((L.get_fd-failed oldfd e w a).1, rw (a, dup2) refl)
    | inl (n, a) ↦ inr (
        let (d, there) = L.get_fd-ok oldfd n w a in
        (
          d,
          there,
          elim (Bool-cases (oldfd == newfd)) [
            | inl e ↦
                let eq = (==_iff oldfd newfd).0 e in
                rw (a, e, dup2) (inl (refl, ap (table w) (sym eq)), λ g ne. refl)
            | inr e ↦
                let ne : oldfd ≢ newfd = ground arith in
                rw (a, e, dup2) (replace-Duplicated oldfd newfd w ne)
          ],
        ))
  ]
