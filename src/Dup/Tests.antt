-- ===== src/Dup/Tests.antt =====
-- Runs of dup2() on a table of descriptors.
use linux_programming_interf.Common.{
  ℕ, ◌≤◌, ◌<◌, ◌≡◌, ◌≢◌, refl, sym, ap, ◌∙◌, ◌⊎◌, true, false, Option, none, some, arith, ◌==◌,
  if◌then◌else◌,
}
use linux_programming_interf.Dup.{Calls, Answer, ok, failed, ebadf, dup2}
use linux_programming_interf.Dup.Laws.{IsLawful, Duplicated, dup2-Duplicated}

abbrev Table : Type 0
Table = ℕ → Option ℕ

abbrev update : Table → ℕ → Option ℕ → Table
update w fd o g = if g == fd then o else w g

abbrev asked : Option ℕ → Answer
asked none = failed ebadf
asked (some d) = ok 0

-- F_DUPFD gives the least descriptor that is asked for, or fails where it is taken.
abbrev taken : Option ℕ → ℕ → ℕ → Table → Answer × Table
taken none fd least w = (ok least, update w least (w fd))
taken (some d) fd least w = (failed 24, w)

abbrev calls : Calls
calls = record {
  World = Table;
  get_fd = λ fd w. asked (w fd);
  dup_fd = λ fd least w. taken (w least) fd least w;
  close = λ fd w. (true, update w fd none);
}

asked-ok : (o : Option ℕ) (n : ℕ) → asked o ≡ ok n → (d : ℕ) × (o ≡ some d)
asked-ok none n e = absurd (ground arith)
asked-ok (some d) n e = (d, refl)

asked-failed : (o : Option ℕ) (n : ℕ) → asked o ≡ failed n → (n ≡ ebadf) × (o ≡ none)
asked-failed none n e = (ground arith, refl)
asked-failed (some d) n e = absurd (ground arith)

update_self : (w : Table) (fd : ℕ) (o : Option ℕ) → update w fd o fd ≡ o
update_self w fd o = ground arith

update_other : (w : Table) (fd g : ℕ) (o : Option ℕ) → g ≢ fd → update w fd o g ≡ w g
update_other w fd g o ne = let no : (g == fd) ≡ false = ground arith in rw no refl

taken-ok :
    (o : Option ℕ) (fd least r : ℕ) (w : Table)
    → (taken o fd least w).0 ≡ ok r
    → (least ≤ r)
      × ((g : ℕ) → least ≤ g → g < r → w g ≢ none)
      × ((taken o fd least w).1 r ≡ w fd)
      × ((g : ℕ) → g ≢ r → (taken o fd least w).1 g ≡ w g)
taken-ok (some d) fd least r w e = absurd (ground arith)
taken-ok none fd least r w e =
    let same : least ≡ r = ground arith in
    (
      omega arith,
      λ g le lt. absurd (omega arith),
      ap (update w least (w fd)) (sym same) ∙ update_self w least (w fd),
      λ g ne. update_other w least g (w fd) (λ k. ne (k ∙ same)),
    )

taken-failed :
    (o : Option ℕ) (fd least e g : ℕ) (w : Table)
    → (taken o fd least w).0 ≡ failed e
    → (taken o fd least w).1 g ≡ w g
taken-failed none fd least e g w h = absurd (ground arith)
taken-failed (some d) fd least e g w h = refl

abbrev calls-IsLawful : IsLawful calls
calls-IsLawful = record {
  table = λ w fd. w fd;
  get_fd-ok = λ fd n w e. asked-ok (w fd) n e;
  get_fd-failed = λ fd n w e. asked-failed (w fd) n e;
  close_self = λ fd w. update_self w fd none;
  close-frame = λ fd g w ne. update_other w fd g none ne;
  dup_fd-ok = λ fd least r w e. taken-ok (w least) fd least r w e;
  dup_fd-failed = λ fd least e g w h. taken-failed (w least) fd least e g w h;
}

abbrev standard : Table
standard fd = if fd == 3 then some 7 else if fd == 5 then some 8 else none

replaced : (dup2 calls 3 5 standard).1 5 ≡ some 7
unfolding dup2
replaced = refl

dup2-Duplicated_example :
    (standard 3 ≡ none) × (dup2 calls 3 5 standard ≡ (failed ebadf, standard))
    ⊎ ((d : ℕ) × (standard 3 ≡ some d)
        × Duplicated calls calls-IsLawful 3 5 standard (dup2 calls 3 5 standard))
dup2-Duplicated_example = dup2-Duplicated calls calls-IsLawful 3 5 standard
