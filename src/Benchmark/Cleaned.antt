-- ===== src/Benchmark/Cleaned.antt =====
-- What a run of 14-file-systems/benchmarkwrites.c leaves of its files.
use linux_programming_interf.Common.{
  ℕ, zero, suc, ◌+◌, ◌≤◌, ◌<◌, ◌≡◌, refl, sym, ap, ◌∙◌, Bool, true, false, ◌||◌, some, inl, inr,
  List, [], ◌∷◌, CString, str_eq, str_eq_iff, arith, Bool-cases, hit, count, ltb, map, ◌==◌,
  if◌then◌else◌,
}
use linux_programming_interf.Common.Output.{Output}
use linux_programming_interf.Benchmark.{
  Calls, Options, numbers, create_files, delete_files, measure, file_contents, create_flags,
  mode_777,
}

-- The calls when none of them fails: which files there are.
pub record IsDirectory (C : Calls) : Type 0 where
  pub exists : C.World → CString → Bool
  pub open_done :
      (path : CString) (flags mode : ℕ) (w : C.World)
      → (fd : ℕ) × ((C.open_file path flags mode w).0 ≡ some fd)
  pub open_exists :
      (path p : CString) (mode : ℕ) (w : C.World)
      → exists (C.open_file path create_flags mode w).1 p ≡ (str_eq p path || exists w p)
  pub write_exists :
      (fd : ℕ) (bs : List ℕ) (w : C.World) (p : CString) → exists (C.write fd bs w) p ≡ exists w p
  pub close_exists : (fd : ℕ) (w : C.World) (p : CString) → exists (C.close fd w) p ≡ exists w p
  -- unlink() fails for what is not there.
  pub unlink_done : (path : CString) (w : C.World) → (C.unlink path w).0 ≡ exists w path
  pub unlink_exists :
      (path p : CString) (w : C.World)
      → exists (C.unlink path w).1 p ≡ (if str_eq p path then false else exists w p)
  pub time_exists : (w : C.World) (p : CString) → exists (C.gettimeofday w).1 p ≡ exists w p
  pub print_exists : (o : Output) (w : C.World) (p : CString) → exists (C.print o w) p ≡ exists w p

-- A path is one of some paths.
abbrev pub among : CString → List CString → Bool
among p [] = false
among p (q ∷ qs) = str_eq p q || among p qs

module _ (path : ℕ → CString) where
  among-count : (z : ℕ) (xs : List ℕ) → 0 < count z xs → among (path z) (map path xs) ≡ true
  among-count z [] lt = absurd (omega arith)
  among-count z (x ∷ xs) lt = elim (Bool-cases (z == x)) [
    | inl e ↦
        let same : z ≡ x = ground arith in
        let here : str_eq (path z) (path x) ≡ true =
          (str_eq_iff (path z) (path x)).1 (ap path same) in
        rw here refl
    | inr e ↦
        let none_here : hit z x ≡ 0 = rw e refl in
        let later = among-count z xs (omega arith) in
        elim (Bool-cases (str_eq (path z) (path x))) [ inl a ↦ rw a refl | inr a ↦ rw a later ]
  ]

  count-among :
      (p : CString) (xs : List ℕ)
      → among p (map path xs) ≡ true
      → (z : ℕ) × (0 < count z xs) × (p ≡ path z)
  count-among p [] e = absurd (let clash : false ≡ true = e in cc)
  count-among p (x ∷ xs) e = elim (Bool-cases (str_eq p (path x))) [
    | inl a ↦ let one : hit x x ≡ 1 = ground arith in (x, omega arith, (str_eq_iff p (path x)).0 a)
    | inr a ↦ let (z, lt, same) = count-among p xs (rw a at e) in (z, omega arith, same)
  ]

count-numbers :
    (z i n : ℕ) → count z (numbers i n) ≡ (if ltb z i then 0 else if ltb z (i + n) then 1 else 0)
unfolding numbers
count-numbers z i zero = ground arith
count-numbers z i (suc n) = let later = count-numbers z (suc i) n in ground (arith, later)

module _ (C : Calls) (D : IsDirectory C) (filepath : CString → ℕ → CString) (dirname : CString)
    (injective : (x y : ℕ) → filepath dirname x ≡ filepath dirname y → x ≡ y) where
  open D use {exists}

  abbrev path : ℕ → CString
  path = filepath dirname

  create_files_done :
      (xs : List ℕ) (w : C.World)
      → ((create_files C filepath dirname xs w).0 ≡ true)
        × ((p : CString)
            → exists (create_files C filepath dirname xs w).1 p
              ≡ (among p (map path xs) || exists w p))
  unfolding create_files
  create_files_done [] w = (refl, λ p. refl)
  create_files_done (x ∷ xs) w =
      let (fd, opened) = D.open_done (path x) create_flags mode_777 w in
      let w1 = (C.open_file (path x) create_flags mode_777 w).1 in
      let w2 = C.close fd (C.write fd file_contents w1) in
      let (done, there) = create_files_done xs w2 in
      (
        rw (opened, create_files) done,
        λ p.
            rw (opened, create_files)
              (there p
                ∙ ap (λ b. among p (map path xs) || b)
                    (D.close_exists fd (C.write fd file_contents w1) p
                      ∙ D.write_exists fd file_contents w1 p
                      ∙ D.open_exists (path x) p mode_777 w)
                ∙ swap (among p (map path xs)) (str_eq p (path x)) (exists w p)),
      )
    where
      swap : (a b c : Bool) → (a || (b || c)) ≡ ((b || a) || c)
      swap true true c = refl
      swap true false c = refl
      swap false true c = refl
      swap false false c = refl

  delete_files_done :
      (ys : List ℕ) (w : C.World)
      → ((z : ℕ) → count z ys ≤ 1)
      → ((z : ℕ) → 0 < count z ys → exists w (path z) ≡ true)
      → ((delete_files C filepath dirname ys w).0 ≡ true)
        × ((p : CString)
            → exists (delete_files C filepath dirname ys w).1 p
              ≡ (if among p (map path ys) then false else exists w p))
  unfolding delete_files
  delete_files_done [] w single there = (refl, λ p. refl)
  delete_files_done (y ∷ ys) w single there =
      let one : hit y y ≡ 1 = ground arith in
      let gone = D.unlink_done (path y) w ∙ there y (omega arith) in
      let w1 = (C.unlink (path y) w).1 in
      let kept : (z : ℕ) → 0 < count z ys → exists w1 (path z) ≡ true = λ z lt.
        (let apart : str_eq (path z) (path y) ≡ false =
            elim (Bool-cases (str_eq (path z) (path y))) [
              | inr a ↦ a
              | inl a ↦
                  let same : z ≡ y = injective z y ((str_eq_iff (path z) (path y)).0 a) in
                  let most = single y in
                  let some_left : 0 < count y ys = ground (arith, ap (λ k. count k ys) same) in
                  absurd (omega arith)
            ] in
          D.unlink_exists (path y) (path z) w ∙ rw apart (there z (omega arith))) in
      let (done, left) = delete_files_done ys w1 (λ z. (let le = single z in omega arith)) kept in
      (
        rw (gone, delete_files) done,
        λ p.
            rw (gone, delete_files)
              (left p
                ∙ ap (λ b. if among p (map path ys) then false else b)
                    (D.unlink_exists (path y) p w)
                ∙ swap (among p (map path ys)) (str_eq p (path y)) (exists w p)),
      )
    where
      swap :
          (a b c : Bool)
          → (if a then false else (if b then false else c)) ≡ (if b || a then false else c)
      swap true true c = refl
      swap true false c = refl
      swap false true c = refl
      swap false false c = refl

  pub measure_cleaned :
      (o : Options) (n : ℕ) (xs : List ℕ) (w : C.World)
      → ((z : ℕ) → count z xs ≡ count z (numbers 0 n))
      → (w' : C.World) × (measure C filepath o dirname xs (numbers 0 n) w ≡ (0, w'))
        × ((p : CString)
            → exists w' p ≡ (if among p (map path (numbers 0 n)) then false else exists w p))
  unfolding measure
  measure_cleaned o n xs w same =
      let ys : List ℕ = numbers 0 n in
      let w1 = (C.gettimeofday w).1 in
      let (created, there) = create_files_done xs w1 in
      let w2 = (create_files C filepath dirname xs w1).1 in
      let single : (z : ℕ) → count z ys ≤ 1 =
        λ z. (let number = count-numbers z 0 n in ground (arith, number)) in
      let found : (z : ℕ) → 0 < count z ys → exists w2 (path z) ≡ true = λ z lt.
        (let some_here = same z in
          there (path z) ∙ rw (among-count path z xs (omega arith)) refl) in
      let (deleted, left) = delete_files_done ys w2 single found in
      let w3 = (delete_files C filepath dirname ys w2).1 in
      let before : (p : CString)
          → (if among p (map path ys) then false else exists w2 p)
            ≡ (if among p (map path ys) then false else exists w p) =
        λ p. elim (Bool-cases (among p (map path ys))) [
          | inl a ↦ rw a refl
          | inr a ↦
              let other : among p (map path xs) ≡ false =
                elim (Bool-cases (among p (map path xs))) [
                  | inr b ↦ b
                  | inl b ↦
                      let (z, lt, is) = count-among path p xs b in
                      let some_here = same z in
                      let clash =
                        sym (among-count path z ys (omega arith))
                        ∙ ap (λ q. among q (map path ys)) (sym is)
                        ∙ a in
                      absurd (cc)
                ] in
              rw a (there p ∙ rw other (D.time_exists w p))
        ] in
      (
        (measure C filepath o dirname xs ys w).1,
        rw (created, deleted, measure) refl,
        λ p.
            rw (created, deleted, measure)
              (D.print_exists _ (C.gettimeofday w3).1 p ∙ D.time_exists w3 p ∙ left p ∙ before p),
      )
