-- ===== src/Tee/Whole.antt =====
-- A run of 04-file-io-universal-io-model/tee.c, from its arguments to the streams it closes.
use linux_programming_interf.Common.{
  ℕ, suc, ◌+◌, ◌≤◌, ◌<◌, ◌≡◌, refl, ap, ◌∙◌, inl, inr, ◌⊎◌, Bool, true, false, none, some, List, [],
  ◌∷◌, ◌++◌, CString, codes, arith, ltb, leb, length, All, All-map, All-both, Bool-cases,
  Option-cases,
}
use linux_programming_interf.Common.Outcome.{ok, fault}
use linux_programming_interf.Tee.{
  Streams, parse_args, file_mode, max_files, open_files, close_each, main,
}
use linux_programming_interf.Tee.Laws.{IsStreams, Distinct, copy-delivers}

-- fopen() when it does not fail: it gives a stream that was not open, and leaves the streams that
-- are open alone.
pub record IsOpening (C : Streams) (S : IsStreams C) : Type 0 where
  pub opened : C.World → ℕ → Bool
  pub fopen_new :
      (path mode : CString) (w : C.World)
      → (s : ℕ) × ((C.fopen path mode w).0 ≡ some s)
        × (opened w s ≡ false)
        × (opened (C.fopen path mode w).1 s ≡ true)
  pub fopen_opened :
      (path mode : CString) (w : C.World) (g : ℕ)
      → opened w g ≡ true
      → opened (C.fopen path mode w).1 g ≡ true
  pub fopen_sinks :
      (path mode : CString) (w : C.World) (g : ℕ)
      → opened w g ≡ true
      → S.sink (C.fopen path mode w).1 g ≡ S.sink w g

module _ (C : Streams) (S : IsStreams C) (O : IsOpening C S) where
  open S use {sink, source}
  open O use {opened}

  closed_before :
      (path mode : CString) (w : C.World) (g : ℕ)
      → opened (C.fopen path mode w).1 g ≡ false
      → opened w g ≡ false
  closed_before path mode w g closed = elim (Bool-cases (opened w g)) [
    | inl open_there ↦ absurd (let still = O.fopen_opened path mode w g open_there in cc)
    | inr e ↦ e
  ]

  -- The streams are those that fopen() gives for the names, one behind the other.
  abbrev pub OpensEach : CString → List CString → C.World → List ℕ → C.World → Type 0
  OpensEach mode [] w [] w' = w' ≡ w
  OpensEach mode [] w (f ∷ files) w' = ⊥
  OpensEach mode (path ∷ names) w [] w' = ⊥
  OpensEach mode (path ∷ names) w (f ∷ files) w' =
      ((C.fopen path mode w).0 ≡ some f) × OpensEach mode names (C.fopen path mode w).1 files w'

  -- What the loop that opens the files leaves: streams that were not open, all different.
  abbrev Opens : CString → ℕ → List CString → C.World → List ℕ → C.World → Type 0
  Opens mode i names w files w' =
      (open_files C mode i names w ≡ ok (some files, w'))
      × OpensEach mode names w files w'
      × Distinct files
      × All (λ g. opened w g ≡ false) files
      × All (λ g. opened w' g ≡ true) files
      × ((g : ℕ) → opened w g ≡ true → (opened w' g ≡ true) × (sink w' g ≡ sink w g))

  open_files-Opens :
      (mode : CString) (i : ℕ) (names : List CString) (w : C.World)
      → i + length names ≤ max_files
      → (files : List ℕ) × (w' : C.World) × Opens mode i names w files w'
  unfolding open_files
  open_files-Opens mode i [] w enough = ([], w, (refl, refl, tt, tt, tt, λ g e. (e, refl)))
  open_files-Opens mode i (path ∷ names) w enough =
      let (f, got, closed, now) = O.fopen_new path mode w in
      let w1 = (C.fopen path mode w).1 in
      let (files, w', opens) = open_files-Opens mode (suc i) names w1 (omega arith) in
      let (run, each, apart, fresh, still, kept) = opens in
      let room : ltb i max_files ≡ true = ground arith in
      (
        f ∷ files,
        w',
        (
          rw (got, open_files, room, run) refl,
          (got, each),
          (All-map files (λ g e. (λ same. cc)) fresh, apart),
          (closed, All-map files (λ g e. closed_before path mode w g e) fresh),
          ((kept f now).0, still),
          λ g e.
              (let (later, same) = kept g (O.fopen_opened path mode w g e) in
                (later, same ∙ O.fopen_sinks path mode w g e)),
        ),
      )

  open_files-fault :
      (mode : CString) (i : ℕ) (names : List CString) (w : C.World)
      → i ≤ max_files
      → max_files < i + length names
      → open_files C mode i names w ≡ fault
  unfolding open_files
  open_files-fault mode i [] w le more = absurd (omega arith)
  open_files-fault mode i (path ∷ names) w le more =
      let (f, got, closed, now) = O.fopen_new path mode w in
      let w1 = (C.fopen path mode w).1 in
      elim (Bool-cases (ltb i max_files)) [
        | inl room ↦
            let later = open_files-fault mode (suc i) names w1 (ground arith) (omega arith) in
            rw (got, open_files, room, later) refl
        | inr full ↦ rw (got, open_files, full) refl
      ]

  -- The files are different streams, and standard output, untouched so far, and each of them get all
  -- that can be read from the stream `src`, behind what they had.
  abbrev pub Delivers : List ℕ → C.World → C.World → C.World → ℕ → Type 0
  Delivers files w w1 w3 src =
      (sink w1 C.stdout ≡ sink w C.stdout)
      × Distinct files
      × All (λ g. sink w3 g ≡ sink w1 g ++ source (C.fopen (codes "tee.c") (codes "r") w1).1 src)
          (C.stdout ∷ files)

  main_runs :
      (opts : List ℕ) (names : List CString) (append_mode : Bool) (w : C.World)
      → parse_args opts false ≡ some append_mode
      → length names ≤ max_files
      → opened w C.stdout ≡ true
      → (fuel : ℕ) × (files : List ℕ) × (src : ℕ) × (w1 w3 : C.World) × (main C fuel opts names w
          ≡ ok (0, close_each C files w3))
        × OpensEach (file_mode append_mode) names w files w1
        × ((C.fopen (codes "tee.c") (codes "r") w1).0 ≡ some src)
        × Delivers files w w1 w3 src
  unfolding main
  main_runs opts names append_mode w parsed enough there =
      let mode = file_mode append_mode in
      let (files, w1, opens) = open_files-Opens mode 0 names w (omega arith) in
      let (run, each, apart, fresh, still, kept) = opens in
      let (src, got, closed, now) = O.fopen_new (codes "tee.c") (codes "r") w1 in
      let w2 = (C.fopen (codes "tee.c") (codes "r") w1).1 in
      let others = All-map files (λ g e. λ same. cc) fresh in
      let fuel = suc (length (source w2 src)) in
      let (w3, copied, given) = copy-delivers C S fuel src files w2 (others, apart) (omega arith) in
      let open_now = (kept C.stdout there) in
      let same =
        All-map (C.stdout ∷ files) (λ g e. O.fopen_sinks (codes "tee.c") (codes "r") w1 g e)
          (open_now.0, still) in
      (
        fuel,
        files,
        src,
        w1,
        w3,
        rw (parsed, main, run, got, copied) refl,
        each,
        got,
        (
          open_now.1,
          apart,
          All-both (C.stdout ∷ files) (λ g e d. d ∙ ap (λ l. l ++ source w2 src) e) same given,
        ),
      )

  -- When no call on a stream fails, and fopen() never does, tee returns 1 where an option is not
  -- known; it writes past the end of its array where there are more than 20 files; and otherwise it
  -- opens a stream for each of the names, ends and returns 0, and standard output and each of these
  -- streams get all bytes of the file "tee.c", not of standard input, in their order, behind what
  -- they had.
  pub main-Delivers :
      (fuel : ℕ) (opts : List ℕ) (names : List CString) (w : C.World)
      → opened w C.stdout ≡ true
      → ((parse_args opts false ≡ none) × (main C fuel opts names w ≡ ok (1, w)))
        ⊎ ((max_files < length names) × (main C fuel opts names w ≡ fault))
        ⊎ ((append_mode : Bool) × (enough : ℕ) × (files : List ℕ) × (src : ℕ) × (w1 : C.World)
            × (w3 : C.World) × (parse_args opts false ≡ some append_mode)
            × (main C enough opts names w ≡ ok (0, close_each C files w3))
            × OpensEach (file_mode append_mode) names w files w1
            × ((C.fopen (codes "tee.c") (codes "r") w1).0 ≡ some src)
            × Delivers files w w1 w3 src)
  unfolding main
  main-Delivers fuel opts names w there = elim (Option-cases (parse_args opts false)) [
    | inl bad ↦ inl (bad, rw (bad, main) refl)
    | inr (append_mode, parsed) ↦ elim (Bool-cases (leb (length names) max_files)) [
      | inl few ↦
          let (enough, files, src, w1, w3, run, opens, got, gives) =
            main_runs opts names append_mode w parsed (ground arith) there in
          inr (inr (append_mode, enough, files, src, w1, w3, parsed, run, opens, got, gives))
      | inr many ↦
          let more : max_files < length names = ground arith in
          let over =
            open_files-fault (file_mode append_mode) 0 names w (omega arith) (omega arith) in
          inr (inl (more, rw (parsed, main, over) refl))
    ]
  ]
