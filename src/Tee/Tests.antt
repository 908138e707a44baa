-- ===== src/Tee/Tests.antt =====
-- A run of 04-file-io-universal-io-model/tee.c on streams in memory.
use linux_programming_interf.Common.{
  suc, ltb, str_eq, ◌<◌, ◌⊎◌, Bool, false, ℕ, ◌≡◌, refl, Option, none, some, List, [], ◌∷◌, ◌++◌,
  CString, codes, ◌==◌, take, drop, arith, if◌then◌else◌,
}
use linux_programming_interf.Common.Outcome.{ok, fault}
use linux_programming_interf.Tee.{Streams, parse_args, file_mode, max_files, close_each, main}
use linux_programming_interf.Tee.Laws.{IsStreams}
use linux_programming_interf.Tee.Whole.{OpensEach, IsOpening, Delivers, main-Delivers}

-- The streams that are open, which are the numbers below `next`, and for each what is left to be read
-- and what was put in it.
record Pipes : Type 0 where
  next : ℕ
  pipe : ℕ → List ℕ × List ℕ

abbrev set_pipe : Pipes → ℕ → List ℕ × List ℕ → Pipes
set_pipe w s p = record w { pipe = λ g. if g == s then p else w.pipe g }

-- Every file holds "abc" when it is opened for reading.
abbrev held : CString → List ℕ
held mode = if str_eq mode (codes "r") then codes "abc" else []

abbrev opener : CString → CString → Pipes → Option ℕ × Pipes
opener path mode w = (some w.next, record (set_pipe w w.next (held mode, [])) { next = suc w.next })

abbrev streams : Streams
streams = record {
  World = Pipes;
  stdout = 1;
  fopen = opener;
  fread = λ s n w. (take n (w.pipe s).0, set_pipe w s (drop n (w.pipe s).0, (w.pipe s).1));
  fwrite = λ s bs w. set_pipe w s ((w.pipe s).0, (w.pipe s).1 ++ bs);
  fclose = λ s w. w;
  print = λ o w. w;
}

abbrev streams-IsStreams : IsStreams streams
streams-IsStreams = record {
  sink = λ w g. (w.pipe g).1;
  source = λ w g. (w.pipe g).0;
  read_bytes = λ s n w. refl;
  read_rest = λ s n w. ground arith;
  read_sinks = λ s n g w. ground arith;
  write_bytes = λ s bs w. ground arith;
  write_others = λ s g bs w ne. ground arith;
  write_sources = λ s g bs w. ground arith;
}

abbrev streams-IsOpening : IsOpening streams streams-IsStreams
streams-IsOpening = record {
  opened = λ w g. ltb g w.next;
  fopen_new = λ path mode w. (w.next, refl, ground arith, ground arith);
  fopen_opened = λ path mode w g e. ground arith;
  fopen_sinks = λ path mode w g e. ground arith;
}

-- stdin, stdout and stderr are open.
abbrev world : Pipes
world = record { next = 3; pipe = λ g. ([], if g == 1 then codes "x" else []) }

main-Delivers_example :
    ((parse_args (b'a' ∷ []) false ≡ none)
      × (main streams 4 (b'a' ∷ []) (codes "f" ∷ codes "g" ∷ []) world ≡ ok (1, world)))
    ⊎ ((max_files < 2) × (main streams 4 (b'a' ∷ []) (codes "f" ∷ codes "g" ∷ []) world ≡ fault))
    ⊎ ((append_mode : Bool) × (enough : ℕ) × (files : List ℕ) × (src : ℕ) × (w1 : Pipes)
        × (w3 : Pipes) × (parse_args (b'a' ∷ []) false ≡ some append_mode)
        × (main streams enough (b'a' ∷ []) (codes "f" ∷ codes "g" ∷ []) world
            ≡ ok (0, close_each streams files w3))
        × OpensEach streams streams-IsStreams streams-IsOpening
            (file_mode append_mode)
            (codes "f" ∷ codes "g" ∷ [])
            world
            files
            w1
        × ((streams.fopen (codes "tee.c") (codes "r") w1).0 ≡ some src)
        × Delivers streams streams-IsStreams streams-IsOpening files world w1 w3 src)
main-Delivers_example =
    main-Delivers streams streams-IsStreams streams-IsOpening 4 (b'a' ∷ [])
      (codes "f" ∷ codes "g" ∷ []) world refl

-- A file that cannot be opened: the cleanup uses a stream that is not set.
abbrev closed : Streams
closed = record streams { fopen = λ path mode w. (none, w) }

one_missing : main closed 4 [] (codes "f" ∷ []) world ≡ fault
unfolding main
one_missing = refl
