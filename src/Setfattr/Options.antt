-- ===== src/Setfattr/Options.antt =====
-- What 16-extended-attributes/setfattr.c takes from its options, and what it is to do by them.
use linux_programming_interf.Common.{
  ℕ, ◌≡◌, refl, ◌⊎◌, inl, inr, Bool, true, Option, none, some, List, [], ◌∷◌, CString, All, ◌==◌,
  if◌then◌else◌,
}
use linux_programming_interf.Setfattr.{
  Calls, Settings, Run, ok, exited, exit_success, parse_arguments, unset, validate_arguments, apply,
  do_set_attr, do_remove_attr, main,
}
use linux_programming_interf.Setfattr.Laws.{settings}

-- The last argument of the option `c`, or what was found before.
abbrev pub last_of : ℕ → Option CString → List (ℕ × CString) → Option CString
last_of c found [] = found
last_of c found ((d, argument) ∷ opts) = last_of c (if d == c then some argument else found) opts

-- The options that do not end the program.
abbrev pub Known : ℕ → Type 0
Known c = (c ≡ b'h') ⊎ (c ≡ b'n') ⊎ (c ≡ b'v') ⊎ (c ≡ b'x') ⊎ (c ≡ b'?')

-- What a run is to do.
pub data Action : Type 0 where
  sets : CString → CString → Action
  removes : CString → Action
  shows_usage : Action

abbrev pub action : Option CString → Option CString → Option CString → Action
action none value none = shows_usage
action none value (some a) = removes a
action (some a) none none = shows_usage
action (some a) (some b) none = sets a b
action (some a) value (some x) = shows_usage

abbrev pub wanted : List (ℕ × CString) → Action
wanted opts = action (last_of b'n' none opts) (last_of b'v' none opts) (last_of b'x' none opts)

abbrev pub ending : Action → Run (Unit {0})
ending (sets a b) = ok tt
ending (removes a) = ok tt
ending shows_usage = exited exit_success

-- The fields behind the options, from those in front of them.
pub parse-Known :
    (opts : List (ℕ × CString)) (s : Settings)
    → All (λ o. Known o.0) opts
    → (s' : Settings) × ((parse_arguments opts s).0 ≡ ok s')
      × (s'.name ≡ last_of b'n' s.name opts)
      × (s'.value ≡ last_of b'v' s.value opts)
      × (s'.remove_name ≡ last_of b'x' s.remove_name opts)
unfolding parse_arguments
parse-Known [] s known = (s, refl, refl, refl, refl)
parse-Known ((c, a) ∷ opts) s (inl e, known) =
    rw e (parse-Known opts (record s { no_deref_flag = true }) known)
parse-Known ((c, a) ∷ opts) s (inr (inl e), known) =
    rw e (parse-Known opts (record s { name = some a }) known)
parse-Known ((c, a) ∷ opts) s (inr (inr (inl e)), known) =
    rw e (parse-Known opts (record s { value = some a }) known)
parse-Known ((c, a) ∷ opts) s (inr (inr (inr (inl e))), known) =
    rw e (parse-Known opts (record s { remove_name = some a }) known)
parse-Known ((c, a) ∷ opts) s (inr (inr (inr (inr e))), known) = rw e (parse-Known opts s known)

module _ (C : Calls) where
  abbrev pub perform : Action → List CString → C.World → C.World
  perform (sets a b) files w = do_set_attr C a b files w
  perform (removes a) files w = do_remove_attr C a files w
  perform shows_usage files w = w

  -- The world behind what the tests of the arguments print.
  abbrev pub told : List (ℕ × CString) → Settings → C.World → C.World
  told opts s w = C.print (validate_arguments s).1 (C.print (parse_arguments opts unset).1 w)

  pub main-action :
      (opts : List (ℕ × CString)) (files : List CString) (w : C.World) (d : Bool)
      (n v r : Option CString)
      → (parse_arguments opts unset).0 ≡ ok (settings d n v r)
      → main C opts files w
        ≡ some
            (ending (action n v r), perform (action n v r) files (told opts (settings d n v r) w))
  unfolding main apply validate_arguments
  main-action opts files w d none v none e = rw (e, main) refl
  main-action opts files w d none v (some a) e = rw (e, main) refl
  main-action opts files w d (some a) none none e = rw (e, main) refl
  main-action opts files w d (some a) (some b) none e = rw (e, main) refl
  main-action opts files w d (some a) v (some x) e = rw (e, main) refl
