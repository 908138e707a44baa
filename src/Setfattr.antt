-- ===== src/Setfattr.antt =====
-- 16-extended-attributes/setfattr.c. What getopt_long() returns is a list of option characters with
-- their arguments; setxattr() and removexattr() are parameters.
pub mod Laws
pub mod Options
pub mod Whole
mod Tests
use linux_programming_interf.Common.{
  ℕ, Bool, true, false, Option, none, some, List, [], ◌∷◌, ◌++◌, CString, ◌==◌, if◌then◌else◌,
}
use linux_programming_interf.Common.Output.{Output, text, str}

-- The static variables.
pub record Settings : Type 0 where
  pub no_deref_flag : Bool
  pub name : Option CString
  pub value : Option CString
  pub remove_name : Option CString

abbrev pub unset : Settings
unset = record { no_deref_flag = false; name = none; value = none; remove_name = none }

-- A function that returns, or ends the program by exit() or abort().
pub data Run (A : Type 0) : Type 0 where
  ok : A → Run A
  exited : ℕ → Run A
  aborted : Run A

abbrev pub exit_success : ℕ
exit_success = 0

abbrev pub print_usage : Output
print_usage = text "Usage: See man setfattr(1)\n" ∷ []

abbrev pub print_version : Output
print_version = text "setfattr (tlpi exercise) v0.1\n" ∷ []

-- The loop of `parse_arguments`, with what it prints.
unfoldable pub parse_arguments : List (ℕ × CString) → Settings → Run Settings × Output
parse_arguments [] s = (ok s, [])
parse_arguments ((c, optarg) ∷ rest) s =
    if c == b'h'
    then parse_arguments rest (record s { no_deref_flag = true })
    else if c == b'V'
    then (exited exit_success, print_version)
    else if c == b'H'
    then (exited exit_success, print_usage)
    else if c == b'n'
    then parse_arguments rest (record s { name = some optarg })
    else if c == b'v'
    then parse_arguments rest (record s { value = some optarg })
    else if c == b'x'
    then (let (r, o) = parse_arguments rest (record s { remove_name = some optarg }) in
        (r, (text "Option -x: " ∷ str optarg ∷ text "\n" ∷ []) ++ o))
    else if c == b'?'
    then parse_arguments rest s
    else (aborted, [])

-- The three tests in order; print_usage() ends the program.
unfoldable pub validate_arguments : Settings → Run Settings × Output
validate_arguments s = elim s.name [
  | none ↦ elim s.remove_name [
    | none ↦ (exited exit_success, text "Either '-n' or '-x' must be specified\n" ∷ print_usage)
    | some remove_name ↦ (ok s, [])
  ]
  | some name ↦ elim s.remove_name [
    | none ↦ elim s.value [
      | none ↦ (exited exit_success, text "Name specified without a value '-v'\n" ∷ print_usage)
      | some value ↦ (ok s, [])
    ]
    | some remove_name ↦
        (exited exit_success, text "Must specify only one of '-n' or '-x'\n" ∷ print_usage)
  ]
]

-- `true` stands for success.
pub record Calls : Type 1 where
  pub World : Type 0
  pub setxattr : CString → CString → CString → World → Bool × World
  pub removexattr : CString → CString → World → Bool × World
  pub print : Output → World → World

module _ (C : Calls) where
  open C use {World, setxattr, removexattr, print}

  unfoldable pub do_set_attr : CString → CString → List CString → World → World
  do_set_attr name value [] w = w
  do_set_attr name value (file ∷ files) w =
      let (done, w') = setxattr file name value w in
      let message =
        text "Unable to set attr '" ∷ str name ∷ text "' on '" ∷ str file ∷ text "'\n" ∷ [] in
      do_set_attr name value files (if done then w' else print message w')

  unfoldable pub do_remove_attr : CString → List CString → World → World
  do_remove_attr remove_name [] w = w
  do_remove_attr remove_name (file ∷ files) w =
      let (done, w') = removexattr file remove_name w in
      let message =
        text "Unable to remove attr '"
        ∷ str remove_name
        ∷ text "' on '"
        ∷ str file
        ∷ text "'\n"
        ∷ [] in
      do_remove_attr remove_name files (if done then w' else print message w')

  -- The end of `main`; `none` is a read through a null pointer.
  unfoldable pub apply : Settings → List CString → World → Option World
  unfolding do_set_attr do_remove_attr
  apply s files w = elim s.name [
    | none ↦ elim s.remove_name [
      | none ↦ elim files [ [] ↦ some w | file ∷ rest ↦ none ]
      | some remove_name ↦ some (do_remove_attr remove_name files w)
    ]
    | some name ↦ elim s.value [
      | none ↦ elim files [ [] ↦ some w | file ∷ rest ↦ none ]
      | some value ↦ some (do_set_attr name value files w)
    ]
  ]

  -- `files` is what getopt_long() leaves of argv.
  unfoldable pub main : List (ℕ × CString) → List CString → World → Option (Run (Unit {0}) × World)
  unfolding parse_arguments validate_arguments apply
  main opts files w =
      let (parsed, o1) = parse_arguments opts unset in
      elim parsed [
        | exited n ↦ some (exited n, print o1 w)
        | aborted ↦ some (aborted, print o1 w)
        | ok s ↦
            (let (checked, o2) = validate_arguments s in
              elim checked [
                | exited n ↦ some (exited n, print o2 (print o1 w))
                | aborted ↦ some (aborted, print o2 (print o1 w))
                | ok s' ↦ elim (apply s' files (print o2 (print o1 w))) [
                  | none ↦ none
                  | some w' ↦ some (ok tt, w')
                ]
              ])
      ]
