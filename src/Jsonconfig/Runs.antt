-- ===== src/Jsonconfig/Runs.antt =====
-- jsonconfig/jsonconfig.go: runs at concrete inputs.
use go.Common.{
  ℕ, ◌≡◌, ◌≢◌, refl, ap, subst, arith, Bool, true, false, List, [], ◌∷◌, ◌++◌, map, Option, none,
  some, if◌then◌else◌, Bool-cases, inl, inr,
}
use go.Jsonconfig.{
  Value, text, number, boolean, object, same_key, items, item, no_items, Fields, field_of,
  no_fields, Obj, entry, json, unknown_key,
}
use go.Jsonconfig.Validate.{contains, joined}
use go.Jsonconfig.Validate.Expected.{Request, asks_string, asks_int, Unasked, expected_all}
use go.Jsonconfig.Validate.Checked.{check, check-errors_of}
use go.Jsonconfig.Eval.{Result, Parser, done, failed, panics, stuck, Piece, Expander, expand_env}
use go.Jsonconfig.Eval.Env.{expand_env-Keeps}
use go.Jsonconfig.Eval.Files.{
  read_file, fileobj_name, read_json, recursive_read_json, named_expander, expand_file,
  read_absolute, read_touched, read_opened, read_decoded, env_name, eval_value,
  evaluate_expressions,
}
use go.Jsonconfig.Eval.Files.Reads.{read_file-ne-stuck}
use go.Jsonconfig.Eval.Files.Forms.{KeptFields}
use go.Jsonconfig.Eval.Files.Evaluated.{evaluate_expressions-KeptFields}

-- {"a": "x", "b": 7, "_c": "x"} where "a" and "d" are asked for as numbers.
abbrev small_obj : Obj
small_obj =
    entry (97 ∷ []) (json (text (120 ∷ [])))
    ∷ entry (98 ∷ []) (json (number 7))
    ∷ entry (95 ∷ 99 ∷ []) (json (text (120 ∷ [])))
    ∷ []

abbrev small_requests : List Request
small_requests =
    asks_int (97 ∷ []) none ∷ asks_int (100 ∷ []) none ∷ asks_string (101 ∷ []) (some []) ∷ []

abbrev no_boolean : List ℕ → Option Bool
no_boolean s = none

check-errors_of_example :
    (us : List (List ℕ)) × Unasked small_requests small_obj us
    × (check no_boolean (λ f. f) (λ ks. ks) small_requests small_obj
        ≡ some (
            joined
              (λ ks. ks)
              (expected_all no_boolean small_requests small_obj ++ map unknown_key us)))
check-errors_of_example =
    check-errors_of no_boolean (λ f. f) (λ ks. ks) small_requests small_obj
      ((refl, refl), ((refl, refl), ((refl, refl), tt)))
      ((refl, refl), ((refl, refl), ((refl, refl), tt)))

-- Two files that both include the first of them.
abbrev two_files : List (List ℕ)
two_files = (97 ∷ []) ∷ (98 ∷ []) ∷ []

abbrev open_two : List ℕ → Option (List ℕ)
open_two path = if contains two_files path then some path else none

abbrev including : List ℕ → Option Fields
including f = some (
    field_of (120 ∷ []) (items (item (text fileobj_name) (item (text (97 ∷ [])) no_items)))
      no_fields)

abbrev not_empty : List ℕ → Option (List ℕ)
not_empty [] = none
not_empty (b ∷ s) = some (b ∷ s)

or_path : Option (List ℕ) → List ℕ → List ℕ
or_path none d = d
or_path (some x) d = x

only_two :
    (path a f : List ℕ) → open_two path ≡ some f → some path ≡ some a → contains two_files a ≡ true
unfolding or_path
only_two path a f e g = elim (Bool-cases (contains two_files path)) [
  | inl y ↦ subst (λ x. contains two_files x ≡ true) (ap (λ o. or_path o path) g) y
  | inr n ↦ absurd (ground (arith, e, n))
]

never_empty : (file : List ℕ) → not_empty file ≢ some []
never_empty [] e = ground (arith, e)
never_empty (b ∷ s) e = ground (arith, ap (λ o. or_path o []) e)

abbrev no_env : List ℕ → List ℕ
no_env name = []

abbrev no_pieces : List ℕ → List Piece
no_pieces s = []

abbrev no_function : List ℕ → Option Expander
no_function name = none

read_file-ne-stuck_example :
    read_file
      (λ s. some s)
      open_two
      including
      (expand_env no_env false no_pieces no_boolean)
      not_empty
      no_function
      4
      false
      (98 ∷ [])
      (record { touched_files = none; include_stack = [] })
    ≢ stuck
read_file-ne-stuck_example =
    read_file-ne-stuck (λ s. some s) open_two including
      (expand_env no_env false no_pieces no_boolean) not_empty no_function two_files only_two
      never_empty (expand_env-Keeps no_env false no_pieces no_boolean)
      (λ name f e. absurd (ground (arith, e))) false (98 ∷ [])
      (record { touched_files = none; include_stack = [] })

-- {"a": {"b": [1, ["_env"]]}, "c": 7} where _env gives true.
abbrev always_true : List ℕ → Option Expander
always_true name = if same_key name env_name then some (λ args p. done (boolean true) p) else none

abbrev nested : Value → Fields
nested v =
    field_of (97 ∷ []) (object (field_of (98 ∷ []) v no_fields))
      (field_of (99 ∷ []) (number 7) no_fields)

abbrev idle : Parser
idle = record { touched_files = none; include_stack = [] }

abbrev one_and : Value → Value
one_and v = items (item (number 1) (item v no_items))

abbrev call_env : Value
call_env = items (item (text env_name) no_items)

nested_run :
    evaluate_expressions always_true false [] (nested (one_and call_env)) idle
    ≡ done (nested (one_and (boolean true))) idle
unfolding evaluate_expressions eval_value
nested_run = refl

evaluate_expressions-KeptFields_example :
    KeptFields always_true false (nested (one_and call_env)) (nested (one_and (boolean true)))
evaluate_expressions-KeptFields_example =
    evaluate_expressions-KeptFields always_true false [] (nested (one_and call_env))
      (nested (one_and (boolean true))) idle idle nested_run

-- "b" is {"x": ["_fileobj", "a"], "y": ["_fileobj", "a"]} and "a" is {}: there is no cycle.
abbrev file_a : Value
file_a = items (item (text fileobj_name) (item (text (97 ∷ [])) no_items))

abbrev include_twice : List ℕ → Option Fields
include_twice f =
    if same_key f (98 ∷ [])
    then some (field_of (120 ∷ []) file_a (field_of (121 ∷ []) file_a no_fields))
    else some no_fields

abbrev is_failed : Result Fields → Bool
is_failed (done m p) = false
is_failed (failed e p) = true
is_failed panics = false
is_failed stuck = false

twice_run :
    is_failed (
      read_file
        (λ s. some s)
        open_two
        include_twice
        (expand_env no_env false no_pieces no_boolean)
        not_empty
        no_function
        4
        false
        (98 ∷ [])
        idle)
    ≡ true
unfolding read_file recursive_read_json read_json evaluate_expressions eval_value named_expander
    expand_file read_absolute read_touched read_opened read_decoded
twice_run = refl
