-- ===== src/Jsonconfig/Eval.antt =====
-- jsonconfig/eval.go: ConfigParser, with the expressions _env and _fileobj. Decoding, the file
-- system, the environment, the regular expression and registered functions are parameters. A Go
-- map is walked in any order; here it is the order of the list of its fields.
pub mod Files
pub mod Env
use go.Common.{
  ℕ, suc, ◌+◌, Bool, not, ◌&&◌, ◌||◌, ltb, if◌then◌else◌, List, [], ◌∷◌, ◌++◌, Option, none, some,
  length,
}
use go.Jsonconfig.{Value, boolean, text, Items, no_items, item, same_key}
use go.Jsonconfig.Validate.{has_underscore}

pub data EvalErr : Type 0 where
  no_absolute_path include_cycle cannot_open bad_json : (path : List ℕ) → EvalErr
  empty_path not_exist env_not_string env_bad_default bad_boolean : EvalErr
  env_args file_args : (got : ℕ) → EvalErr
  env_unset : (name : List ℕ) → EvalErr
  registered_err : ℕ → EvalErr
  included_from : (path : List ℕ) → EvalErr → EvalErr
  value_error : (path : List (List ℕ)) → EvalErr → EvalErr
  in_file : (path : List ℕ) → EvalErr → EvalErr

-- touchedFiles, none for a nil map, and includeStack, its last element first.
pub record Parser : Type 0 where
  pub touched_files : Option (List (List ℕ))
  pub include_stack : List (List ℕ)

-- What a method gives; stuck is a lack of fuel.
pub data Result (A : Type 0) : Type 0 where
  done : A → Parser → Result A
  failed : EvalErr → Parser → Result A
  panics : Result A
  stuck : Result A

abbrev pub bind : {A B : Type 0} → Result A → (A → Parser → Result B) → Result B
bind (done a p) f = f a p
bind (failed e p) f = failed e p
bind panics f = panics
bind stuck f = stuck

abbrev pub wrap : {A : Type 0} → (EvalErr → EvalErr) → Result A → Result A
wrap f (done a p) = done a p
wrap f (failed e p) = failed (f e) p
wrap f panics = panics
wrap f stuck = stuck

-- The pieces of a string: text, and ${name} for a match of envPattern.
pub data Piece : Type 0 where
  plain : List ℕ → Piece
  variable : List ℕ → Piece

abbrev pub count : Items → ℕ
count no_items = 0
count (item v rest) = suc (count rest)

-- An expander: expanderFunc on its arguments.
abbrev pub Expander : Type 0
Expander = Items → Parser → Result Value

-- What a string expands to, and the last error.
pub record Expanded : Type 0 where
  pub value : List ℕ
  pub unset : Option (List ℕ)

module _ (getenv : List ℕ → List ℕ) (is_windows : Bool) (find_variables : List ℕ → List Piece)
    (parse_bool : List ℕ → Option Bool) where
  -- "USER" and "USERNAME".
  abbrev pub env_value : List ℕ → List ℕ
  env_value name =
      if same_key (getenv name) [] && (same_key name (85 ∷ 83 ∷ 69 ∷ 82 ∷ []) && is_windows)
      then getenv (85 ∷ 83 ∷ 69 ∷ 82 ∷ 78 ∷ 65 ∷ 77 ∷ 69 ∷ [])
      else getenv name

  abbrev pub or_later : List ℕ → Option (List ℕ) → Option (List ℕ)
  or_later name none = some name
  or_later name (some later) = some later

  abbrev pub one_variable : Option (List ℕ) → List ℕ → List ℕ → Expanded → Expanded
  one_variable (some d) name [] rest = record { value = d ++ rest.value; unset = rest.unset }
  one_variable none name [] rest = record { value = rest.value; unset = or_later name (rest.unset) }
  one_variable default name (b ∷ val) rest = record {
    value = b ∷ val ++ rest.value;
    unset = rest.unset;
  }

  unfoldable pub replace_all : Option (List ℕ) → List Piece → Expanded
  replace_all default [] = record { value = []; unset = none }
  replace_all default (plain s ∷ pieces) =
      let rest = replace_all default pieces in
      record { value = s ++ rest.value; unset = rest.unset }
  replace_all default (variable name ∷ pieces) =
      one_variable default name (env_value name) (replace_all default pieces)

  abbrev pub env_result : Option (List ℕ) → List ℕ → Parser → Result Value
  env_result none value p = done (text value) p
  env_result (some name) value p = failed (env_unset name) p

  abbrev pub parsed : Option Bool → Parser → Result Value
  parsed none p = failed bad_boolean p
  parsed (some b) p = done (boolean b) p

  -- A Boolean default is for an empty string.
  abbrev pub boolean_or : Bool → List ℕ → Parser → Result Value
  boolean_or b [] p = done (boolean b) p
  boolean_or b (c ∷ s) p = parsed (parse_bool (c ∷ s)) p

  unfoldable pub expand_env : Expander
  unfolding replace_all
  expand_env (item (text s) no_items) p =
      let expanded = replace_all none (find_variables s) in
      env_result (expanded.unset) (expanded.value) p
  expand_env (item (text s) (item (text def) no_items)) p =
      let expanded = replace_all (some def) (find_variables s) in
      env_result (expanded.unset) (expanded.value) p
  expand_env (item (text s) (item (boolean b) no_items)) p =
      boolean_or b ((replace_all (some []) (find_variables s)).value) p
  expand_env (item (text s) (item v no_items)) p = failed env_bad_default p
  expand_env (item v no_items) p = failed env_not_string p
  expand_env (item v (item w no_items)) p = failed env_not_string p
  expand_env args p = failed (env_args (count args)) p

-- RegisterFunc on regFunc, where none is a panic.
abbrev pub registered_as : {F : Type 0} → List (List ℕ × F) → List ℕ → Option F
registered_as [] name = none
registered_as ((n, f) ∷ table) name =
    let later = registered_as table name in if same_key n name then some f else later

abbrev pub without_dup :
    {F : Type 0} → List (List ℕ × F) → List ℕ → F → Option F → Option (List (List ℕ × F))
without_dup table name f none = some ((name, f) ∷ table)
without_dup table name f (some g) = none

unfoldable pub register_func :
    {F : Type 0} → List (List ℕ × F) → List ℕ → F → Option (List (List ℕ × F))
register_func table name f =
    if ltb (length name) 2 || not (has_underscore name)
    then none
    else without_dup table name f (registered_as table name)
