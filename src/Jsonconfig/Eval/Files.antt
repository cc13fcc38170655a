-- ===== src/Jsonconfig/Eval/Files.antt =====
-- jsonconfig/eval.go: evaluating the expressions of a configuration, and reading the files that it
-- includes.
pub mod Ends
pub mod Forms
pub mod Evaluated
pub mod Reads
use go.Common.{
  ℕ, zero, suc, ◌+◌, Bool, true, false, not, ◌&&◌, List, [], ◌∷◌, ◌++◌, Option, none, some,
  if◌then◌else◌,
}
use go.Jsonconfig.{
  Value, null, boolean, number, text, items, object, Items, no_items, item, Fields, no_fields,
  field_of, same_key,
}
use go.Jsonconfig.Validate.{contains}
use go.Jsonconfig.Eval.{
  EvalErr, no_absolute_path, include_cycle, cannot_open, bad_json, empty_path, not_exist, file_args,
  included_from, value_error, in_file, Parser, Result, done, failed, panics, stuck, bind, wrap,
  count, Expander,
}

abbrev pub run_or : Option Expander → Items → Parser → Result Value → Result Value
run_or none args p otherwise = otherwise
run_or (some expander) args p otherwise = expander args p

abbrev pub as_items : Items → Parser → Result Value
as_items xs p = done (items xs) p

-- evalValue, with namedExpander as a parameter. A list without a first element panics.
module _ (expander : List ℕ → Option Expander) where
  unfoldable mutual
    pub eval_value : Value → Parser → Result Value
    eval_value null p = done null p
    eval_value (boolean b) p = done (boolean b) p
    eval_value (number n) p = done (number n) p
    eval_value (text s) p = done (text s) p
    eval_value (object m) p = done (object m) p
    eval_value (items xs) p = eval_list xs p

    pub eval_list : Items → Parser → Result Value
    eval_list no_items p = panics
    eval_list (item (text name) rest) p =
        run_or (expander name) rest p
          (bind (eval_items rest p) (λ evaled q. as_items (item (text name) evaled) q))
    eval_list (item null rest) p =
        bind (eval_items rest p) (λ evaled q. as_items (item null evaled) q)
    eval_list (item (boolean b) rest) p =
        bind (eval_items rest p) (λ evaled q. as_items (item (boolean b) evaled) q)
    eval_list (item (number n) rest) p =
        bind (eval_items rest p) (λ evaled q. as_items (item (number n) evaled) q)
    eval_list (item (object m) rest) p =
        bind (eval_items rest p) (λ evaled q. as_items (item (object m) evaled) q)
    eval_list (item (items xs) rest) p =
        bind (eval_list xs p)
          (λ v q. bind (eval_items rest q) (λ evaled t. as_items (item v evaled) t))

    -- The loop over the elements.
    pub eval_items : Items → Parser → Result Items
    eval_items no_items p = done no_items p
    eval_items (item v rest) p =
        bind (eval_value v p) (λ w q. bind (eval_items rest q) (λ evaled t. done (item w evaled) t))

  -- What the map has under the key afterwards: with testOnly the list itself, whose elements
  -- evalValue has replaced unless it is an expression.
  abbrev pub is_some : Option Expander → Bool
  is_some none = false
  is_some (some f) = true

  abbrev pub is_expression : Items → Bool
  is_expression (item (text name) rest) = is_some (expander name)
  is_expression xs = false

  abbrev pub stored : Bool → Items → Value → Value
  stored test_only xs v = if test_only && is_expression xs then items xs else v

  unfoldable mutual
    unfolding eval_value

    pub evaluate_expressions : Bool → List (List ℕ) → Fields → Parser → Result Fields
    evaluate_expressions test_only seen no_fields p = done no_fields p
    evaluate_expressions test_only seen (field_of k v rest) p =
        bind (evaluate_field test_only (seen ++ (k ∷ [])) v p) (λ w q.
          bind (evaluate_expressions test_only seen rest q) (λ fs t. done (field_of k w fs) t))

    pub evaluate_field : Bool → List (List ℕ) → Value → Parser → Result Value
    evaluate_field test_only path null p = done null p
    evaluate_field test_only path (boolean b) p = done (boolean b) p
    evaluate_field test_only path (number n) p = done (number n) p
    evaluate_field test_only path (text s) p = done (text s) p
    evaluate_field test_only path (items no_items) p = done (items no_items) p
    evaluate_field test_only path (items (item v rest)) p =
        bind (wrap (value_error path) (eval_list (item v rest) p))
          (λ w q. done (stored test_only (item v rest) w) q)
    evaluate_field test_only path (object m) p =
        bind (evaluate_expressions test_only path m p) (λ fs q. done (object fs) q)

-- os.Stat succeeds, filepath.IsAbs and filepath.Join.
module _ (exists : List ℕ → Bool) (is_abs : List ℕ → Bool)
    (path_join : List ℕ → List ℕ → List ℕ) where
  unfoldable pub in_include_dirs : List (List ℕ) → List ℕ → Option (List ℕ)
  in_include_dirs [] file = none
  in_include_dirs (d ∷ dirs) file =
      let later = in_include_dirs dirs file in
      if exists (path_join d file) then some (path_join d file) else later

  unfoldable pub config_file_path : List (List ℕ) → List ℕ → Option (List ℕ)
  unfolding in_include_dirs
  config_file_path dirs file =
      if exists file then some file else if is_abs file then none else in_include_dirs dirs file

-- c.includeStack.Last() for the text of the error panics on an empty stack.
abbrev pub included_at : List (List ℕ) → EvalErr → Parser → Result Value
included_at [] e p = panics
included_at (path ∷ stack) e p = failed (included_from path e) p

abbrev pub included : Result Fields → Result Value
included (done m p) = done (object m) p
included panics = panics
included stuck = stuck
included (failed e p) = included_at (p.include_stack) e p

-- expandFile, where find is ConfigFilePath and read is recursiveReadJSON.
module _ (find : List ℕ → Option (List ℕ)) (read : List ℕ → Parser → Result Fields) where
  abbrev pub expand_path : Option (List ℕ) → Parser → Result Value
  expand_path none p = failed not_exist p
  expand_path (some path) p = included (read path p)

  unfoldable pub expand_file : Expander
  expand_file (item (text file) no_items) p = expand_path (find file) p
  expand_file (item v no_items) p = panics
  expand_file args p = failed (file_args (count args)) p

-- touchedFiles[path] = true panics where the map is nil.
abbrev pub touch_in : Option (List (List ℕ)) → List ℕ → Parser → Option Parser
touch_in none path p = none
touch_in (some touched) path p =
    some record { touched_files = some (path ∷ touched); include_stack = path ∷ p.include_stack }

abbrev pub touches : Option (List (List ℕ)) → List ℕ → Bool
touches none path = false
touches (some touched) path = contains touched path

-- The deferred Pop.
abbrev pub tail_of : List (List ℕ) → List (List ℕ)
tail_of [] = []
tail_of (path ∷ stack) = stack

abbrev pub popped : Parser → Parser
popped p = record { touched_files = p.touched_files; include_stack = tail_of (p.include_stack) }

abbrev pub with_pop : Result Fields → Result Fields
with_pop (done a p) = done a (popped p)
with_pop (failed e p) = failed e (popped p)
with_pop panics = panics
with_pop stuck = stuck

-- "_env" and "_fileobj".
abbrev pub env_name : List ℕ
env_name = 95 ∷ 101 ∷ 110 ∷ 118 ∷ []

abbrev pub fileobj_name : List ℕ
fileobj_name = 95 ∷ 102 ∷ 105 ∷ 108 ∷ 101 ∷ 111 ∷ 98 ∷ 106 ∷ []

-- What reading uses from outside: filepath.Abs, c.open and the JSON decoder, the expander of _env,
-- ConfigFilePath and the functions that are registered.
module _ {File : Type 0} (abs : List ℕ → Option (List ℕ)) (open_file : List ℕ → Option File)
    (decode : File → Option Fields) (expand_env_with : Expander) (find : List ℕ → Option (List ℕ))
    (registered : List ℕ → Option Expander) where
  unfoldable pub named_expander : (List ℕ → Parser → Result Fields) → List ℕ → Option Expander
  unfolding expand_file
  named_expander read name =
      if same_key name env_name
      then some expand_env_with
      else if same_key name fileobj_name
      then some (expand_file find read)
      else registered name

  unfoldable pub read_decoded :
      (List ℕ → Parser → Result Fields) → List ℕ → Option Fields → Parser → Result Fields
  unfolding evaluate_expressions named_expander
  read_decoded read path none p = failed (bad_json path) p
  read_decoded read path (some m) p =
      wrap (in_file path) (evaluate_expressions (named_expander read) false [] m p)

  unfoldable pub read_opened :
      (List ℕ → Parser → Result Fields) → List ℕ → Option File → Parser → Result Fields
  unfolding read_decoded
  read_opened read path none p = failed (cannot_open path) p
  read_opened read path (some f) p = read_decoded read path (decode f) p

  unfoldable pub read_touched :
      (List ℕ → Parser → Result Fields) → List ℕ → Option Parser → Result Fields
  unfolding read_opened
  read_touched read path none = panics
  read_touched read path (some p) = with_pop (read_opened read path (open_file path) p)

  unfoldable pub read_absolute :
      (List ℕ → Parser → Result Fields) → List ℕ → Option (List ℕ) → Parser → Result Fields
  unfolding read_touched
  read_absolute read path none p = failed (no_absolute_path path) p
  read_absolute read path (some a) p =
      if touches (p.touched_files) a
      then failed (include_cycle a) p
      else read_touched read path (touch_in (p.touched_files) a p)

  -- One level of recursiveReadJSON.
  unfoldable pub read_json : (List ℕ → Parser → Result Fields) → List ℕ → Parser → Result Fields
  unfolding read_absolute
  read_json read [] p = read_opened read [] (open_file []) p
  read_json read (b ∷ path) p = read_absolute read (b ∷ path) (abs (b ∷ path)) p

  -- The fuel is the depth of the includes.
  unfoldable pub recursive_read_json : ℕ → List ℕ → Parser → Result Fields
  unfolding read_json
  recursive_read_json zero path p = stuck
  recursive_read_json (suc fuel) path p = read_json (λ q s. recursive_read_json fuel q s) path p

  -- ReadFile, with whether the Open hook is set.
  unfoldable pub read_file : ℕ → Bool → List ℕ → Parser → Result Fields
  unfolding recursive_read_json
  read_file fuel has_hook path p =
      if same_key path [] && not has_hook
      then failed empty_path p
      else recursive_read_json fuel path
          record { touched_files = some []; include_stack = p.include_stack }

  -- CheckTypes.
  unfoldable pub check_types : ℕ → Fields → Parser → Result Fields
  unfolding recursive_read_json evaluate_expressions named_expander
  check_types fuel m p =
      evaluate_expressions (named_expander (recursive_read_json fuel)) true [] m p
