-- ===== src/Jsonconfig/Eval/Env.antt =====
-- jsonconfig/eval.go: the expander of _env ends and leaves the parser as it is.
use go.Common.{ℕ, refl, Bool, List, [], ◌∷◌, Option, none, some}
use go.Jsonconfig.{null, boolean, number, text, items, object, Items, no_items, item}
use go.Jsonconfig.Eval.{Parser}
use go.Jsonconfig.Eval.{Piece, env_result, parsed, boolean_or, expand_env}
use go.Jsonconfig.Eval.Files.Ends.{Keeps}

module _ (getenv : List ℕ → List ℕ) (is_windows : Bool) (find_variables : List ℕ → List Piece)
    (parse_bool : List ℕ → Option Bool) where
  result-Keeps :
      (o : Option (List ℕ)) (s : List ℕ) (p : Parser)
      → Keeps p (env_result getenv is_windows find_variables parse_bool o s p)
  result-Keeps none s p = refl
  result-Keeps (some name) s p = tt

  parsed-Keeps :
      (o : Option Bool) (p : Parser)
      → Keeps p (parsed getenv is_windows find_variables parse_bool o p)
  parsed-Keeps none p = tt
  parsed-Keeps (some b) p = refl

  boolean-Keeps :
      (b : Bool) (s : List ℕ) (p : Parser)
      → Keeps p (boolean_or getenv is_windows find_variables parse_bool b s p)
  boolean-Keeps b [] p = refl
  boolean-Keeps b (c ∷ s) p = parsed-Keeps (parse_bool (c ∷ s)) p

  pub expand_env-Keeps :
      (args : Items) (p : Parser)
      → Keeps p (expand_env getenv is_windows find_variables parse_bool args p)
  unfolding expand_env
  expand_env-Keeps no_items p = tt
  expand_env-Keeps (item (text s) no_items) p = result-Keeps _ _ p
  expand_env-Keeps (item (text s) (item (text def) no_items)) p = result-Keeps _ _ p
  expand_env-Keeps (item (text s) (item (boolean b) no_items)) p = boolean-Keeps b _ p
  expand_env-Keeps (item (text s) (item null no_items)) p = tt
  expand_env-Keeps (item (text s) (item (number n) no_items)) p = tt
  expand_env-Keeps (item (text s) (item (items n) no_items)) p = tt
  expand_env-Keeps (item (text s) (item (object n) no_items)) p = tt
  expand_env-Keeps (item null no_items) p = tt
  expand_env-Keeps (item (boolean b) no_items) p = tt
  expand_env-Keeps (item (number b) no_items) p = tt
  expand_env-Keeps (item (items b) no_items) p = tt
  expand_env-Keeps (item (object b) no_items) p = tt
  expand_env-Keeps (item null (item null no_items)) p = tt
  expand_env-Keeps (item null (item (boolean c) no_items)) p = tt
  expand_env-Keeps (item null (item (number c) no_items)) p = tt
  expand_env-Keeps (item null (item (text c) no_items)) p = tt
  expand_env-Keeps (item null (item (items c) no_items)) p = tt
  expand_env-Keeps (item null (item (object c) no_items)) p = tt
  expand_env-Keeps (item (boolean b) (item null no_items)) p = tt
  expand_env-Keeps (item (boolean b) (item (boolean c) no_items)) p = tt
  expand_env-Keeps (item (boolean b) (item (number c) no_items)) p = tt
  expand_env-Keeps (item (boolean b) (item (text c) no_items)) p = tt
  expand_env-Keeps (item (boolean b) (item (items c) no_items)) p = tt
  expand_env-Keeps (item (boolean b) (item (object c) no_items)) p = tt
  expand_env-Keeps (item (number b) (item null no_items)) p = tt
  expand_env-Keeps (item (number b) (item (boolean c) no_items)) p = tt
  expand_env-Keeps (item (number b) (item (number c) no_items)) p = tt
  expand_env-Keeps (item (number b) (item (text c) no_items)) p = tt
  expand_env-Keeps (item (number b) (item (items c) no_items)) p = tt
  expand_env-Keeps (item (number b) (item (object c) no_items)) p = tt
  expand_env-Keeps (item (items b) (item null no_items)) p = tt
  expand_env-Keeps (item (items b) (item (boolean c) no_items)) p = tt
  expand_env-Keeps (item (items b) (item (number c) no_items)) p = tt
  expand_env-Keeps (item (items b) (item (text c) no_items)) p = tt
  expand_env-Keeps (item (items b) (item (items c) no_items)) p = tt
  expand_env-Keeps (item (items b) (item (object c) no_items)) p = tt
  expand_env-Keeps (item (object b) (item null no_items)) p = tt
  expand_env-Keeps (item (object b) (item (boolean c) no_items)) p = tt
  expand_env-Keeps (item (object b) (item (number c) no_items)) p = tt
  expand_env-Keeps (item (object b) (item (text c) no_items)) p = tt
  expand_env-Keeps (item (object b) (item (items c) no_items)) p = tt
  expand_env-Keeps (item (object b) (item (object c) no_items)) p = tt
  expand_env-Keeps (item null (item null (item d rest))) p = tt
  expand_env-Keeps (item null (item (boolean c) (item d rest))) p = tt
  expand_env-Keeps (item null (item (number c) (item d rest))) p = tt
  expand_env-Keeps (item null (item (text c) (item d rest))) p = tt
  expand_env-Keeps (item null (item (items c) (item d rest))) p = tt
  expand_env-Keeps (item null (item (object c) (item d rest))) p = tt
  expand_env-Keeps (item (boolean b) (item null (item d rest))) p = tt
  expand_env-Keeps (item (boolean b) (item (boolean c) (item d rest))) p = tt
  expand_env-Keeps (item (boolean b) (item (number c) (item d rest))) p = tt
  expand_env-Keeps (item (boolean b) (item (text c) (item d rest))) p = tt
  expand_env-Keeps (item (boolean b) (item (items c) (item d rest))) p = tt
  expand_env-Keeps (item (boolean b) (item (object c) (item d rest))) p = tt
  expand_env-Keeps (item (number b) (item null (item d rest))) p = tt
  expand_env-Keeps (item (number b) (item (boolean c) (item d rest))) p = tt
  expand_env-Keeps (item (number b) (item (number c) (item d rest))) p = tt
  expand_env-Keeps (item (number b) (item (text c) (item d rest))) p = tt
  expand_env-Keeps (item (number b) (item (items c) (item d rest))) p = tt
  expand_env-Keeps (item (number b) (item (object c) (item d rest))) p = tt
  expand_env-Keeps (item (items b) (item null (item d rest))) p = tt
  expand_env-Keeps (item (items b) (item (boolean c) (item d rest))) p = tt
  expand_env-Keeps (item (items b) (item (number c) (item d rest))) p = tt
  expand_env-Keeps (item (items b) (item (text c) (item d rest))) p = tt
  expand_env-Keeps (item (items b) (item (items c) (item d rest))) p = tt
  expand_env-Keeps (item (items b) (item (object c) (item d rest))) p = tt
  expand_env-Keeps (item (object b) (item null (item d rest))) p = tt
  expand_env-Keeps (item (object b) (item (boolean c) (item d rest))) p = tt
  expand_env-Keeps (item (object b) (item (number c) (item d rest))) p = tt
  expand_env-Keeps (item (object b) (item (text c) (item d rest))) p = tt
  expand_env-Keeps (item (object b) (item (items c) (item d rest))) p = tt
  expand_env-Keeps (item (object b) (item (object c) (item d rest))) p = tt
  expand_env-Keeps (item (text b) (item null (item d rest))) p = tt
  expand_env-Keeps (item (text b) (item (boolean c) (item d rest))) p = tt
  expand_env-Keeps (item (text b) (item (number c) (item d rest))) p = tt
  expand_env-Keeps (item (text b) (item (text c) (item d rest))) p = tt
  expand_env-Keeps (item (text b) (item (items c) (item d rest))) p = tt
  expand_env-Keeps (item (text b) (item (object c) (item d rest))) p = tt
