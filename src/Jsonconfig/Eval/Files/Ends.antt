-- ===== src/Jsonconfig/Eval/Files/Ends.antt =====
-- jsonconfig/eval.go: reading a configuration ends, whatever its files include.
use go.Common.{
  ℕ, ◌+◌, ◌≤◌, ◌≡◌, refl, Bool, true, false, List, [], ◌∷◌, ◌++◌, Option, none, some, if◌then◌else◌,
}
use go.Jsonconfig.{
  Value, null, boolean, number, text, items, object, Items, no_items, item, Fields, no_fields,
  field_of,
}
use go.Jsonconfig.Eval.{
  EvalErr, value_error, Parser, Result, done, failed, panics, stuck, bind, wrap, Expander,
}
use go.Jsonconfig.Eval.Files.{
  run_or, as_items, eval_value, eval_list, eval_items, stored, evaluate_expressions, evaluate_field,
  touches,
}

-- The files that are not touched yet.
unfoldable pub unread_in : List (List ℕ) → Option (List (List ℕ)) → ℕ
unread_in [] touched = 0
unread_in (a ∷ files) touched = (if touches touched a then 0 else 1) + unread_in files touched

-- Not stuck, and with at most n files unread where it goes on.
abbrev pub Within : {A : Type 0} → List (List ℕ) → ℕ → Result A → Type 0
Within files n (done a p) = unread_in files (p.touched_files) ≤ n
Within files n (failed e p) = Unit
Within files n panics = Unit
Within files n stuck = true ≡ false

-- An expander that neither touches files nor runs out of fuel.
abbrev pub Keeps : Parser → Result Value → Type 0
Keeps p (done v q) = q ≡ p
Keeps p (failed e q) = Unit
Keeps p panics = Unit
Keeps p stuck = true ≡ false

pub Within-bind :
    {A B : Type 0}
    → (files : List (List ℕ)) (n : ℕ) (r : Result A) (f : A → Parser → Result B) → Within files n r
    → ((a : A) (p : Parser) → unread_in files (p.touched_files) ≤ n → Within files n (f a p))
    → Within files n (bind r f)
Within-bind files n (done a p) f h g = g a p h
Within-bind files n (failed e p) f h g = tt
Within-bind files n panics f h g = tt
Within-bind files n stuck f h g = h

pub Within-wrap :
    {A : Type 0}
    → (files : List (List ℕ)) (n : ℕ) (w : EvalErr → EvalErr) (r : Result A) → Within files n r
    → Within files n (wrap w r)
Within-wrap files n w (done a p) h = h
Within-wrap files n w (failed e p) h = tt
Within-wrap files n w panics h = tt
Within-wrap files n w stuck h = h

pub Within-Keeps :
    (files : List (List ℕ)) (n : ℕ) (p : Parser) (r : Result Value)
    → unread_in files (p.touched_files) ≤ n
    → Keeps p r
    → Within files n r
Within-Keeps files n p (done v q) le h = rw h le
Within-Keeps files n p (failed e q) le h = tt
Within-Keeps files n p panics le h = tt
Within-Keeps files n p stuck le h = h

Within-run_or :
    (files : List (List ℕ)) (n : ℕ) (o : Option Expander) (args : Items) (p : Parser)
    (r : Result Value)
    → ((f : Expander) → o ≡ some f → Within files n (f args p))
    → Within files n r
    → Within files n (run_or o args p r)
Within-run_or files n none args p r h g = g
Within-run_or files n (some f) args p r h g = h f refl

module _ (files : List (List ℕ)) (n : ℕ) (expander : List ℕ → Option Expander) where
  -- Every expander stays within n unread files.
  abbrev pub AllWithin : Type 0
  AllWithin =
      (name : List ℕ) (f : Expander)
      → expander name ≡ some f
      → (args : Items) (p : Parser) → unread_in files (p.touched_files) ≤ n
      → Within files n (f args p)

  rebuilt :
      (v : Value) (r : Result Items)
      → Within files n r
      → Within files n (bind r (λ evaled q. as_items (item v evaled) q))
  rebuilt v r h = Within-bind files n r (λ evaled q. as_items (item v evaled) q) h (λ a p le. le)

  mutual
    unfolding eval_value

    pub eval_value-Within :
        (v : Value) (p : Parser)
        → AllWithin
        → unread_in files (p.touched_files) ≤ n
        → Within files n (eval_value expander v p)
    eval_value-Within null p h le = le
    eval_value-Within (boolean b) p h le = le
    eval_value-Within (number k) p h le = le
    eval_value-Within (text s) p h le = le
    eval_value-Within (object m) p h le = le
    eval_value-Within (items xs) p h le = eval_list-Within xs p h le

    eval_list-Within :
        (xs : Items) (p : Parser)
        → AllWithin
        → unread_in files (p.touched_files) ≤ n
        → Within files n (eval_list expander xs p)
    eval_list-Within no_items p h le = tt
    eval_list-Within (item (text name) rest) p h le =
        Within-run_or files n (expander name) rest p _ (λ f e. h name f e rest p le)
          (rebuilt (text name) _ (eval_items-Within rest p h le))
    eval_list-Within (item null rest) p h le = rebuilt null _ (eval_items-Within rest p h le)
    eval_list-Within (item (boolean b) rest) p h le =
        rebuilt (boolean b) _ (eval_items-Within rest p h le)
    eval_list-Within (item (number k) rest) p h le =
        rebuilt (number k) _ (eval_items-Within rest p h le)
    eval_list-Within (item (object m) rest) p h le =
        rebuilt (object m) _ (eval_items-Within rest p h le)
    eval_list-Within (item (items xs) rest) p h le =
        Within-bind files n _
          (λ v q. bind (eval_items expander rest q) (λ evaled t. as_items (item v evaled) t))
          (eval_list-Within xs p h le) (λ v q le'. rebuilt v _ (eval_items-Within rest q h le'))

    eval_items-Within :
        (xs : Items) (p : Parser)
        → AllWithin
        → unread_in files (p.touched_files) ≤ n
        → Within files n (eval_items expander xs p)
    eval_items-Within no_items p h le = le
    eval_items-Within (item v rest) p h le =
        Within-bind files n _
          (λ w q. bind (eval_items expander rest q) (λ evaled t. done (item w evaled) t))
          (eval_value-Within v p h le)
          (λ w q le'.
            Within-bind files n _ (λ evaled t. done (item w evaled) t)
              (eval_items-Within rest q h le') (λ evaled t le''. le''))

  mutual
    unfolding evaluate_expressions

    pub evaluate_expressions-Within :
        (test_only : Bool) (seen : List (List ℕ)) (m : Fields) (p : Parser)
        → AllWithin
        → unread_in files (p.touched_files) ≤ n
        → Within files n (evaluate_expressions expander test_only seen m p)
    evaluate_expressions-Within test_only seen no_fields p h le = le
    evaluate_expressions-Within test_only seen (field_of k v rest) p h le =
        Within-bind files n _
          (λ w q.
            bind (evaluate_expressions expander test_only seen rest q)
              (λ fs t. done (field_of k w fs) t))
          (evaluate_field-Within test_only (seen ++ (k ∷ [])) v p h le)
          (λ w q le'.
            Within-bind files n _ (λ fs t. done (field_of k w fs) t)
              (evaluate_expressions-Within test_only seen rest q h le') (λ fs t le''. le''))

    evaluate_field-Within :
        (test_only : Bool) (path : List (List ℕ)) (v : Value) (p : Parser)
        → AllWithin
        → unread_in files (p.touched_files) ≤ n
        → Within files n (evaluate_field expander test_only path v p)
    evaluate_field-Within test_only path null p h le = le
    evaluate_field-Within test_only path (boolean b) p h le = le
    evaluate_field-Within test_only path (number k) p h le = le
    evaluate_field-Within test_only path (text s) p h le = le
    evaluate_field-Within test_only path (items no_items) p h le = le
    evaluate_field-Within test_only path (items (item v rest)) p h le =
        Within-bind files n _ (λ w q. done (stored expander test_only (item v rest) w) q)
          (Within-wrap files n (value_error path) _ (eval_list-Within (item v rest) p h le))
          (λ w q le'. le')
    evaluate_field-Within test_only path (object m) p h le =
        Within-bind files n _ (λ fs q. done (object fs) q)
          (evaluate_expressions-Within test_only path m p h le) (λ fs q le'. le')
