-- ===== src/Jsonconfig/Eval/Files/Evaluated.antt =====
-- jsonconfig/eval.go: evaluating an object makes of it what the relation says.
use go.Common.{
  ℕ, ◌≡◌, refl, subst, Bool, true, false, arith, inl, inr, ◌⊎◌, List, [], ◌∷◌, ◌++◌, Option, none,
  some, Option-cases,
}
use go.Jsonconfig.{
  Value, null, boolean, number, text, items, object, Items, no_items, item, Fields, no_fields,
  field_of,
}
use go.Jsonconfig.Eval.{
  EvalErr, value_error, Parser, Result, done, failed, panics, stuck, bind, wrap, Expander,
}
use go.Jsonconfig.Eval.Files.{
  run_or, as_items, is_expression, eval_value, eval_list, eval_items, stored, evaluate_expressions,
  evaluate_field,
}
use go.Jsonconfig.Eval.Files.Forms.{
  Calls, IsValue, is_null, is_boolean, is_number, is_text, is_object, is_list, ListValue, expanded,
  itemwise, ItemsValue, no_more, one_more, KeptValue, kept_null, kept_boolean, kept_number,
  kept_text, kept_empty, kept_list, kept_tested, kept_object, KeptFields, kept_nil, kept_cons,
}

-- What holds of a value where a method gives one.
abbrev OnDone : {A : Type 0} → (A → Type 0) → Result A → Type 0
OnDone P (done a p) = P a
OnDone P (failed e p) = Unit
OnDone P panics = Unit
OnDone P stuck = Unit

OnDone-bind :
    {A B : Type 0}
    → (P : A → Type 0) (Q : B → Type 0) (r : Result A) (f : A → Parser → Result B) → OnDone P r
    → ((a : A) (p : Parser) → P a → OnDone Q (f a p))
    → OnDone Q (bind r f)
OnDone-bind P Q (done a p) f h g = g a p h
OnDone-bind P Q (failed e p) f h g = tt
OnDone-bind P Q panics f h g = tt
OnDone-bind P Q stuck f h g = tt

OnDone_map :
    {A : Type 0}
    → (P Q : A → Type 0) (r : Result A) → ((a : A) → P a → Q a)
    → OnDone P r
    → OnDone Q r
OnDone_map P Q (done a p) f h = f a h
OnDone_map P Q (failed e p) f h = tt
OnDone_map P Q panics f h = tt
OnDone_map P Q stuck f h = tt

OnDone-wrap :
    {A : Type 0}
    → (P : A → Type 0) (f : EvalErr → EvalErr) (r : Result A) → OnDone P r
    → OnDone P (wrap f r)
OnDone-wrap P f (done a p) h = h
OnDone-wrap P f (failed e p) h = tt
OnDone-wrap P f panics h = tt
OnDone-wrap P f stuck h = tt

module _ (expander : List ℕ → Option Expander) where
  plain :
      (v : Value) (rest : Items) (p : Parser)
      → ¬ Calls expander (item v rest)
      → OnDone (IsValue expander v) (eval_value expander v p)
      → ((q : Parser) → OnDone (ItemsValue expander rest) (eval_items expander rest q))
      → OnDone (ListValue expander (item v rest)) (
          bind
            (eval_value expander v p)
            (λ w q. bind (eval_items expander rest q) (λ ws t. as_items (item w ws) t)))
  plain v rest p no_call first more =
      OnDone-bind (IsValue expander v) (ListValue expander (item v rest)) (eval_value expander v p)
        (λ w q. bind (eval_items expander rest q) (λ ws t. as_items (item w ws) t)) first
        (λ w q is_w.
          OnDone-bind (ItemsValue expander rest) (ListValue expander (item v rest))
            (eval_items expander rest q) (λ ws t. as_items (item w ws) t) (more q)
            (λ ws t is_ws. itemwise v w rest ws no_call is_w is_ws))

  called :
      (name : List ℕ) (rest : Items) (p : Parser) (otherwise : Result Value)
      → (expander name ≡ none → OnDone (ListValue expander (item (text name) rest)) otherwise)
      → OnDone
          (ListValue expander (item (text name) rest))
          (run_or (expander name) rest p otherwise)
  called name rest p otherwise plainly = elim (Option-cases (expander name)) [
    | inl e ↦ rw e (plainly e)
    | inr (f, e) ↦ rw e (given f e (f rest p) refl)
  ]
    where
      given :
          (f : Expander)
          → expander name ≡ some f
          → (r : Result Value) → f rest p ≡ r
          → OnDone (ListValue expander (item (text name) rest)) r
      given f e (done w q) g = expanded name rest f p q w e g
      given f e (failed x q) g = tt
      given f e panics g = tt
      given f e stuck g = tt

  no_call :
      (name : List ℕ) (rest : Items)
      → expander name ≡ none
      → ¬ Calls expander (item (text name) rest)
  no_call name rest e (f, g) = ground (arith, e, g)

  mutual
    unfolding eval_value

    value-OnDone : (v : Value) (p : Parser) → OnDone (IsValue expander v) (eval_value expander v p)
    value-OnDone null p = is_null
    value-OnDone (boolean b) p = is_boolean b
    value-OnDone (number n) p = is_number n
    value-OnDone (text s) p = is_text s
    value-OnDone (object m) p = is_object m
    value-OnDone (items xs) p =
        OnDone_map (ListValue expander xs) (IsValue expander (items xs)) (eval_list expander xs p)
          (λ w. is_list xs w) (list-OnDone xs p)

    list-OnDone :
        (xs : Items) (p : Parser) → OnDone (ListValue expander xs) (eval_list expander xs p)
    list-OnDone no_items p = tt
    list-OnDone (item (text name) rest) p = called name rest p _ (λ e.
        plain (text name) rest p (no_call name rest e) (is_text name) (λ q. items-OnDone rest q))
    list-OnDone (item null rest) p = plain null rest p (λ c. c) is_null (λ q. items-OnDone rest q)
    list-OnDone (item (boolean b) rest) p =
        plain (boolean b) rest p (λ c. c) (is_boolean b) (λ q. items-OnDone rest q)
    list-OnDone (item (number n) rest) p =
        plain (number n) rest p (λ c. c) (is_number n) (λ q. items-OnDone rest q)
    list-OnDone (item (object m) rest) p =
        plain (object m) rest p (λ c. c) (is_object m) (λ q. items-OnDone rest q)
    list-OnDone (item (items xs) rest) p =
        plain (items xs) rest p (λ c. c)
          (OnDone_map (ListValue expander xs) (IsValue expander (items xs))
            (eval_list expander xs p) (λ w. is_list xs w) (list-OnDone xs p))
          (λ q. items-OnDone rest q)

    items-OnDone :
        (xs : Items) (p : Parser) → OnDone (ItemsValue expander xs) (eval_items expander xs p)
    items-OnDone no_items p = no_more
    items-OnDone (item v rest) p =
        OnDone-bind (IsValue expander v) (ItemsValue expander (item v rest))
          (eval_value expander v p)
          (λ w q. bind (eval_items expander rest q) (λ ws t. done (item w ws) t)) (value-OnDone v p)
          (λ w q is_w.
            OnDone-bind (ItemsValue expander rest) (ItemsValue expander (item v rest))
              (eval_items expander rest q) (λ ws t. done (item w ws) t) (items-OnDone rest q)
              (λ ws t is_ws. one_more v w rest ws is_w is_ws))

  call_or_not :
      (xs : Items)
      → ((is_expression expander xs ≡ true) × Calls expander xs)
        ⊎ ((is_expression expander xs ≡ false) × (¬ Calls expander xs))
  call_or_not no_items = inr (refl, λ c. c)
  call_or_not (item null rest) = inr (refl, λ c. c)
  call_or_not (item (boolean b) rest) = inr (refl, λ c. c)
  call_or_not (item (number n) rest) = inr (refl, λ c. c)
  call_or_not (item (object m) rest) = inr (refl, λ c. c)
  call_or_not (item (items xs) rest) = inr (refl, λ c. c)
  call_or_not (item (text name) rest) = elim (Option-cases (expander name)) [
    | inl e ↦ inr (rw e refl, no_call name rest e)
    | inr (f, e) ↦ inl (rw e refl, (f, e))
  ]

  stored-KeptValue :
      (test_only : Bool) (xs : Items) (w : Value)
      → ListValue expander xs w
      → KeptValue expander test_only (items xs) (stored expander test_only xs w)
  stored-KeptValue false xs w h = kept_list xs w h (inl refl)
  stored-KeptValue true xs w h = elim (call_or_not xs) [
    | inl (e, calls) ↦ rw e (kept_tested xs w h refl calls)
    | inr (e, not_called) ↦ rw e (kept_list xs w h (inr not_called))
  ]

  mutual
    unfolding evaluate_expressions

    fields-OnDone :
        (test_only : Bool) (seen : List (List ℕ)) (m : Fields) (p : Parser)
        → OnDone
            (KeptFields expander test_only m)
            (evaluate_expressions expander test_only seen m p)
    fields-OnDone test_only seen no_fields p = kept_nil
    fields-OnDone test_only seen (field_of k v rest) p =
        OnDone-bind (KeptValue expander test_only v)
          (KeptFields expander test_only (field_of k v rest)) _
          (λ w q.
            bind (evaluate_expressions expander test_only seen rest q)
              (λ fs t. done (field_of k w fs) t))
          (field-OnDone test_only (seen ++ (k ∷ [])) v p)
          (λ w q kept.
            OnDone-bind (KeptFields expander test_only rest)
              (KeptFields expander test_only (field_of k v rest)) _
              (λ fs t. done (field_of k w fs) t) (fields-OnDone test_only seen rest q)
              (λ fs t more. kept_cons k v w rest fs kept more))

    field-OnDone :
        (test_only : Bool) (path : List (List ℕ)) (v : Value) (p : Parser)
        → OnDone (KeptValue expander test_only v) (evaluate_field expander test_only path v p)
    field-OnDone test_only path null p = kept_null
    field-OnDone test_only path (boolean b) p = kept_boolean b
    field-OnDone test_only path (number n) p = kept_number n
    field-OnDone test_only path (text s) p = kept_text s
    field-OnDone test_only path (items no_items) p = kept_empty
    field-OnDone test_only path (items (item v rest)) p =
        OnDone-bind (ListValue expander (item v rest))
          (KeptValue expander test_only (items (item v rest))) _
          (λ w q. done (stored expander test_only (item v rest) w) q)
          (OnDone-wrap (ListValue expander (item v rest)) (value_error path)
            (eval_list expander (item v rest) p) (list-OnDone (item v rest) p))
          (λ w q h. stored-KeptValue test_only (item v rest) w h)
    field-OnDone test_only path (object m) p =
        OnDone-bind (KeptFields expander test_only m) (KeptValue expander test_only (object m)) _
          (λ fs q. done (object fs) q) (fields-OnDone test_only path m p)
          (λ fs q kept. kept_object m fs kept)

  -- Where the evaluation of an object succeeds, the object has the keys it had, in objects
  -- within it too. A value that is no list and no object is as before, and so is an empty list. A list
  -- that begins with the name of an expander becomes what that gives for the other items in some state
  -- of the parser, or with testOnly stays; any other list becomes that of its items, in which a
  -- list is evaluated in the same way and all else stays, objects included.
  pub evaluate_expressions-KeptFields :
      (test_only : Bool) (seen : List (List ℕ)) (m fs : Fields) (p q : Parser)
      → evaluate_expressions expander test_only seen m p ≡ done fs q
      → KeptFields expander test_only m fs
  evaluate_expressions-KeptFields test_only seen m fs p q e =
      subst (λ r. OnDone (KeptFields expander test_only m) r) e (fields-OnDone test_only seen m p)
