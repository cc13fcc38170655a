-- ===== src/Jsonconfig/Validate/Checked.antt =====
-- jsonconfig/jsonconfig.go: what Validate reports after any sequence of accessors.
use go.Common.{
  ℕ, ◌≡◌, ◌≢◌, refl, sym, ap, ap₂, ◌∙◌, arith, Bool, true, false, ◌||◌, List, [], ◌∷◌, ◌++◌, map,
  Option, none, some, All, append_assoc, append-nil, if◌then◌else◌,
}
use go.Jsonconfig.{
  null, boolean, number, text, items, object, ConfigErr, unknown_key, bad_boolean, bad_item, Slot,
  json, known, errors, Obj, get, known_keys, errors_key,
}
use go.Jsonconfig.Validate.Expected.{
  Request, asks_object, asks_string, asks_string_or_object, asks_bool, asks_int, asks_list, key_of,
  is_parsed, all_texts, expected, expected_all, strings_from_lem, Unasked, unknown_from-Unasked,
}
use go.Jsonconfig.Access.{
  parsed_boolean, access, object_answer, string_answer, string_or_object_answer, boolean_answer,
  int_answer, list_answer,
}
use go.Jsonconfig.Validate.Whole.{
  IsOwn, IsFresh, added, as_list, access_lem, get-fresh_known, get-fresh_errors, append_error-added,
}
use go.Jsonconfig.Validate.{
  unknown_keys, contains, unknown_from, append_unknown, joined, validate, validate_with,
  stored_errors,
}

abbrev pub only_object {ℓ} : {A : Type ℓ} → Option (Obj × A) → Option Obj
only_object none = none
only_object (some (jc, v)) = some jc

snoc-nil {ℓ} : {A : Type ℓ} (xs : List A) (x : A) → xs ++ (x ∷ []) ≢ []
snoc-nil [] x h = ground (arith, h)
snoc-nil (y ∷ xs) x h = ground (arith, h)

module _ (parse_bool : List ℕ → Option Bool) (to_int : ℕ → ℕ) where
  unfoldable pub perform : Request → Obj → Option Obj
  unfolding access list_answer
  perform (asks_object k optional) jc = only_object (access (object_answer k optional) jc k)
  perform (asks_string k default) jc = only_object (access (string_answer k default) jc k)
  perform (asks_string_or_object k required) jc =
      only_object (access (string_or_object_answer k required) jc k)
  perform (asks_bool k default) jc = only_object (access (boolean_answer parse_bool k default) jc k)
  perform (asks_int k default) jc = only_object (access (int_answer to_int k default) jc k)
  perform (asks_list k required) jc = only_object (access (list_answer k required) jc k)

  unfoldable pub perform_all : List Request → Option Obj → Option Obj
  unfolding perform
  perform_all rs none = none
  perform_all [] (some jc) = some jc
  perform_all (r ∷ rs) (some jc) = perform_all rs (perform r jc)

  -- The error of an accessor, for what stands under its key.
  unfoldable pub error_of : Request → Option Slot → Option ConfigErr
  unfolding list_answer
  error_of (asks_object k optional) s = (object_answer k optional s).err
  error_of (asks_string k default) s = (string_answer k default s).err
  error_of (asks_string_or_object k required) s = (string_or_object_answer k required s).err
  error_of (asks_bool k default) s = (boolean_answer parse_bool k default s).err
  error_of (asks_int k default) s = (int_answer to_int k default s).err
  error_of (asks_list k required) s = (list_answer k required s).err

  unfoldable pub errors_of : List Request → Obj → List ConfigErr
  unfolding error_of
  errors_of [] jc = []
  errors_of (r ∷ rs) jc = as_list (error_of r (get jc (key_of r))) ++ errors_of rs jc

  parsed_boolean_lem :
      (k : List ℕ) (p : Option Bool)
      → (parsed_boolean parse_bool k p).err ≡ (if is_parsed p then none else some (bad_boolean k))
  parsed_boolean_lem k none = refl
  parsed_boolean_lem k (some b) = refl

  error_of_lem : (r : Request) (s : Option Slot) → error_of r s ≡ expected parse_bool r s
  unfolding error_of
  error_of_lem (asks_object k true) none = refl
  error_of_lem (asks_object k false) none = refl
  error_of_lem (asks_object k o) (some (json null)) = refl
  error_of_lem (asks_object k o) (some (json (boolean b))) = refl
  error_of_lem (asks_object k o) (some (json (number f))) = refl
  error_of_lem (asks_object k o) (some (json (text t))) = refl
  error_of_lem (asks_object k o) (some (json (items eil))) = refl
  error_of_lem (asks_object k o) (some (json (object m))) = refl
  error_of_lem (asks_object k o) (some (known ks)) = refl
  error_of_lem (asks_object k o) (some (errors es)) = refl
  error_of_lem (asks_string k none) none = refl
  error_of_lem (asks_string k (some d)) none = refl
  error_of_lem (asks_string k o) (some (json null)) = refl
  error_of_lem (asks_string k o) (some (json (boolean b))) = refl
  error_of_lem (asks_string k o) (some (json (number f))) = refl
  error_of_lem (asks_string k o) (some (json (text t))) = refl
  error_of_lem (asks_string k o) (some (json (items eil))) = refl
  error_of_lem (asks_string k o) (some (json (object m))) = refl
  error_of_lem (asks_string k o) (some (known ks)) = refl
  error_of_lem (asks_string k o) (some (errors es)) = refl
  error_of_lem (asks_string_or_object k true) none = refl
  error_of_lem (asks_string_or_object k false) none = refl
  error_of_lem (asks_string_or_object k o) (some (json null)) = refl
  error_of_lem (asks_string_or_object k o) (some (json (boolean b))) = refl
  error_of_lem (asks_string_or_object k o) (some (json (number f))) = refl
  error_of_lem (asks_string_or_object k o) (some (json (text t))) = refl
  error_of_lem (asks_string_or_object k o) (some (json (items eil))) = refl
  error_of_lem (asks_string_or_object k o) (some (json (object m))) = refl
  error_of_lem (asks_string_or_object k o) (some (known ks)) = refl
  error_of_lem (asks_string_or_object k o) (some (errors es)) = refl
  error_of_lem (asks_bool k none) none = refl
  error_of_lem (asks_bool k (some d)) none = refl
  error_of_lem (asks_bool k o) (some (json null)) = refl
  error_of_lem (asks_bool k o) (some (json (boolean b))) = refl
  error_of_lem (asks_bool k o) (some (json (number f))) = refl
  error_of_lem (asks_bool k o) (some (json (text t))) = parsed_boolean_lem k (parse_bool t)
  error_of_lem (asks_bool k o) (some (json (items eil))) = refl
  error_of_lem (asks_bool k o) (some (json (object m))) = refl
  error_of_lem (asks_bool k o) (some (known ks)) = refl
  error_of_lem (asks_bool k o) (some (errors es)) = refl
  error_of_lem (asks_int k none) none = refl
  error_of_lem (asks_int k (some d)) none = refl
  error_of_lem (asks_int k o) (some (json null)) = refl
  error_of_lem (asks_int k o) (some (json (boolean b))) = refl
  error_of_lem (asks_int k o) (some (json (number f))) = refl
  error_of_lem (asks_int k o) (some (json (text t))) = refl
  error_of_lem (asks_int k o) (some (json (items eil))) = refl
  error_of_lem (asks_int k o) (some (json (object m))) = refl
  error_of_lem (asks_int k o) (some (known ks)) = refl
  error_of_lem (asks_int k o) (some (errors es)) = refl
  error_of_lem (asks_list k true) none = refl
  error_of_lem (asks_list k false) none = refl
  error_of_lem (asks_list k o) (some (json null)) = refl
  error_of_lem (asks_list k o) (some (json (boolean b))) = refl
  error_of_lem (asks_list k o) (some (json (number f))) = refl
  error_of_lem (asks_list k o) (some (json (text t))) = refl
  error_of_lem (asks_list k o) (some (json (items eil))) =
      strings_from_lem k 0 [] eil
      ∙ ap (λ n. if all_texts eil then none else some (bad_item k n)) (omega arith)
  error_of_lem (asks_list k o) (some (json (object m))) = refl
  error_of_lem (asks_list k o) (some (known ks)) = refl
  error_of_lem (asks_list k o) (some (errors es)) = refl

  errors_of_lem : (rs : List Request) (jc : Obj) → errors_of rs jc ≡ expected_all parse_bool rs jc
  unfolding errors_of
  errors_of_lem [] jc = refl
  errors_of_lem (r ∷ rs) jc =
      ap₂ (λ e es. as_list e ++ es) (error_of_lem r (get jc (key_of r))) (errors_of_lem rs jc)

  perform-added :
      (r : Request) (jc : Obj) (ks : List (List ℕ)) (es : List ConfigErr)
      → IsFresh jc
      → IsOwn (key_of r)
      → (ks ≡ [] → es ≡ [])
      → perform r (jc ++ added ks es)
        ≡ some
            (jc ++ added (ks ++ (key_of r ∷ [])) (es ++ as_list (error_of r (get jc (key_of r)))))
  unfolding perform error_of
  perform-added (asks_object k o) jc ks es h own late =
      ap only_object (access_lem (object_answer k o) jc ks es k h own late)
  perform-added (asks_string k o) jc ks es h own late =
      ap only_object (access_lem (string_answer k o) jc ks es k h own late)
  perform-added (asks_string_or_object k o) jc ks es h own late =
      ap only_object (access_lem (string_or_object_answer k o) jc ks es k h own late)
  perform-added (asks_bool k o) jc ks es h own late =
      ap only_object (access_lem (boolean_answer parse_bool k o) jc ks es k h own late)
  perform-added (asks_int k o) jc ks es h own late =
      ap only_object (access_lem (int_answer to_int k o) jc ks es k h own late)
  perform-added (asks_list k o) jc ks es h own late =
      ap only_object (access_lem (list_answer k o) jc ks es k h own late)

  perform_all-added :
      (rs : List Request) (jc : Obj) (ks : List (List ℕ)) (es : List ConfigErr)
      → IsFresh jc
      → All (λ r. IsOwn (key_of r)) rs
      → (ks ≡ [] → es ≡ [])
      → perform_all rs (some (jc ++ added ks es))
        ≡ some (jc ++ added (ks ++ map key_of rs) (es ++ errors_of rs jc))
  unfolding perform_all errors_of
  perform_all-added [] jc ks es h own late =
      ap₂ (λ a b. some (jc ++ added a b)) (sym (append-nil ks)) (sym (append-nil es))
  perform_all-added (r ∷ rs) jc ks es h own late =
      let new = as_list (error_of r (get jc (key_of r))) in
      ap (perform_all rs) (perform-added r jc ks es h own.0 late)
      ∙ (perform_all-added rs jc (ks ++ (key_of r ∷ [])) (es ++ new) h own.1
            (λ e. absurd (snoc-nil ks (key_of r) e))
          ∙ ap₂ (λ a b. some (jc ++ added a b)) (append_assoc ks (key_of r ∷ []) (map key_of rs))
              (append_assoc es new (errors_of rs jc)))

true_after : (b : Bool) → (b || true) ≡ true
true_after true = refl
true_after false = refl

unknown_from-added :
    (seen : List (List ℕ)) (jc : Obj) (ks : List (List ℕ)) (es : List ConfigErr)
    → unknown_from seen (jc ++ added ks es) ≡ unknown_from seen jc
unknown_from-added seen [] [] [] = refl
unknown_from-added seen [] [] (e ∷ es) = rw (true_after (contains seen errors_key)) refl
unknown_from-added seen [] (k ∷ ks) [] = rw (true_after (contains seen known_keys)) refl
unknown_from-added seen [] (k ∷ ks) (e ∷ es) =
    rw (true_after (contains seen known_keys), true_after (contains seen errors_key)) refl
unknown_from-added seen (e ∷ jc) ks es = rw (unknown_from-added seen jc ks es) refl

module _ (sort_strings : List (List ℕ) → List (List ℕ)) where
  unknown_keys-added :
      (jc : Obj) (ks : List (List ℕ)) (es : List ConfigErr)
      → IsFresh jc
      → unknown_keys sort_strings (jc ++ added ks es) ≡ some (sort_strings (unknown_from ks jc))
  unfolding unknown_keys
  unknown_keys-added jc [] [] h = rw (get-fresh_known jc [] h, unknown_from-added [] jc [] []) refl
  unknown_keys-added jc [] (e ∷ es) h =
      rw (get-fresh_known jc (added [] (e ∷ es)) h, unknown_from-added [] jc [] (e ∷ es)) refl
  unknown_keys-added jc (k ∷ ks) [] h =
      rw (get-fresh_known jc (added (k ∷ ks) []) h, unknown_from-added (k ∷ ks) jc (k ∷ ks) []) refl
  unknown_keys-added jc (k ∷ ks) (e ∷ es) h =
      rw
        (
          get-fresh_known jc (added (k ∷ ks) (e ∷ es)) h,
          unknown_from-added (k ∷ ks) jc (k ∷ ks) (e ∷ es),
        )
        refl

  append_unknown-added :
      (us : List (List ℕ)) (jc : Obj) (ks : List (List ℕ)) (es : List ConfigErr)
      → IsFresh jc
      → append_unknown sort_strings us (some (jc ++ added ks es))
        ≡ some (jc ++ added ks (es ++ map unknown_key us))
  unfolding append_unknown
  append_unknown-added [] jc ks es h = ap (λ b. some (jc ++ added ks b)) (sym (append-nil es))
  append_unknown-added (u ∷ us) jc ks es h =
      ap (append_unknown sort_strings us) (append_error-added jc ks es (unknown_key u) h)
      ∙ (append_unknown-added us jc ks (es ++ (unknown_key u ∷ [])) h
          ∙ ap (λ b. some (jc ++ added ks b))
              (append_assoc es (unknown_key u ∷ []) (map unknown_key us)))

  stored-added :
      (jc : Obj) (ks : List (List ℕ)) (es : List ConfigErr)
      → IsFresh jc
      → stored_errors sort_strings (some (jc ++ added ks es)) ≡ some (joined sort_strings es)
  stored-added jc [] [] h = rw (get-fresh_errors jc [] h) refl
  stored-added jc [] (e ∷ es) h = rw (get-fresh_errors jc (added [] (e ∷ es)) h) refl
  stored-added jc (k ∷ ks) [] h = rw (get-fresh_errors jc (added (k ∷ ks) []) h) refl
  stored-added jc (k ∷ ks) (e ∷ es) h = rw (get-fresh_errors jc (added (k ∷ ks) (e ∷ es)) h) refl

  validate-added :
      (jc : Obj) (ks : List (List ℕ)) (es : List ConfigErr)
      → IsFresh jc
      → validate sort_strings (jc ++ added ks es)
        ≡ some (joined sort_strings (es ++ map unknown_key (sort_strings (unknown_from ks jc))))
  unfolding validate validate_with
  validate-added jc ks es h =
      let us = sort_strings (unknown_from ks jc) in
      rw (unknown_keys-added jc ks es h, append_unknown-added us jc ks es h)
        (stored-added jc ks (es ++ map unknown_key us) h)

-- A program that asks for some keys and then calls Validate.
abbrev pub validated :
    (List (List ℕ) → List (List ℕ)) → Option Obj → Option (Option (List ConfigErr))
unfolding validate
validated sort_strings none = none
validated sort_strings (some jc) = validate sort_strings jc

unfoldable pub check :
    (List ℕ → Option Bool)
    → (ℕ → ℕ)
    → (List (List ℕ) → List (List ℕ))
    → List Request
    → Obj
    → Option (Option (List ConfigErr))
unfolding perform_all validated
check parse_bool to_int sort_strings rs jc =
    validated sort_strings (perform_all parse_bool to_int rs (some jc))

-- A program that asks a decoded object for keys and then validates it does not panic, and gets
-- exactly these errors, in the order of the calls: for each accessor, that its key is missing, where it
-- must be there, or that the value under it is not of the kind asked for, with the boolean that does not
-- parse and the first item of a list that is no string told apart; and then one for each key, in the
-- order of sort.Strings, that was not asked for and does not begin with an underscore.
-- Validate returns nil where there are none. Neither the object nor the program uses the keys that the
-- package stores its own data under.
pub check-errors_of :
    (parse_bool : List ℕ → Option Bool) (to_int : ℕ → ℕ)
    (sort_strings : List (List ℕ) → List (List ℕ)) (rs : List Request) (jc : Obj)
    → IsFresh jc
    → All (λ r. IsOwn (key_of r)) rs
    → (us : List (List ℕ)) × Unasked rs jc us
      × (check parse_bool to_int sort_strings rs jc
          ≡ some (
              joined sort_strings
                (expected_all parse_bool rs jc ++ map unknown_key (sort_strings us))))
unfolding check
check-errors_of parse_bool to_int sort_strings rs jc fresh own =
    let us = unknown_from (map key_of rs) jc in
    let asked = perform_all-added parse_bool to_int rs jc [] [] fresh own (λ e. refl) in
    (
      us,
      unknown_from-Unasked rs jc,
      ap (λ o. validated sort_strings (perform_all parse_bool to_int rs (some o)))
            {y = jc ++ added [] []} (sym (append-nil jc))
          ∙ ap (validated sort_strings) asked
          ∙ validate-added sort_strings jc (map key_of rs) (errors_of parse_bool to_int rs jc) fresh
          ∙ ap (λ es. some (joined sort_strings (es ++ map unknown_key (sort_strings us))))
              (errors_of_lem parse_bool to_int rs jc),
    )
