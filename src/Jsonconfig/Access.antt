-- ===== src/Jsonconfig/Access.antt =====
-- jsonconfig/jsonconfig.go: the accessors. Each notes its key, looks the key up, and then answers
-- with a value and at most one error, which it appends.
use go.Common.{ℕ, ◌+◌, Bool, true, false, List, [], ◌∷◌, ◌++◌, Option, none, some}
use go.Jsonconfig.{
  Value, null, boolean, number, text, items, object, Items, no_items, item, Fields, no_fields,
  ConfigErr, missing, wrong_type, bad_boolean, bad_item, Slot, json, Obj, get, note_known_key,
  append_error,
}

pub record Answer {ℓ} (A : Type ℓ) : Type ℓ where
  pub value : A
  pub err : Option ConfigErr

abbrev pub fine {ℓ} : {A : Type ℓ} → A → Answer A
fine v = record { value = v; err = none }

abbrev pub failing {ℓ} : {A : Type ℓ} → A → ConfigErr → Answer A
failing v e = record { value = v; err = some e }

abbrev pub with_value {ℓ} : {A : Type ℓ} → A → Option Obj → Option (Obj × A)
with_value v none = none
with_value v (some jc) = some (jc, v)

abbrev pub after_answer {ℓ} : {A : Type ℓ} → Obj → A → Option ConfigErr → Option (Obj × A)
unfolding append_error
after_answer jc v none = some (jc, v)
after_answer jc v (some e) = with_value v (append_error jc e)

abbrev pub after_note {ℓ} :
    {A : Type ℓ} → (Option Slot → Answer A) → List ℕ → Option Obj → Option (Obj × A)
unfolding after_answer
after_note answer k none = none
after_note answer k (some jc) =
    after_answer jc ((answer (get jc k)).value) ((answer (get jc k)).err)

-- none where the code panics.
unfoldable pub access {ℓ} :
    {A : Type ℓ} → (Option Slot → Answer A) → Obj → List ℕ → Option (Obj × A)
unfolding note_known_key after_note
access answer jc k = after_note answer k (note_known_key jc k)

-- obj
abbrev pub object_answer : List ℕ → Bool → Option Slot → Answer Fields
object_answer k true none = fine no_fields
object_answer k false none = failing no_fields (missing k)
object_answer k optional (some (json (object m))) = fine m
object_answer k optional (some s) = failing no_fields (wrong_type k)

-- What a default leaves to do where the key is missing.
abbrev pub or_missing {ℓ} : {A : Type ℓ} → List ℕ → A → Option A → Answer A
or_missing k zero_value none = failing zero_value (missing k)
or_missing k zero_value (some d) = fine d

-- string
abbrev pub string_answer : List ℕ → Option (List ℕ) → Option Slot → Answer (List ℕ)
string_answer k default none = or_missing k [] default
string_answer k default (some (json (text s))) = fine s
string_answer k default (some s) = failing [] (wrong_type k)

-- stringOrObject; nil is null.
abbrev pub string_or_object_answer : List ℕ → Bool → Option Slot → Answer Value
string_or_object_answer k false none = fine null
string_or_object_answer k true none = failing (text []) (missing k)
string_or_object_answer k required (some (json (object m))) = fine (object m)
string_or_object_answer k required (some (json (text s))) = fine (text s)
string_or_object_answer k required (some s) = failing (text []) (wrong_type k)

-- strconv.ParseBool gives none for its error, with the value false.
module _ (parse_bool : List ℕ → Option Bool) where
  abbrev pub parsed_boolean : List ℕ → Option Bool → Answer Bool
  parsed_boolean k none = failing false (bad_boolean k)
  parsed_boolean k (some b) = fine b

  -- bool
  abbrev pub boolean_answer : List ℕ → Option Bool → Option Slot → Answer Bool
  boolean_answer k default none = or_missing k false default
  boolean_answer k default (some (json (boolean b))) = fine b
  boolean_answer k default (some (json (text s))) = parsed_boolean k (parse_bool s)
  boolean_answer k default (some s) = failing false (wrong_type k)

-- int and int64; the conversion of a float64 is the platform's where the number is out of range.
module _ (to_int : ℕ → ℕ) where
  abbrev pub int_answer : List ℕ → Option ℕ → Option Slot → Answer ℕ
  int_answer k default none = or_missing k 0 default
  int_answer k default (some (json (number f))) = fine (to_int f)
  int_answer k default (some s) = failing 0 (wrong_type k)

-- The loop of requiredList, with the strings that come before.
unfoldable pub strings_from : List ℕ → ℕ → List (List ℕ) → Items → Answer (List (List ℕ))
strings_from k i sl no_items = fine sl
strings_from k i sl (item (text s) rest) = strings_from k (i + 1) (sl ++ (s ∷ [])) rest
strings_from k i sl (item v rest) = failing [] (bad_item k i)

-- requiredList
unfoldable pub list_answer : List ℕ → Bool → Option Slot → Answer (List (List ℕ))
unfolding strings_from
list_answer k true none = failing [] (missing k)
list_answer k false none = fine []
list_answer k required (some (json (items eil))) = strings_from k 0 [] eil
list_answer k required (some s) = failing [] (wrong_type k)

unfoldable pub required_object : Obj → List ℕ → Option (Obj × Fields)
unfolding access
required_object jc k = access (object_answer k false) jc k

unfoldable pub optional_object : Obj → List ℕ → Option (Obj × Fields)
unfolding access
optional_object jc k = access (object_answer k true) jc k

unfoldable pub required_string : Obj → List ℕ → Option (Obj × List ℕ)
unfolding access
required_string jc k = access (string_answer k none) jc k

unfoldable pub optional_string : Obj → List ℕ → List ℕ → Option (Obj × List ℕ)
unfolding access
optional_string jc k def = access (string_answer k (some def)) jc k

unfoldable pub required_string_or_object : Obj → List ℕ → Option (Obj × Value)
unfolding access
required_string_or_object jc k = access (string_or_object_answer k true) jc k

unfoldable pub optional_string_or_object : Obj → List ℕ → Option (Obj × Value)
unfolding access
optional_string_or_object jc k = access (string_or_object_answer k false) jc k

unfoldable pub required_bool : (List ℕ → Option Bool) → Obj → List ℕ → Option (Obj × Bool)
unfolding access
required_bool parse_bool jc k = access (boolean_answer parse_bool k none) jc k

unfoldable pub optional_bool : (List ℕ → Option Bool) → Obj → List ℕ → Bool → Option (Obj × Bool)
unfolding access
optional_bool parse_bool jc k def = access (boolean_answer parse_bool k (some def)) jc k

-- RequiredInt and RequiredInt64.
unfoldable pub required_int : (ℕ → ℕ) → Obj → List ℕ → Option (Obj × ℕ)
unfolding access
required_int to_int jc k = access (int_answer to_int k none) jc k

unfoldable pub optional_int : (ℕ → ℕ) → Obj → List ℕ → ℕ → Option (Obj × ℕ)
unfolding access
optional_int to_int jc k def = access (int_answer to_int k (some def)) jc k

unfoldable pub required_list : Obj → List ℕ → Option (Obj × List (List ℕ))
unfolding access list_answer
required_list jc k = access (list_answer k true) jc k

unfoldable pub optional_list : Obj → List ℕ → Option (Obj × List (List ℕ))
unfolding access list_answer
optional_list jc k = access (list_answer k false) jc k
