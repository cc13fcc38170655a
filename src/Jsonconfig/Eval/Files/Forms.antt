-- ===== src/Jsonconfig/Eval/Files/Forms.antt =====
-- jsonconfig/eval.go: what evaluating an object makes of it, as a relation of its own.
use go.Common.{ℕ, ◌≡◌, Bool, true, false, ◌⊎◌, List, Option, some}
use go.Jsonconfig.{
  Value, null, boolean, number, text, items, object, Items, no_items, item, Fields, no_fields,
  field_of,
}
use go.Jsonconfig.Eval.{Parser, done, Expander}

module _ (expander : List ℕ → Option Expander) where
  -- A list that begins with the name of an expander.
  abbrev pub Calls : Items → Type 0
  Calls no_items = ⊥
  Calls (item (text name) rest) = (f : Expander) × (expander name ≡ some f)
  Calls (item v rest) = ⊥

  -- What a value within a list, a list and the items of one evaluate to: a list that begins with the
  -- name of an expander to what that gives for the other items, and any other to the list of what its
  -- items evaluate to. All else is its own value, objects within a list included.
  mutual
    pub data IsValue : Value → Value → Type 0 where
      is_null : IsValue null null
      is_boolean : (b : Bool) → IsValue (boolean b) (boolean b)
      is_number : (n : ℕ) → IsValue (number n) (number n)
      is_text : (s : List ℕ) → IsValue (text s) (text s)
      is_object : (m : Fields) → IsValue (object m) (object m)
      is_list : (xs : Items) (w : Value) → ListValue xs w → IsValue (items xs) w

    pub data ListValue : Items → Value → Type 0 where
      expanded :
          (name : List ℕ) (rest : Items) (f : Expander) (p q : Parser) (w : Value)
          → expander name ≡ some f
          → f rest p ≡ done w q
          → ListValue (item (text name) rest) w
      itemwise :
          (v w : Value) (rest ws : Items)
          → ¬ Calls (item v rest)
          → IsValue v w
          → ItemsValue rest ws
          → ListValue (item v rest) (items (item w ws))

    pub data ItemsValue : Items → Items → Type 0 where
      no_more : ItemsValue no_items no_items
      one_more :
          (v w : Value) (rest ws : Items)
          → IsValue v w
          → ItemsValue rest ws
          → ItemsValue (item v rest) (item w ws)

  -- What a key has afterwards: a list its value, or with testOnly, if it begins with the name of an
  -- expander, the list itself; an empty list and all else but an object, what it had.
  mutual
    pub data KeptValue (test_only : Bool) : Value → Value → Type 0 where
      kept_null : KeptValue test_only null null
      kept_boolean : (b : Bool) → KeptValue test_only (boolean b) (boolean b)
      kept_number : (n : ℕ) → KeptValue test_only (number n) (number n)
      kept_text : (s : List ℕ) → KeptValue test_only (text s) (text s)
      kept_empty : KeptValue test_only (items no_items) (items no_items)
      kept_list :
          (xs : Items) (w : Value)
          → ListValue xs w
          → (test_only ≡ false) ⊎ (¬ Calls xs)
          → KeptValue test_only (items xs) w
      kept_tested :
          (xs : Items) (w : Value)
          → ListValue xs w
          → test_only ≡ true
          → Calls xs
          → KeptValue test_only (items xs) (items xs)
      kept_object :
          (m fs : Fields) → KeptFields test_only m fs → KeptValue test_only (object m) (object fs)

    pub data KeptFields (test_only : Bool) : Fields → Fields → Type 0 where
      kept_nil : KeptFields test_only no_fields no_fields
      kept_cons :
          (k : List ℕ) (v w : Value) (m fs : Fields)
          → KeptValue test_only v w
          → KeptFields test_only m fs
          → KeptFields test_only (field_of k v m) (field_of k w fs)
