-- ===== src/Jsonconfig.antt =====
-- jsonconfig/jsonconfig.go: configuration objects, with the errors and the known keys that they keep
-- under keys of their own. A string is the list of its bytes, a float64 its bits.
pub mod Access
pub mod Validate
pub mod Eval
mod Runs
use go.Common.{
  ℕ, Bool, true, false, ◌&&◌, List, [], ◌∷◌, ◌++◌, Option, none, some, ◌==◌, if◌then◌else◌,
}

-- What encoding/json decodes into an interface{}.
mutual
  pub data Value : Type 0 where
    null : Value
    boolean : Bool → Value
    number : ℕ → Value
    text : List ℕ → Value
    items : Items → Value
    object : Fields → Value

  pub data Items : Type 0 where
    no_items : Items
    item : Value → Items → Items

  pub data Fields : Type 0 where
    no_fields : Fields
    field_of : (key : List ℕ) → Value → Fields → Fields

-- The errors of the package, by their text.
pub data ConfigErr : Type 0 where
  missing wrong_type bad_boolean unknown_key : (key : List ℕ) → ConfigErr
  bad_item : (key : List ℕ) → (index : ℕ) → ConfigErr

-- A value of the map: decoded, or one that the package stores.
pub data Slot : Type 0 where
  json : Value → Slot
  known : List (List ℕ) → Slot
  errors : List ConfigErr → Slot

-- A Go map, with the keys in the order in which they were stored.
pub record Entry : Type 0 where
  pub key : List ℕ
  pub slot : Slot

abbrev pub entry : List ℕ → Slot → Entry
entry k s = record { key = k; slot = s }

abbrev pub Obj : Type 0
Obj = List Entry

abbrev pub same_key : List ℕ → List ℕ → Bool
same_key [] [] = true
same_key [] (b ∷ bs) = false
same_key (a ∷ ks) [] = false
same_key (a ∷ ks) (b ∷ bs) = (a == b) && same_key ks bs

abbrev pub get : Obj → List ℕ → Option Slot
get [] k = none
get (e ∷ jc) k = let later = get jc k in if same_key (e.key) k then some (e.slot) else later

abbrev pub put : Obj → List ℕ → Slot → Obj
put [] k s = entry k s ∷ []
put (e ∷ jc) k s =
    let later = put jc k s in if same_key (e.key) k then entry k s ∷ jc else e ∷ later

-- "_knownkeys" and "_errors".
abbrev pub known_keys : List ℕ
known_keys = 95 ∷ 107 ∷ 110 ∷ 111 ∷ 119 ∷ 110 ∷ 107 ∷ 101 ∷ 121 ∷ 115 ∷ []

abbrev pub errors_key : List ℕ
errors_key = 95 ∷ 101 ∷ 114 ∷ 114 ∷ 111 ∷ 114 ∷ 115 ∷ []

-- none where the type assertion on what stands under the key panics.
abbrev pub with_known : Obj → List ℕ → Option Slot → Option Obj
with_known jc k none = some (put jc known_keys (known (k ∷ [])))
with_known jc k (some (known ks)) = some (put jc known_keys (known (ks ++ (k ∷ []))))
with_known jc k (some (json v)) = none
with_known jc k (some (errors es)) = none

unfoldable pub note_known_key : Obj → List ℕ → Option Obj
note_known_key jc k = with_known jc k (get jc known_keys)

abbrev pub with_error : Obj → ConfigErr → Option Slot → Option Obj
with_error jc e none = some (put jc errors_key (errors (e ∷ [])))
with_error jc e (some (errors es)) = some (put jc errors_key (errors (es ++ (e ∷ []))))
with_error jc e (some (json v)) = none
with_error jc e (some (known ks)) = none

unfoldable pub append_error : Obj → ConfigErr → Option Obj
append_error jc e = with_error jc e (get jc errors_key)
