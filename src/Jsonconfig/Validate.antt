-- ===== src/Jsonconfig/Validate.antt =====
-- jsonconfig/jsonconfig.go: UnknownKeys and Validate, and a whole use of an object: the accessors that
-- a program calls, one after the other, and then Validate.
pub mod Whole
pub mod Expected
pub mod Checked
use go.Common.{ℕ, Bool, false, ◌||◌, ◌==◌, if◌then◌else◌, List, [], ◌∷◌, Option, none, some}
use go.Jsonconfig.{
  ConfigErr, unknown_key, Slot, json, known, errors, Obj, same_key, get, known_keys, errors_key,
  append_error,
}

abbrev pub has_underscore : List ℕ → Bool
has_underscore [] = false
has_underscore (b ∷ k) = b == 95

abbrev pub contains : List (List ℕ) → List ℕ → Bool
contains [] k = false
contains (a ∷ ks) k = same_key a k || contains ks k

-- The loop of UnknownKeys.
abbrev pub unknown_from : List (List ℕ) → Obj → List (List ℕ)
unknown_from ks [] = []
unknown_from ks (e ∷ jc) =
    let later = unknown_from ks jc in
    if contains ks (e.key) || has_underscore (e.key) then later else e.key ∷ later

-- sort.Strings is a parameter. none where a type assertion panics.
module _ (sort_strings : List (List ℕ) → List (List ℕ)) where
  abbrev pub unknown_with : Obj → Option Slot → Option (List (List ℕ))
  unknown_with jc none = some (sort_strings (unknown_from [] jc))
  unknown_with jc (some (known ks)) = some (sort_strings (unknown_from ks jc))
  unknown_with jc (some (json v)) = none
  unknown_with jc (some (errors es)) = none

  unfoldable pub unknown_keys : Obj → Option (List (List ℕ))
  unknown_keys jc = unknown_with jc (get jc known_keys)

  unfoldable pub append_unknown : List (List ℕ) → Option Obj → Option Obj
  unfolding append_error
  append_unknown ks none = none
  append_unknown [] (some jc) = some jc
  append_unknown (k ∷ ks) (some jc) = append_unknown ks (append_error jc (unknown_key k))

  -- errors.Join of the errors, none of which is nil; none stands for nil.
  abbrev pub joined : List ConfigErr → Option (List ConfigErr)
  joined [] = none
  joined (e ∷ es) = some (e ∷ es)

  abbrev pub error_list : Option Slot → Option (Option (List ConfigErr))
  error_list none = some none
  error_list (some (errors es)) = some (joined es)
  error_list (some (json v)) = none
  error_list (some (known ks)) = none

  abbrev pub stored_errors : Option Obj → Option (Option (List ConfigErr))
  stored_errors none = none
  stored_errors (some jc) = error_list (get jc errors_key)

  unfoldable pub validate_with : Obj → Option (List (List ℕ)) → Option (Option (List ConfigErr))
  unfolding append_unknown
  validate_with jc none = none
  validate_with jc (some unknown) = stored_errors (append_unknown unknown (some jc))

  unfoldable pub validate : Obj → Option (Option (List ConfigErr))
  unfolding unknown_keys validate_with
  validate jc = validate_with jc (unknown_keys jc)
