-- ===== src/Jsonconfig/Validate/Whole.antt =====
-- jsonconfig/jsonconfig.go: the errors of a whole use of an object.
use go.Common.{
  ℕ, ◌≡◌, refl, ap, arith, false, List, [], ◌∷◌, ◌++◌, Option, none, some, All, Option-cases, inl,
  inr, append-nil,
}
use go.Jsonconfig.{
  ConfigErr, Slot, known, errors, entry, Obj, same_key, get, put, known_keys, errors_key,
  note_known_key, append_error,
}
use go.Jsonconfig.Access.{Answer, access}

-- A key that the package does not use itself.
abbrev pub IsOwn : List ℕ → Type 0
IsOwn k = (same_key known_keys k ≡ false) × (same_key errors_key k ≡ false)

-- An object as it is decoded: no key is one of the package's.
abbrev pub IsFresh : Obj → Type 0
IsFresh jc =
    All (λ e. (same_key (e.key) known_keys ≡ false) × (same_key (e.key) errors_key ≡ false)) jc

-- What the package has added to an object: the keys asked for, and the errors.
abbrev pub added : List (List ℕ) → List ConfigErr → Obj
added [] [] = []
added [] (e ∷ es) = entry errors_key (errors (e ∷ es)) ∷ []
added (k ∷ ks) [] = entry known_keys (known (k ∷ ks)) ∷ []
added (k ∷ ks) (e ∷ es) =
    entry known_keys (known (k ∷ ks)) ∷ entry errors_key (errors (e ∷ es)) ∷ []

pub get-fresh_known : (jc t : Obj) → IsFresh jc → get (jc ++ t) known_keys ≡ get t known_keys
get-fresh_known [] t h = refl
get-fresh_known (e ∷ jc) t h = rw h.0.0 (get-fresh_known jc t h.1)

pub get-fresh_errors : (jc t : Obj) → IsFresh jc → get (jc ++ t) errors_key ≡ get t errors_key
get-fresh_errors [] t h = refl
get-fresh_errors (e ∷ jc) t h = rw h.0.1 (get-fresh_errors jc t h.1)

put-fresh_known :
    (jc t : Obj) (s : Slot) → IsFresh jc → put (jc ++ t) known_keys s ≡ jc ++ put t known_keys s
put-fresh_known [] t s h = refl
put-fresh_known (e ∷ jc) t s h = rw (h.0.0) (ap (λ l. e ∷ l) (put-fresh_known jc t s h.1))

put-fresh_errors :
    (jc t : Obj) (s : Slot) → IsFresh jc → put (jc ++ t) errors_key s ≡ jc ++ put t errors_key s
put-fresh_errors [] t s h = refl
put-fresh_errors (e ∷ jc) t s h = rw (h.0.1) (ap (λ l. e ∷ l) (put-fresh_errors jc t s h.1))

get-added :
    (ks : List (List ℕ)) (es : List ConfigErr) (k : List ℕ) → IsOwn k → get (added ks es) k ≡ none
get-added [] [] k h = refl
get-added [] (e ∷ es) k h = rw h.1 refl
get-added (a ∷ ks) [] k h = rw h.0 refl
get-added (a ∷ ks) (e ∷ es) k h = rw (h.0, h.1) refl

get-own :
    (jc : Obj) (ks : List (List ℕ)) (es : List ConfigErr) (k : List ℕ)
    → IsOwn k
    → get (jc ++ added ks es) k ≡ get jc k
get-own [] ks es k h = get-added ks es k h
get-own (e ∷ jc) ks es k h = rw (get-own jc ks es k h) refl

pub append_error-added :
    (jc : Obj) (ks : List (List ℕ)) (es : List ConfigErr) (e : ConfigErr)
    → IsFresh jc
    → append_error (jc ++ added ks es) e ≡ some (jc ++ added ks (es ++ (e ∷ [])))
unfolding append_error
append_error-added jc [] [] e h =
    rw (get-fresh_errors jc [] h, put-fresh_errors jc [] (errors (e ∷ [])) h) refl
append_error-added jc [] (d ∷ es) e h =
    rw
      (
        get-fresh_errors jc (added [] (d ∷ es)) h,
        put-fresh_errors jc (added [] (d ∷ es)) (errors (d ∷ es ++ (e ∷ []))) h,
      )
      refl
append_error-added jc (k ∷ ks) [] e h =
    rw
      (
        get-fresh_errors jc (added (k ∷ ks) []) h,
        put-fresh_errors jc (added (k ∷ ks) []) (errors (e ∷ [])) h,
      )
      refl
append_error-added jc (k ∷ ks) (d ∷ es) e h =
    rw
      (
        get-fresh_errors jc (added (k ∷ ks) (d ∷ es)) h,
        put-fresh_errors jc (added (k ∷ ks) (d ∷ es)) (errors (d ∷ es ++ (e ∷ []))) h,
      )
      refl

note_known_key-added :
    (jc : Obj) (ks : List (List ℕ)) (es : List ConfigErr) (k : List ℕ)
    → IsFresh jc
    → (ks ≡ [] → es ≡ [])
    → note_known_key (jc ++ added ks es) k ≡ some (jc ++ added (ks ++ (k ∷ [])) es)
unfolding note_known_key
note_known_key-added jc [] [] k h late =
    rw (get-fresh_known jc [] h, put-fresh_known jc [] (known (k ∷ [])) h) refl
note_known_key-added jc [] (e ∷ es) k h late = absurd (ground (arith, late refl))
note_known_key-added jc (a ∷ ks) [] k h late =
    rw
      (
        get-fresh_known jc (added (a ∷ ks) []) h,
        put-fresh_known jc (added (a ∷ ks) []) (known (a ∷ ks ++ (k ∷ []))) h,
      )
      refl
note_known_key-added jc (a ∷ ks) (e ∷ es) k h late =
    rw
      (
        get-fresh_known jc (added (a ∷ ks) (e ∷ es)) h,
        put-fresh_known jc (added (a ∷ ks) (e ∷ es)) (known (a ∷ ks ++ (k ∷ []))) h,
      )
      refl

abbrev pub as_list : Option ConfigErr → List ConfigErr
as_list none = []
as_list (some e) = e ∷ []

-- An accessor answers as if it were asked first, of the object as it was decoded, whatever keys and
-- errors (ks and es) are stored by then, no error before a key; it adds its key and its error to
-- those, changes nothing else and does not panic. No key of the object, nor the one asked for, is
-- one that the package uses itself.
pub access_lem {ℓ} :
    {A : Type ℓ} (answer : Option Slot → Answer A) (jc : Obj) (ks : List (List ℕ))
    (es : List ConfigErr) (k : List ℕ)
    → IsFresh jc
    → IsOwn k
    → (ks ≡ [] → es ≡ [])
    → access answer (jc ++ added ks es) k
      ≡ some (
        jc ++ added (ks ++ (k ∷ [])) (es ++ as_list ((answer (get jc k)).err)),
        (answer (get jc k)).value,
      )
unfolding access
access_lem answer jc ks es k fresh own late =
    rw (note_known_key-added jc ks es k fresh late, get-own jc (ks ++ (k ∷ [])) es k own)
      (elim (Option-cases ((answer (get jc k)).err)) [
        | inl e ↦ rw (e, append-nil es) refl
        | inr (err, e) ↦ rw (e, append_error-added jc (ks ++ (k ∷ [])) es err fresh) refl
      ])
