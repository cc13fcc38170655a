-- ===== src/Bytereplacer/Replace/InPlace.antt =====
-- bytereplacer/bytereplacer.go: Replace in place computes the replacement of the whole slice.
use go.Common.{
  ℕ, zero, suc, ◌+◌, ◌-◌, ◌*◌, ◌≤◌, ◌<◌, ◌≡◌, refl, sym, ap, subst, ◌∙◌, arith, Bool, true, false,
  ◌&&◌, ◌||◌, List, [], ◌∷◌, ◌++◌, none, some, ◌==◌, ltb, leb, if◌then◌else◌, length, take, drop,
  Bool-cases, Option-cases, inl, inr, append_assoc, append-nil, length-take, length-drop, All-drop,
}
use go.Bytereplacer.Trie.{TrieNode, get_slot, no_match, walk, lookup}
use go.Bytereplacer.Trie.Entries.{IsBytes}
use go.Bytereplacer.Generic.{Pair, GenericReplacer, make_generic_replacer, index_of}
use go.Bytereplacer.Generic.First.Built.{lookup-first_match, index, size}
use go.Bytereplacer.Generic.First.{first_match, result}
use go.Bytereplacer.Generic.Index.{HasByteKeys}
use go.Bytereplacer.Replace.{
  State, advance, after_lookup, copy_unmatched, put_value, put_after, put_moving, put_growing,
  is_fast, step, loop, finished, replace, rest_of, start, root_slot, priority_of, is_none,
}
use go.Bytereplacer.Replace.Steps.Put.{put_value-Live}
use go.Bytereplacer.Replace.Steps.{
  Live, Over, start-Live, advance-Live, advance-Over, copy_unmatched-Copied, finish-Over,
}
use go.Bytereplacer.Replace.Matches.{
  replaced, following, first_match-bounds, following-none, following-none_left, following-some,
  following_same, Rooted, add_pairs-Rooted, walk_slots-vacant,
}

make_generic_replacer-Rooted : (pairs : List Pair) → Rooted ((make_generic_replacer pairs).root)
unfolding make_generic_replacer
make_generic_replacer-Rooted pairs = add_pairs-Rooted _ _ pairs _ ([], 0, _, refl)

-- A root without a value is no match itself.
lookup-same :
    (mapping : ℕ → ℕ) (n : ℕ) (t : TrieNode) (s : List ℕ) (prev : Bool)
    → Rooted t
    → (priority_of t == 0) ≡ true
    → lookup mapping n t s prev ≡ lookup mapping n t s false
unfolding lookup walk
lookup-same mapping n t s prev (v, p, xs, e) zero_priority =
    let z : p ≡ 0 = ground (arith, subst (λ u. (priority_of u == 0) ≡ true) e zero_priority) in
    rw (e, z) refl

lookup-fast :
    (r : GenericReplacer) (b : ℕ) (s : List ℕ) (prev : Bool)
    → Rooted (r.root)
    → is_fast r (b ∷ s) ≡ true
    → result (lookup (index_of (r.mapping)) (r.table_size) (r.root) (b ∷ s) prev) ≡ none
unfolding lookup walk is_fast
lookup-fast r b s prev (v, p, xs, e) fast =
    let m = index_of (r.mapping) b in
    let conditions : ((p == 0) && ((m == r.table_size) || is_none (get_slot xs m))) ≡ true =
      subst (λ u. ((priority_of u == 0) && ((m == r.table_size) || is_none (root_slot u m))) ≡ true)
        e fast in
    let z : p ≡ 0 = ground (arith, conditions) in
    elim (Bool-cases (m == r.table_size)) [
      | inl unused ↦ rw (e, z, unused) refl
      | inr used ↦
          let vacant_slot : is_none (get_slot xs m) ≡ true = ground (arith, conditions, used) in
          rw (e, z, used)
            (ap result (
              walk_slots-vacant (index_of (r.mapping)) (r.table_size) xs m s 1 no_match
                vacant_slot))
    ]

put_value-prev :
    (st : State) (val : List ℕ) (keylen : ℕ)
    → (put_value st val keylen).prev_match_empty ≡ st.prev_match_empty
unfolding put_value put_after put_moving put_growing
put_value-prev st val keylen = elim (Bool-cases (st.grown || ltb (length val) keylen)) [
  | inl y ↦ rw y refl
  | inr n ↦ elim (Bool-cases (leb (length val - keylen) (length (st.mem) - st.len))) [
    | inl y ↦ rw (n, y) refl
    | inr m ↦ rw (n, m) refl
  ]
]

-- The rounds that a state still needs at most.
abbrev rounds : Bool → List ℕ → ℕ
rounds prev s = 2 * length s + (if prev then 0 else 1)

module _ (pairs : List Pair) (keys : HasByteKeys pairs) where
  loop-at :
      (r : GenericReplacer) (fuel : ℕ) (st : State)
      → st.i ≤ st.len
      → loop (suc fuel) r st ≡ loop fuel r (step r st)
  unfolding loop
  loop-at r fuel st h = let e : leb (st.i) (st.len) ≡ true = ground (arith, h) in rw e refl

  loop-past :
      (r : GenericReplacer) (fuel : ℕ) (st : State) (out : List ℕ)
      → Over st out
      → finished (loop (suc fuel) r st) ≡ some out
  unfolding loop
  loop-past r fuel st out h =
      let e : leb (st.i) (st.len) ≡ false = ground (arith, h.past) in
      rw e (ap some (finish-Over st out h))

  step-slow :
      (st : State) (rest : List ℕ)
      → rest_of st ≡ rest
      → is_fast (make_generic_replacer pairs) rest ≡ false
      → IsBytes rest
      → step (make_generic_replacer pairs) st
        ≡ after_lookup st (first_match pairs rest (st.prev_match_empty))
  unfolding step make_generic_replacer
  step-slow st rest todo slow bytes =
      rw (todo, slow)
        (ap (after_lookup st) (lookup-first_match pairs keys rest bytes (st.prev_match_empty)))

  step-fast :
      (st : State) (rest : List ℕ)
      → rest_of st ≡ rest
      → is_fast (make_generic_replacer pairs) rest ≡ true
      → step (make_generic_replacer pairs) st ≡ advance st (st.prev_match_empty)
  unfolding step
  step-fast st rest todo fast = rw (todo, fast) refl

  fast-end : is_fast (make_generic_replacer pairs) [] ≡ false
  unfolding is_fast
  fast-end = refl

  -- A fast byte begins no old string, the empty one included.
  fast-none :
      (b : ℕ) (s : List ℕ) (prev : Bool)
      → IsBytes (b ∷ s)
      → is_fast (make_generic_replacer pairs) (b ∷ s) ≡ true
      → (first_match pairs (b ∷ s) prev ≡ none)
        × (first_match pairs s true ≡ first_match pairs s false)
  unfolding is_fast make_generic_replacer
  fast-none b s prev bytes fast =
      let rooted = make_generic_replacer-Rooted pairs in
      let root = (make_generic_replacer pairs).root in
      let zero_priority : (priority_of root == 0) ≡ true = ground (arith, fast) in
      (
        sym (lookup-first_match pairs keys (b ∷ s) bytes prev)
            ∙ lookup-fast (make_generic_replacer pairs) b s prev rooted fast,
        sym (lookup-first_match pairs keys s bytes.1 true)
            ∙ ap result (lookup-same (index pairs) (size pairs) root s true rooted zero_priority)
            ∙ lookup-first_match pairs keys s bytes.1 false,
      )

  -- On this fuel the loop finishes with what is to come.
  abbrev Enough : ℕ → Type 0
  Enough fuel =
      (st : State) (out rest : List ℕ)
      → Live st out rest
      → IsBytes rest
      → rounds (st.prev_match_empty) rest + 2 ≤ fuel
      → finished (loop fuel (make_generic_replacer pairs) st)
        ≡ some (out ++ following pairs (st.prev_match_empty) rest)

  Enough-matched :
      (fuel : ℕ)
      → Enough fuel
      → (st : State) (out rest : List ℕ) → Live st out rest
      → IsBytes rest
      → rounds (st.prev_match_empty) rest + 2 ≤ suc fuel
      → (val : List ℕ) (keylen : ℕ)
      → first_match pairs rest (st.prev_match_empty) ≡ some (val, keylen)
      → finished (loop fuel (make_generic_replacer pairs) (after_lookup st (some (val, keylen))))
        ≡ some (out ++ following pairs (st.prev_match_empty) rest)
  unfolding copy_unmatched after_lookup
  Enough-matched fuel enough st out rest live bytes le val keylen e =
      let prev = st.prev_match_empty in
      let bounds = first_match-bounds pairs rest prev val keylen e in
      let copied = copy_unmatched-Copied st (keylen == 0) out rest live in
      let next = put_value (copy_unmatched st (keylen == 0)) val keylen in
      let prev_eq : next.prev_match_empty ≡ (keylen == 0) =
        put_value-prev (copy_unmatched st (keylen == 0)) val keylen in
      let fuel_left : rounds (keylen == 0) (drop keylen rest) + 2 ≤ fuel =
        elim (Bool-cases (keylen == 0)) [
          | inl z ↦
              let zero_len : keylen ≡ 0 = ground (arith, z) in
              let was_false : prev ≡ false = bounds.1 zero_len in
              let le' : rounds false rest + 2 ≤ suc fuel =
                subst (λ p. rounds p rest + 2 ≤ suc fuel) was_false le in
              rw z (omega (arith, le', length-drop keylen rest, zero_len))
          | inr pos ↦
              let lt : 0 < keylen = ground (arith, pos) in
              rw pos (omega (arith, le, length-drop keylen rest, lt, bounds.0))
        ] in
      enough next (out ++ val) (drop keylen rest)
        (put_value-Live (copy_unmatched st (keylen == 0)) val keylen out rest copied bounds.0)
        (All-drop _ keylen rest bytes) (rw prev_eq fuel_left)
      ∙ rw (prev_eq, following-some pairs prev rest val keylen e)
          (ap some (append_assoc out val (following pairs (keylen == 0) (drop keylen rest))))

  Enough-unmatched :
      (fuel : ℕ)
      → Enough fuel
      → (st : State) (out : List ℕ) (b : ℕ) (s : List ℕ) → Live st out (b ∷ s)
      → IsBytes (b ∷ s)
      → rounds (st.prev_match_empty) (b ∷ s) + 2 ≤ suc fuel
      → first_match pairs (b ∷ s) (st.prev_match_empty) ≡ none
      → (prev : Bool) → following pairs prev s ≡ following pairs false s
      → finished (loop fuel (make_generic_replacer pairs) (advance st prev))
        ≡ some (out ++ following pairs (st.prev_match_empty) (b ∷ s))
  Enough-unmatched fuel enough st out b s live bytes le e prev same =
      let one : (p : Bool) → rounds p s ≤ 2 * length s + 1 = λ p. ground arith in
      enough (advance st prev) (out ++ (b ∷ [])) s (advance-Live st prev out b s live) bytes.1
        (omega (arith, le, one prev))
      ∙ rw (following-none pairs (st.prev_match_empty) b s e, same)
          (ap some (append_assoc out (b ∷ []) (following pairs false s)))

  Enough-end :
      (fuel : ℕ) (st : State) (out : List ℕ)
      → Live st out []
      → rounds (st.prev_match_empty) [] + 2 ≤ suc fuel
      → first_match pairs [] (st.prev_match_empty) ≡ none
      → finished (loop fuel (make_generic_replacer pairs) (advance st false))
        ≡ some (out ++ following pairs (st.prev_match_empty) [])
  Enough-end zero st out live le e = absurd (omega (arith, le))
  Enough-end (suc fuel) st out live le e =
      loop-past (make_generic_replacer pairs) fuel (advance st false) out
        (advance-Over st false out live)
      ∙ rw (following-none_left pairs (st.prev_match_empty) e) (ap some (sym (append-nil out)))

  loop-Enough : (fuel : ℕ) → Enough fuel
  unfolding after_lookup
  loop-Enough zero st out rest live bytes le = absurd (omega (arith, le))
  loop-Enough (suc fuel) st out [] live bytes le =
      let r = make_generic_replacer pairs in
      rw (loop-at r fuel st (live.inside), step-slow st [] (live.todo) fast-end tt)
        (elim (Option-cases (first_match pairs [] (st.prev_match_empty))) [
          | inl e ↦ rw e (Enough-end fuel st out live le e)
          | inr (m, e) ↦
              rw e (Enough-matched fuel (loop-Enough fuel) st out [] live bytes le m.0 m.1 e)
        ])
  loop-Enough (suc fuel) st out (b ∷ s) live bytes le =
      let r = make_generic_replacer pairs in
      let prev = st.prev_match_empty in
      rw (loop-at r fuel st (live.inside)) (elim (Bool-cases (is_fast r (b ∷ s))) [
        | inl fast ↦
            let missed = fast-none b s prev bytes fast in
            rw (step-fast st (b ∷ s) (live.todo) fast) (
              Enough-unmatched fuel (loop-Enough fuel) st out b s live bytes le missed.0 prev
                (following_same pairs s missed.1 prev))
        | inr slow ↦
            rw (step-slow st (b ∷ s) (live.todo) slow bytes)
              (elim (Option-cases (first_match pairs (b ∷ s) prev)) [
                | inl e ↦
                    rw e (
                      Enough-unmatched fuel (loop-Enough fuel) st out b s live bytes le e false
                        refl)
                | inr (m, e) ↦
                    rw e (
                      Enough-matched fuel (loop-Enough fuel) st out (b ∷ s) live bytes le m.0 m.1 e)
              ])
      ])

-- Replace of a generic replacer always finishes, on the fuel given, and returns what the pairs make
-- of the whole slice: matches from left to right that do not overlap, the first pair where several
-- match. This holds for a slice of any array that is long enough to hold it, whether the result
-- is written over the slice, needs the rest of the array, or an array of its own. The old
-- strings and the slice consist of bytes below 256.
pub replace-replaced :
    (pairs : List Pair)
    → HasByteKeys pairs
    → (mem : List ℕ) (len : ℕ) → len ≤ length mem
    → IsBytes (take len mem)
    → replace (make_generic_replacer pairs) mem len ≡ some (replaced pairs 0 (take len mem))
unfolding replace following
replace-replaced pairs keys mem len fits bytes =
    loop-Enough pairs keys (2 * len + 3) (start mem len) [] (take len mem) (start-Live mem len fits)
      bytes (omega (arith, length-take len mem))
