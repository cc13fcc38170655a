-- ===== src/Bytereplacer/Trie.antt =====
-- bytereplacer/bytereplacer.go: trieNode with add and lookup. A node's prefix and next are one
-- constructor, as the code sets and clears them together, and a node has a prefix or a table,
-- never both. A prefix there is not empty, so its first byte stands apart.
pub mod Entries
pub mod Add
pub mod Lookup
use go.Common.{
  ℕ, zero, suc, ◌+◌, Bool, true, false, not, ◌&&◌, List, [], ◌∷◌, Option, none, some, ◌==◌, ltb,
  if◌then◌else◌, length, take, drop,
}

mutual
  pub data TrieNode : Type 0 where
    node : (value : List ℕ) (priority : ℕ) (links : Links) → TrieNode

  pub data Links : Type 0 where
    bare : Links
    prefixed : ℕ → List ℕ → TrieNode → Links
    table : Slots → Links

  -- The pointers of a table, nil or not.
  pub data Slots : Type 0 where
    end : Slots
    vacant : Slots → Slots
    taken : TrieNode → Slots → Slots

-- new(trieNode)
abbrev pub empty_node : TrieNode
empty_node = node [] 0 bare

-- make([]*trieNode, n)
abbrev pub empty_slots : ℕ → Slots
empty_slots zero = end
empty_slots (suc n) = vacant (empty_slots n)

abbrev pub width : Slots → ℕ
width end = 0
width (vacant xs) = suc (width xs)
width (taken t xs) = suc (width xs)

abbrev pub get_slot : Slots → ℕ → Option TrieNode
get_slot end i = none
get_slot (vacant xs) zero = none
get_slot (taken t xs) zero = some t
get_slot (vacant xs) (suc i) = get_slot xs i
get_slot (taken t xs) (suc i) = get_slot xs i

-- The code panics where the index is out of range; here the copy_at is then dropped.
abbrev pub set_slot : Slots → ℕ → TrieNode → Slots
set_slot end i t = end
set_slot (vacant xs) zero t = taken t xs
set_slot (taken u xs) zero t = taken t xs
set_slot (vacant xs) (suc i) t = vacant (set_slot xs i t)
set_slot (taken u xs) (suc i) t = taken u (set_slot xs i t)

-- t.table[m], a new node where that is nil.
abbrev pub slot_or_new : Option TrieNode → TrieNode
slot_or_new none = empty_node
slot_or_new (some t) = t

-- The length of the longest common prefix.
abbrev pub common : List ℕ → List ℕ → ℕ
common [] key = 0
common (q ∷ qs) [] = 0
common (q ∷ qs) (k ∷ ks) = if q == k then suc (common qs ks) else 0

-- A node for what is left of a prefix: the next node itself where nothing is left.
abbrev pub prefix_node : List ℕ → TrieNode → TrieNode
prefix_node [] next = next
prefix_node (q ∷ qs) next = node [] 0 (prefixed q qs next)

-- The links of a node that keeps the bytes of a prefix before the given next node.
abbrev pub prefix_links : List ℕ → TrieNode → Links
prefix_links [] next = bare
prefix_links (q ∷ qs) next = prefixed q qs next

-- The end of a key: the first value given for it stays.
abbrev pub set_value : TrieNode → List ℕ → ℕ → TrieNode
set_value (node v p links) val priority = if p == 0 then node val priority links else node v p links

-- bytes.HasPrefix.
abbrev pub has_prefix : List ℕ → List ℕ → Bool
has_prefix s [] = true
has_prefix [] (q ∷ qs) = false
has_prefix (b ∷ s) (q ∷ qs) = (b == q) && has_prefix s qs

-- What lookup has found so far.
pub record Best : Type 0 where
  pub best_priority : ℕ
  pub val : List ℕ
  pub keylen : ℕ
  pub found : Bool

abbrev pub no_match : Best
no_match = record { best_priority = 0; val = []; keylen = 0; found = false }

-- A node that lookup reaches after n bytes; skip is the test ignoreRoot && node == &r.root.
abbrev pub improve : Best → Bool → ℕ → List ℕ → ℕ → Best
improve best skip n value priority =
    if ltb (best.best_priority) priority && not skip
    then record { best_priority = priority; val = value; keylen = n; found = true }
    else best

module _ (mapping : ℕ → ℕ) (table_size : ℕ) where
  -- A table in place of a prefix q ∷ qs, for a key whose first byte k is not q.
  unfoldable pub split_table : ℕ → List ℕ → TrieNode → ℕ → TrieNode → Links
  split_table q qs next k key_node = table (
      set_slot (set_slot (empty_slots table_size) (mapping q) (prefix_node qs next)) (mapping k)
        key_node)

  -- Every call but the last takes bytes off the key, so its length is enough fuel. The code
  -- calls add in three places below a prefix; they differ in the node and the key.
  unfoldable pub add : ℕ → TrieNode → List ℕ → List ℕ → ℕ → TrieNode
  unfolding split_table
  add fuel t [] val priority = set_value t val priority
  add zero t (k ∷ ks) val priority = t
  add (suc fuel) (node v p bare) (k ∷ ks) val priority =
      node v p (prefixed k ks (add fuel empty_node [] val priority))
  add (suc fuel) (node v p (table xs)) (k ∷ ks) val priority =
      let added = add fuel (slot_or_new (get_slot xs (mapping k))) ks val priority in
      node v p (table (set_slot xs (mapping k) added))
  add (suc fuel) (node v p (prefixed q qs next)) (k ∷ ks) val priority =
      let n = common (q ∷ qs) (k ∷ ks) in
      let below = if n == 0 then empty_node else prefix_node (drop n (q ∷ qs)) next in
      let key = if n == 0 then ks else drop n (k ∷ ks) in
      let added = add fuel below key val priority in
      node v p
        (if n == 0 then split_table q qs next k added else prefix_links (take n (q ∷ qs)) added)

  -- The loop of lookup, from a node on: s is what is left of the bytes, n of them are passed.
  unfoldable mutual
    pub walk : TrieNode → Bool → List ℕ → ℕ → Best → Best
    walk (node v p links) skip s n best = walk_links links s n (improve best skip n v p)

    pub walk_links : Links → List ℕ → ℕ → Best → Best
    walk_links links [] n best = best
    walk_links bare (b ∷ s) n best = best
    walk_links (prefixed q qs next) (b ∷ s) n best =
        let below = walk next false (drop (length qs) s) (n + suc (length qs)) best in
        if has_prefix (b ∷ s) (q ∷ qs) then below else best
    walk_links (table xs) (b ∷ s) n best =
        let below = walk_slots xs (mapping b) s (suc n) best in
        if mapping b == table_size then best else below

    pub walk_slots : Slots → ℕ → List ℕ → ℕ → Best → Best
    walk_slots end i s n best = best
    walk_slots (vacant xs) zero s n best = best
    walk_slots (taken t xs) zero s n best = walk t false s n best
    walk_slots (vacant xs) (suc i) s n best = walk_slots xs i s n best
    walk_slots (taken t xs) (suc i) s n best = walk_slots xs i s n best

  unfoldable pub lookup : TrieNode → List ℕ → Bool → Best
  unfolding walk
  lookup root s ignore_root = walk root ignore_root s 0 no_match
