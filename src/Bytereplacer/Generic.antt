-- ===== src/Bytereplacer/Generic.antt =====
-- bytereplacer/bytereplacer.go: genericReplacer, made by makeGenericReplacer. The arguments
-- oldnew are the list of their pairs, in order.
pub mod Index
pub mod First
use go.Common.{
  ℕ, suc, ◌+◌, ◌*◌, ◌%◌, List, [], ◌∷◌, ◌==◌, if◌then◌else◌, length, get_or, set, replicate,
}
use go.Bytereplacer.Trie.{TrieNode, node, table, empty_slots, add}

pub record Pair : Type 0 where
  pub old : List ℕ
  pub new : List ℕ

abbrev pub mark_key : List ℕ → List ℕ → List ℕ
mark_key mapping [] = mapping
mark_key mapping (b ∷ key) = mark_key (set mapping b 1) key

-- Each byte used gets a 1.
abbrev pub mark_keys : List ℕ → List Pair → List ℕ
mark_keys mapping [] = mapping
mark_keys mapping (p ∷ pairs) = mark_keys (mark_key mapping (p.old)) pairs

abbrev pub total : List ℕ → ℕ
total [] = 0
total (b ∷ mapping) = b + total mapping

-- The dense indices: the index is a byte, and so is the entry of a byte that is not used.
abbrev pub assign : List ℕ → ℕ → ℕ → List ℕ
assign [] table_size index = []
assign (b ∷ mapping) table_size index =
    (if b == 0 then table_size % 256 else index)
    ∷ assign mapping table_size (if b == 0 then index else (index + 1) % 256)

-- r.root.add for each pair, with priority len(oldnew)-i.
abbrev pub add_pairs : (ℕ → ℕ) → ℕ → TrieNode → List Pair → TrieNode
add_pairs mapping table_size root [] = root
add_pairs mapping table_size root (p ∷ pairs) =
    add_pairs mapping table_size
      (add mapping table_size (length (p.old)) root (p.old) (p.new) (2 * suc (length pairs))) pairs

pub record GenericReplacer : Type 0 where
  pub root : TrieNode
  pub table_size : ℕ
  pub mapping : List ℕ

abbrev pub index_of : List ℕ → ℕ → ℕ
index_of mapping b = get_or mapping b 0

unfoldable pub make_generic_replacer : List Pair → GenericReplacer
make_generic_replacer pairs =
    let marks = mark_keys (replicate 256 0) pairs in
    let table_size = total marks in
    let mapping = assign marks table_size 0 in
    let root =
      add_pairs (index_of mapping) table_size (node [] 0 (table (empty_slots table_size))) pairs in
    record { root = root; table_size = table_size; mapping = mapping }
