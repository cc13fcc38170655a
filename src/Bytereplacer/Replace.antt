-- ===== src/Bytereplacer/Replace.antt =====
-- bytereplacer/bytereplacer.go: Replace of genericReplacer.
pub mod Steps
pub mod Matches
pub mod InPlace
use go.Common.{
  ℕ, zero, suc, ◌+◌, ◌-◌, ◌*◌, Bool, true, false, ◌&&◌, ◌||◌, List, [], ◌∷◌, ◌++◌, Option, none,
  some, ◌==◌, ltb, leb, if◌then◌else◌, length, take,
}
use go.Bytereplacer.Trie.{TrieNode, node, bare, prefixed, table, get_slot, lookup}
use go.Bytereplacer.Buffer.{copy_at, slice, Dst, shared, own, contents, append_dst, append_mem}
use go.Bytereplacer.Generic.{GenericReplacer, index_of}
use go.Bytereplacer.Generic.First.Built.{index}
use go.Bytereplacer.Generic.First.{result}

-- The variables of Replace: mem is the array behind s, up to its capacity, and len is len(s).
pub record State : Type 0 where
  pub mem : List ℕ
  pub len : ℕ
  pub i : ℕ
  pub last : ℕ
  pub prev_match_empty : Bool
  pub dst : Dst
  pub grown : Bool

-- r.root.table[index]; the root has a table.
abbrev pub root_slot : TrieNode → ℕ → Option TrieNode
root_slot (node v p bare) i = none
root_slot (node v p (prefixed q qs next)) i = some next
root_slot (node v p (table xs)) i = get_slot xs i

abbrev pub priority_of : TrieNode → ℕ
priority_of (node v p links) = p

abbrev pub is_none {ℓ} : {A : Type ℓ} → Option A → Bool
is_none none = true
is_none (some a) = false

-- The fast path: no old string begins with this byte.
unfoldable pub is_fast : GenericReplacer → List ℕ → Bool
is_fast r [] = false
is_fast r (b ∷ s) =
    let index = index_of (r.mapping) b in
    (priority_of (r.root) == 0) && ((index == r.table_size) || is_none (root_slot (r.root) index))

-- copy(s[i+len(val):cap(dst)], s[i+keylen:]): the larger value still fits.
unfoldable pub move_rest : State → List ℕ → ℕ → List ℕ
move_rest st val keylen =
    copy_at (st.mem) (st.i + length val)
      (take (length (st.mem) - (st.i + length val)) (slice (st.mem) (st.i + keylen) (st.len)))

-- The value is no longer than the old string, or dst has an array of its own.
unfoldable pub put_after : State → List ℕ → ℕ → State
put_after st val keylen = record {
  mem = append_mem (st.mem) (st.dst) val;
  len = st.len;
  i = st.i + keylen;
  last = st.i + keylen;
  prev_match_empty = st.prev_match_empty;
  dst = append_dst (st.mem) (st.dst) val;
  grown = st.grown;
}

-- The value is longer, but the capacity is enough.
unfoldable pub put_moving : State → List ℕ → ℕ → State
unfolding move_rest
put_moving st val keylen = record {
  mem = append_mem (move_rest st val keylen) (st.dst) val;
  len = st.len + (length val - keylen);
  i = st.i + length val;
  last = st.i + length val;
  prev_match_empty = st.prev_match_empty;
  dst = append_dst (move_rest st val keylen) (st.dst) val;
  grown = st.grown;
}

-- A new array.
unfoldable pub put_growing : State → List ℕ → ℕ → State
put_growing st val keylen = record {
  mem = st.mem;
  len = st.len;
  i = st.i + keylen;
  last = st.i + keylen;
  prev_match_empty = st.prev_match_empty;
  dst = own (contents (st.mem) (st.dst) ++ val);
  grown = true;
}

-- The body of `if match`, once the bytes since the last match are copied.
unfoldable pub put_value : State → List ℕ → ℕ → State
unfolding put_after put_moving put_growing
put_value st val keylen =
    if st.grown || ltb (length val) keylen
    then put_after st val keylen
    else if leb (length val - keylen) (length (st.mem) - st.len)
    then put_moving st val keylen
    else put_growing st val keylen

-- dst = append(dst, s[last:i]...)
unfoldable pub copy_unmatched : State → Bool → State
copy_unmatched st prev =
    let xs = slice (st.mem) (st.last) (st.i) in
    record {
      mem = append_mem (st.mem) (st.dst) xs;
      len = st.len;
      i = st.i;
      last = st.last;
      prev_match_empty = prev;
      dst = append_dst (st.mem) (st.dst) xs;
      grown = st.grown;
    }

abbrev pub advance : State → Bool → State
advance st prev = record {
  mem = st.mem;
  len = st.len;
  i = st.i + 1;
  last = st.last;
  prev_match_empty = prev;
  dst = st.dst;
  grown = st.grown;
}

abbrev pub rest_of : State → List ℕ
rest_of st = slice (st.mem) (st.i) (st.len)

abbrev pub after_lookup : State → Option (List ℕ × ℕ) → State
unfolding put_value copy_unmatched
after_lookup st none = advance st false
after_lookup st (some (val, keylen)) = put_value (copy_unmatched st (keylen == 0)) val keylen

-- One round of the loop.
unfoldable pub step : GenericReplacer → State → State
unfolding is_fast
step r st =
    if is_fast r (rest_of st)
    then advance st (st.prev_match_empty)
    else after_lookup st (
        result (
          lookup (index_of (r.mapping)) (r.table_size) (r.root) (rest_of st) (st.prev_match_empty)))

-- `for i <= len(s)`, on fuel; none where it runs out.
unfoldable pub loop : ℕ → GenericReplacer → State → Option State
unfolding step
loop zero r st = none
loop (suc fuel) r st =
    let later = loop fuel r (step r st) in if leb (st.i) (st.len) then later else some st

-- if last != len(s) { dst = append(dst, s[last:]...) }
abbrev pub finish : State → List ℕ
finish st =
    let xs = slice (st.mem) (st.last) (st.len) in
    if st.last == st.len
    then contents (st.mem) (st.dst)
    else contents (append_mem (st.mem) (st.dst) xs) (append_dst (st.mem) (st.dst) xs)

abbrev pub start : List ℕ → ℕ → State
start mem len = record {
  mem = mem;
  len = len;
  i = 0;
  last = 0;
  prev_match_empty = false;
  dst = shared 0;
  grown = false;
}

abbrev pub finished : Option State → Option (List ℕ)
finished none = none
finished (some st) = some (finish st)

-- Replace on the slice of the first len bytes of an array.
unfoldable pub replace : GenericReplacer → List ℕ → ℕ → Option (List ℕ)
unfolding loop
replace r mem len = finished (loop (2 * len + 3) r (start mem len))
