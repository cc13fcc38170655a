-- ===== src/Writerutil.antt =====
-- `PrefixSuffixSaver` of writerutil/writerutil.go: a writer that keeps the first and the last `N` bytes.
pub mod Saved
pub mod Written
pub mod Kept
mod Runs
use go.Common.{
  ℕ, zero, suc, ◌+◌, ◌-◌, List, [], ◌∷◌, ◌++◌, ◌==◌, ltb, if◌then◌else◌, length, take, drop, min,
}

-- A nil slice and an empty one are the same list: `fill` appends nothing to a nil one.
pub record PrefixSuffixSaver : Type 0 where
  pub n : ℕ
  pub prefix : List ℕ
  pub suffix : List ℕ
  pub suffix_off : ℕ
  pub skipped : ℕ

abbrev pub new : ℕ → PrefixSuffixSaver
new n = record { n = n; prefix = []; suffix = []; suffix_off = 0; skipped = 0 }

-- `fill`: the grown slice, and what is left of `p`.
unfoldable pub fill : ℕ → List ℕ → List ℕ → List ℕ × List ℕ
fill n dst p =
    if ltb (length dst) n
    then (dst ++ take (min (length p) (n - length dst)) p, drop (min (length p) (n - length dst)) p)
    else (dst, p)

-- One round of the loop of `Write`: `copy` to the ring from `suffix_off` on.
unfoldable pub overwrite_round : List ℕ → PrefixSuffixSaver → PrefixSuffixSaver
overwrite_round p w =
    let k = min (length w.suffix - w.suffix_off) (length p) in
    record w {
      suffix = take w.suffix_off w.suffix ++ (take k p ++ drop (w.suffix_off + k) w.suffix);
      skipped = w.skipped + k;
      suffix_off = if w.suffix_off + k == w.n then 0 else w.suffix_off + k;
    }

abbrev pub copied : List ℕ → PrefixSuffixSaver → ℕ
copied p w = min (length w.suffix - w.suffix_off) (length p)

-- The loop, with fuel for each round.
unfoldable pub overwrite : ℕ → List ℕ → PrefixSuffixSaver → PrefixSuffixSaver
unfolding overwrite_round
overwrite zero p w = w
overwrite (suc fuel) [] w = w
overwrite (suc fuel) (c ∷ p) w =
    overwrite fuel (drop (copied (c ∷ p) w) (c ∷ p)) (overwrite_round (c ∷ p) w)

-- The saver after the first `fill` and the cut of what is more than `n` bytes.
unfoldable pub write_suffix : List ℕ → PrefixSuffixSaver → PrefixSuffixSaver
unfolding fill overwrite
write_suffix p w =
    let overage = length p - w.n in
    let (s, q) = fill w.n w.suffix (drop overage p) in
    overwrite (length q) q (record w { suffix = s; skipped = w.skipped + overage })

-- `Write` answers the length of `p` and no error.
unfoldable pub write : List ℕ → PrefixSuffixSaver → ℕ × PrefixSuffixSaver
unfolding fill write_suffix
write p w =
    let (pre, q) = fill w.n w.prefix p in (length p, write_suffix q (record w { prefix = pre }))

-- `Bytes`, for any text of the number of bytes that are left out.
module _ (format_int : ℕ → List ℕ) (omitting after : List ℕ) where
  unfoldable pub bytes : PrefixSuffixSaver → List ℕ
  bytes w =
      if length w.suffix == 0
      then w.prefix
      else if w.skipped == 0
      then w.prefix ++ w.suffix
      else w.prefix
        ++ (omitting
            ++ (format_int w.skipped
                ++ (after ++ (drop w.suffix_off w.suffix ++ take w.suffix_off w.suffix))))

-- One `Write` after the other.
unfoldable pub write_all : List (List ℕ) → PrefixSuffixSaver → PrefixSuffixSaver
unfolding write
write_all [] w = w
write_all (p ∷ ps) w = write_all ps (write p w).1
