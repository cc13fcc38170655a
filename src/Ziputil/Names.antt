-- ===== src/Ziputil/Names.antt =====
-- `detectUTF8` of ziputil/ziputil.go, with the decoding of unicode/utf8 that it uses.
use Prim.Native.Nat.{bit_and}
use go.Common.{
  ℕ, zero, suc, ◌+◌, ◌*◌, ◌%◌, Bool, true, false, not, ◌&&◌, ◌||◌, List, [], ◌∷◌, drop, length,
  ◌==◌, ltb, leb, if◌then◌else◌,
}

-- Whether a byte lies within two bounds.
abbrev pub between : ℕ → ℕ → ℕ → Bool
between lo hi x = leb lo x && leb x hi

abbrev pub rune_error : ℕ
rune_error = 65533

abbrev pub tail_bits : ℕ → ℕ
tail_bits x = x % 64

-- `utf8.DecodeRuneInString`: the rune and the bytes that it takes; what is no rune takes one byte.
unfoldable pub decode2 : ℕ → List ℕ → ℕ × ℕ
decode2 a (b ∷ _) = if between 128 191 b then (a % 32 * 64 + tail_bits b, 2) else (rune_error, 1)
decode2 a _ = (rune_error, 1)

unfoldable pub decode3 : ℕ → ℕ → ℕ → List ℕ → ℕ × ℕ
decode3 lo hi a (b ∷ c ∷ _) =
    if between lo hi b && between 128 191 c
    then (a % 16 * 4096 + tail_bits b * 64 + tail_bits c, 3)
    else (rune_error, 1)
decode3 lo hi a _ = (rune_error, 1)

unfoldable pub decode4 : ℕ → ℕ → ℕ → List ℕ → ℕ × ℕ
decode4 lo hi a (b ∷ c ∷ d ∷ _) =
    if between lo hi b && (between 128 191 c && between 128 191 d)
    then (a % 8 * 262144 + tail_bits b * 4096 + tail_bits c * 64 + tail_bits d, 4)
    else (rune_error, 1)
decode4 lo hi a _ = (rune_error, 1)

unfoldable pub decode_rune : List ℕ → ℕ × ℕ
unfolding decode2 decode3 decode4
decode_rune [] = (rune_error, 0)
decode_rune (a ∷ s) =
    if ltb a 128
    then (a, 1)
    else if between 194 223 a
    then decode2 a s
    else if a == 224
    then decode3 160 191 a s
    else if a == 237
    then decode3 128 159 a s
    else if between 225 239 a
    then decode3 128 191 a s
    else if a == 240
    then decode4 144 191 a s
    else if between 241 243 a
    then decode4 128 191 a s
    else if a == 244
    then decode4 128 143 a s
    else (rune_error, 1)

-- `utf8.ValidRune`
abbrev pub valid_rune : ℕ → Bool
valid_rune r = ltb r 55296 || (ltb 57343 r && leb r 1114111)

-- The condition of the loop's `if`: a rune that other encodings may have changed.
unfoldable pub suspicious : ℕ → Bool
suspicious r = ltb r 32 || (ltb 125 r || (r == 92))

-- The loop of `detectUTF8`: (valid, require). Each round takes a byte at least.
unfoldable pub detect_from : ℕ → Bool → List ℕ → Bool × Bool
unfolding decode_rune suspicious
detect_from zero require s = (true, require)
detect_from (suc fuel) require [] = (true, require)
detect_from (suc fuel) require (x ∷ s) =
    let (r, size) = decode_rune (x ∷ s) in
    let plain = detect_from fuel require (drop size (x ∷ s)) in
    let special = detect_from fuel true (drop size (x ∷ s)) in
    if suspicious r
    then (if not (valid_rune r) || ((r == rune_error) && (size == 1))
        then (false, false)
        else special)
    else plain

unfoldable pub detect_utf8 : List ℕ → Bool × Bool
unfolding detect_from
detect_utf8 s = detect_from (length s) false s

-- The `switch` of `readDirectoryHeader` on the encodings of the name and the comment.
unfoldable pub is_non_utf8 : List ℕ → List ℕ → ℕ → Bool
unfolding detect_utf8
is_non_utf8 name comment flags =
    let (valid1, require1) = detect_utf8 name in
    let (valid2, require2) = detect_utf8 comment in
    if not valid1 || not valid2
    then true
    else if not require1 && not require2
    then false
    else (bit_and flags 2048 == 0)
