-- ===== src/Ziputil/ReadBuf.antt =====
-- `readBuf` of ziputil/ziputil.go, the errors of the package, and the bytes of a number.
use go.Common.{
  ℕ, zero, suc, ◌+◌, ◌*◌, ◌/◌, ◌%◌, ◌^◌, ◌<◌, ◌≡◌, refl, ap, ap₂, ◌∙◌, arith, List, [], ◌∷◌, ◌++◌,
  append_assoc, take, drop, length, ◌⊎◌, inl, inr,
}
use go.Readerutil.Parts.{ReadErr}

-- `zip.ErrFormat`, `zip.ErrChecksum`, the errors that `ziputil.go` makes, and those of its readers.
pub data ZipErr : Type 0 where
  err_format err_checksum comment_length invalid_arguments unsupported header_length : ZipErr
  wrong_number : ℕ → ℕ → ZipErr
  reader_err : ReadErr → ZipErr

pub data Result {ℓ} (A : Type ℓ) : Type ℓ where
  ok : A → Result A
  fail : ZipErr → Result A

pub Result-cases {ℓ} :
    {A : Type ℓ} (x : Result A) → ((a : A) × (x ≡ ok a)) ⊎ ((e : ZipErr) × (x ≡ fail e))
Result-cases (ok a) = inl (a, refl)
Result-cases (fail e) = inr (e, refl)

-- `binary.LittleEndian`: the value of the first `n` bytes. All calls are behind checks of the length.
unfoldable pub le : ℕ → List ℕ → ℕ
le zero b = 0
le (suc n) [] = 0
le (suc n) (x ∷ xs) = x + 256 * le n xs

-- `uint8`, `uint16`, `uint32` and `uint64` take 1, 2, 4 and 8 bytes.
unfoldable pub uint : ℕ → List ℕ → ℕ × List ℕ
unfolding le
uint n b = (le n b, drop n b)

unfoldable pub sub : ℕ → List ℕ → List ℕ × List ℕ
sub n b = (take n b, drop n b)

-- The bytes of a number, the low ones first.
unfoldable pub le_bytes : ℕ → ℕ → List ℕ
le_bytes zero v = []
le_bytes (suc n) v = v % 256 ∷ le_bytes n (v / 256)

-- A number of `n` bytes, in front of others.
unfoldable pub put : ℕ → ℕ → List ℕ → List ℕ
unfolding le_bytes
put n v rest = le_bytes n v ++ rest

le-le_bytes : (n v : ℕ) (rest : List ℕ) → v < 256 ^ n → le n (le_bytes n v ++ rest) ≡ v
unfolding le le_bytes
le-le_bytes zero v rest h = omega (arith, h)
le-le_bytes (suc n) v rest h =
    ap (λ t. v % 256 + 256 * t) (le-le_bytes n (v / 256) rest (div_bound n v h)) ∙ omega arith
  where
    div_bound : (n v : ℕ) → v < 256 ^ suc n → v / 256 < 256 ^ n
    div_bound n v h = omega (arith, h)

drop-le_bytes : (n v : ℕ) (rest : List ℕ) → drop n (le_bytes n v ++ rest) ≡ rest
unfolding le_bytes
drop-le_bytes zero v rest = refl
drop-le_bytes (suc n) v rest = drop-le_bytes n (v / 256) rest

pub uint-put : (n v : ℕ) (rest : List ℕ) → v < 256 ^ n → uint n (put n v rest) ≡ (v, rest)
unfolding uint put
uint-put n v rest h = ap₂ (λ a b. (a, b)) (le-le_bytes n v rest h) (drop-le_bytes n v rest)

pub drop-put : (n v : ℕ) (rest : List ℕ) → drop n (put n v rest) ≡ rest
unfolding put
drop-put = drop-le_bytes

pub length-put : (n v : ℕ) (rest : List ℕ) → length (put n v rest) ≡ n + length rest
unfolding put le_bytes
length-put zero v rest = omega arith
length-put (suc n) v rest = ap suc (length-put n (v / 256) rest) ∙ omega arith

pub append-put : (n v : ℕ) (rest more : List ℕ) → put n v rest ++ more ≡ put n v (rest ++ more)
unfolding put
append-put n v rest more = append_assoc (le_bytes n v) rest more

pub take-put : (n k v : ℕ) (rest : List ℕ) → take (n + k) (put n v rest) ≡ put n v (take k rest)
unfolding put le_bytes
take-put zero k v rest = ap (λ i. take i rest) (omega arith)
take-put (suc n) k v rest =
    ap (λ i. take i (v % 256 ∷ put n (v / 256) rest)) {y = suc (n + k)} (omega arith)
    ∙ ap (λ t. v % 256 ∷ t) (take-put n k (v / 256) rest)
