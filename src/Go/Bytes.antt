-- ===== src/Go/Bytes.antt =====
-- `binary.BigEndian` on 32-bit words, and the hash function of `crypto/sha256`, which stays a
-- parameter: the code relies on no more than that it is a function into byte strings.
use loraplex.Prelude.{arith, ◌<◌, ◌∷◌, ◌^◌, ◌+◌, ◌≡◌, ◌%◌, ◌*◌, Text, [], All, ◌/◌, ℕ}

-- `binary.BigEndian.Uint32(b[:4])`. A shorter slice, which is a panic in Go, does not occur at a
-- digest; it reads as 0.
unfoldable pub be_uint32 : Text → ℕ
be_uint32 (a ∷ b ∷ c ∷ d ∷ rest) = ((a * 256 + b) * 256 + c) * 256 + d
be_uint32 _ = 0

-- `binary.BigEndian.PutUint32(b, uint32(n))`
unfoldable pub put_uint32 : ℕ → Text
put_uint32 n = (n / 2 ^ 24 % 256) ∷ (n / 2 ^ 16 % 256) ∷ (n / 2 ^ 8 % 256) ∷ (n % 256) ∷ []

abbrev pub IsByte : ℕ → Type 0
IsByte b = b < 256

pub record Sha256 : Type 0 where
  pub sum : Text → Text
  pub sum-All_bytes : (s : Text) → All IsByte (sum s)

pub be_uint32_bound : (s : Text) → All IsByte s → be_uint32 s < 2 ^ 32
unfolding be_uint32
be_uint32_bound (a ∷ b ∷ c ∷ d ∷ rest) (ha, (hb, (hc, (hd, _)))) = omega arith
be_uint32_bound _ _ = omega arith

-- The index of a virtual node is read back from its four bytes.
pub be_uint32-put_uint32 : (n : ℕ) → n < 2 ^ 32 → be_uint32 (put_uint32 n) ≡ n
unfolding be_uint32 put_uint32
be_uint32-put_uint32 n h = omega arith
