-- ===== src/Bytes.antt =====
-- `Uint8Array` and the big-endian accesses of `DataView`. A byte array is a list of numbers below
-- 256; `set_u16`, `set_u32` and `set_u64` are the bytes that a setter writes (modulo the width, as
-- DataView does), and a getter reads at an offset. Each getter of the code stands behind a length
-- check, so the default 0 of a read out of range is never met.
use pure_reactive_protocol.Prelude.{
  ℕ, ◌+◌, ◌*◌, ◌/◌, ◌%◌, ◌<◌, ◌≡◌, List, [], ◌∷◌, ◌++◌, All, get_or, arith,
}

abbrev pub IsBytes : List ℕ → Type 0
IsBytes = All (λ b. b < 256)

abbrev pub set_u16 : ℕ → List ℕ
set_u16 v = (v / 256) % 256 ∷ v % 256 ∷ []

abbrev pub set_u32 : ℕ → List ℕ
set_u32 v = (v / 16777216) % 256 ∷ (v / 65536) % 256 ∷ (v / 256) % 256 ∷ v % 256 ∷ []

abbrev pub set_u64 : ℕ → List ℕ
set_u64 v = set_u32 (v / 4294967296) ++ set_u32 v

abbrev pub get_u8 : List ℕ → ℕ → ℕ
get_u8 bs at = get_or bs at 0

unfoldable pub be16 : ℕ → ℕ → ℕ
be16 a b = a * 256 + b

unfoldable pub be32 : ℕ → ℕ → ℕ → ℕ → ℕ
be32 a b c d = a * 16777216 + b * 65536 + c * 256 + d

abbrev pub get_u16 : List ℕ → ℕ → ℕ
get_u16 bs at = be16 (get_u8 bs at) (get_u8 bs (at + 1))

abbrev pub get_u32 : List ℕ → ℕ → ℕ
get_u32 bs at = be32 (get_u8 bs at) (get_u8 bs (at + 1)) (get_u8 bs (at + 2)) (get_u8 bs (at + 3))

abbrev pub get_u64 : List ℕ → ℕ → ℕ
get_u64 bs at = get_u32 bs at * 4294967296 + get_u32 bs (at + 4)

pub be16-set_u16 : (v : ℕ) → v < 65536 → be16 ((v / 256) % 256) (v % 256) ≡ v
unfolding be16
be16-set_u16 v h = omega arith

pub be32-set_u32 :
    (v : ℕ)
    → v < 4294967296
    → be32 ((v / 16777216) % 256) ((v / 65536) % 256) ((v / 256) % 256) (v % 256) ≡ v
unfolding be32
be32-set_u32 v h = omega arith

pub be32-set_u32_mod :
    (v : ℕ)
    → be32 ((v / 16777216) % 256) ((v / 65536) % 256) ((v / 256) % 256) (v % 256) ≡ v % 4294967296
unfolding be32
be32-set_u32_mod v = omega arith

pub get_u64-set_u64 : (v : ℕ) → v < 18446744073709551616 → get_u64 (set_u64 v) 0 ≡ v
get_u64-set_u64 v h = omega (arith, be32-set_u32_mod v, be32-set_u32 (v / 4294967296))
