-- ===== src/Hal/Words.antt =====
-- Machine words as native numbers below their modulus, the integers that their bits stand for, and
-- the bytes that they have in memory, lowest first.
use sugo_machine_application.Prelude.{
  ℕ, zero, suc, ◌+◌, ◌-◌, ◌*◌, ◌/◌, ◌%◌, ◌^◌, ◌<◌, ◌≡◌, ap, ◌∙◌, ltb, if◌then◌else◌, arith, List,
  [], ◌∷◌,
}
use sugo_machine_application.Prelude.Int.{ℤ, pos, negsuc, ◌≤ℤ◌}

-- The bits of an int32_t, and what the bits of an int32_t or an int16_t stand for.
unfoldable pub word32 : ℤ → ℕ
word32 (pos n) = n % 2 ^ 32
word32 (negsuc n) = 2 ^ 32 - 1 - n % 2 ^ 32

unfoldable pub signed32 : ℕ → ℤ
signed32 w = if ltb w (2 ^ 31) then pos w else negsuc (2 ^ 32 - 1 - w)

unfoldable pub signed16 : ℕ → ℤ
signed16 w = if ltb w (2 ^ 15) then pos w else negsuc (2 ^ 16 - 1 - w)

abbrev pub IsInt32 : ℤ → Type 0
IsInt32 z = (negsuc (2 ^ 31 - 1) ≤ℤ z) × (z ≤ℤ pos (2 ^ 31 - 1))

pub signed32-word32 : (z : ℤ) → IsInt32 z → signed32 (word32 z) ≡ z
unfolding signed32 word32
signed32-word32 (pos n) h = ground arith
signed32-word32 (negsuc n) h = ground arith

pub word32-lt : (z : ℤ) → word32 z < 2 ^ 32
unfolding word32
word32-lt (pos n) = omega arith
word32-lt (negsuc n) = omega arith

-- `writeToBuffer` (libs/HardwareAbstractionLayerImpl/Rpi/src/TicController.cpp).
unfoldable pub write_to_buffer : ℕ → List ℕ
write_to_buffer value =
    value % 256 ∷ value / 256 % 256 ∷ value / 65536 % 256 ∷ value / 16777216 % 256 ∷ []

-- The words in a memory of bytes; a byte beyond its end reads as 0.
unfoldable pub byte_at : List ℕ → ℕ → ℕ
byte_at [] i = 0
byte_at (b ∷ bs) zero = b
byte_at (b ∷ bs) (suc i) = byte_at bs i

unfoldable pub uint16_at : List ℕ → ℕ → ℕ
uint16_at bytes i = byte_at bytes i + 256 * byte_at bytes (i + 1)

unfoldable pub uint32_at : List ℕ → ℕ → ℕ
uint32_at bytes i = uint16_at bytes i + 65536 * uint16_at bytes (i + 2)

unfoldable pub int32_at : List ℕ → ℕ → ℤ
int32_at bytes i = signed32 (uint32_at bytes i)

pub uint32_at-write_to_buffer : (v : ℕ) → v < 2 ^ 32 → uint32_at (write_to_buffer v) 0 ≡ v
unfolding uint32_at uint16_at byte_at write_to_buffer
uint32_at-write_to_buffer v h = omega arith

pub int32_at-write_to_buffer : (z : ℤ) → IsInt32 z → int32_at (write_to_buffer (word32 z)) 0 ≡ z
unfolding int32_at
int32_at-write_to_buffer z h =
    ap signed32 (uint32_at-write_to_buffer (word32 z) (word32-lt z)) ∙ signed32-word32 z h
