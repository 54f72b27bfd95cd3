-- ===== src/Prelude/Words.antt =====
-- Machine words as numbers: casts by remainder, and little-endian reads from the front of a slice.
use Prim.Native.Nat.{ℕ, ◌+◌, ◌-◌, ◌*◌, ◌/◌, ◌%◌, ◌^◌, ◌<◌}
use mathlib.Core.List.{List, ◌∷◌}
use mathlib.Core.Option.{Option, none, some}
use piiat_mem.Prelude.Tests.{ltb, if◌then◌else◌}

abbrev pub IsByte : ℕ → Type 0
IsByte b = b < 256

abbrev pub IsU64 : ℕ → Type 0
IsU64 n = n < 2 ^ 64

abbrev pub u8 : ℕ → ℕ
u8 n = n % 2 ^ 8

abbrev pub u32 : ℕ → ℕ
u32 n = n % 2 ^ 32

abbrev pub u64 : ℕ → ℕ
u64 n = n % 2 ^ 64

-- uint64 subtraction: the modulus is added first, since `-` stops at 0.
abbrev pub sub64 : ℕ → ℕ → ℕ
sub64 a b = u64 (a + 2 ^ 64 - b)

-- `binary.LittleEndian.Uint16`, `Uint32` and `Uint64` of a slice; `none` where Go panics, on a
-- slice that is too short.
unfoldable pub le16 : List ℕ → Option ℕ
le16 (a ∷ b ∷ rest) = some (a + 2 ^ 8 * b)
le16 _ = none

unfoldable pub le32 : List ℕ → Option ℕ
le32 (a ∷ b ∷ c ∷ d ∷ rest) = some (a + 2 ^ 8 * b + 2 ^ 16 * c + 2 ^ 24 * d)
le32 _ = none

-- The number that eight bytes, lowest first, stand for.
abbrev pub word64 : ℕ → ℕ → ℕ → ℕ → ℕ → ℕ → ℕ → ℕ → ℕ
word64 a b c d e f g h =
    a + 2 ^ 8 * b + 2 ^ 16 * c + 2 ^ 24 * d + 2 ^ 32 * e + 2 ^ 40 * f + 2 ^ 48 * g + 2 ^ 56 * h

unfoldable pub le64 : List ℕ → Option ℕ
le64 (a ∷ b ∷ c ∷ d ∷ e ∷ f ∷ g ∷ h ∷ rest) = some (word64 a b c d e f g h)
le64 _ = none

-- `binary.LittleEndian.PutUint64`, as the eight bytes that it writes.
abbrev pub put_le64 : ℕ → List ℕ → List ℕ
put_le64 x rest =
    x % 256
    ∷ x / 2 ^ 8 % 256
    ∷ x / 2 ^ 16 % 256
    ∷ x / 2 ^ 24 % 256
    ∷ x / 2 ^ 32 % 256
    ∷ x / 2 ^ 40 % 256
    ∷ x / 2 ^ 48 % 256
    ∷ x / 2 ^ 56 % 256
    ∷ rest

-- `uint64(int64(d))` of an `int32` d given by its 32-bit pattern: the sign is extended.
abbrev pub sign_extend32 : ℕ → ℕ
sign_extend32 d = if ltb d (2 ^ 31) then d else d + (2 ^ 64 - 2 ^ 32)

-- `int32(int8(b))` of a byte, as a 32-bit pattern.
abbrev pub sign_extend8 : ℕ → ℕ
sign_extend8 b = if ltb b 128 then b else b + (2 ^ 32 - 2 ^ 8)
