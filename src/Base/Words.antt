-- ===== src/Base/Words.antt =====
-- Bytes, and `binary.LittleEndian` on byte lists: uint16 and uint32 fields of a buffer.
use Prim.Native.Nat.{ℕ, ◌+◌, ◌*◌, ◌/◌, ◌%◌, ◌<◌}
use mathlib.Core.Path.{◌≡◌}
use mathlib.Core.List.{List, ◌∷◌}
use native.Mathlib.Omega.{arith}
use qmi_go.Base.Lists.{get_or}

abbrev pub IsByte : ℕ → Type 0
IsByte b = b < 256

abbrev pub IsU16 : ℕ → Type 0
IsU16 v = v < 65536

abbrev pub IsU32 : ℕ → Type 0
IsU32 v = v < 4294967296

-- `data[i]`; the callers check the length first.
abbrev pub byte_at : List ℕ → ℕ → ℕ
byte_at bytes i = get_or bytes i 0

-- `binary.LittleEndian.Uint16(data[i:i+2])`
abbrev pub u16_at : List ℕ → ℕ → ℕ
u16_at bytes i = byte_at bytes i + 256 * byte_at bytes (i + 1)

-- `binary.LittleEndian.Uint32(data[i:i+4])`
abbrev pub u32_at : List ℕ → ℕ → ℕ
u32_at bytes i = u16_at bytes i + 65536 * u16_at bytes (i + 2)

-- `byte(v)` and `byte(v >> 8)`, which `PutUint16` writes.
abbrev pub low_byte : ℕ → ℕ
low_byte v = v % 256

abbrev pub high_byte : ℕ → ℕ
high_byte v = v / 256 % 256

pub u16_bytes : (v : ℕ) → IsU16 v → low_byte v + 256 * high_byte v ≡ v
u16_bytes v h = omega arith

-- `binary.LittleEndian.PutUint32` in front of the bytes that follow.
abbrev pub put_u32 : ℕ → List ℕ → List ℕ
put_u32 v rest = (v % 256) ∷ (v / 256 % 256) ∷ (v / 65536 % 256) ∷ (v / 16777216 % 256) ∷ rest

pub u32_parts :
    (v : ℕ)
    → IsU32 v
    → (v % 256 + 256 * (v / 256 % 256)) + 65536 * (v / 65536 % 256 + 256 * (v / 16777216 % 256)) ≡ v
u32_parts v h = omega arith
