-- ===== src/Bytes.antt =====
-- Little-endian integers in byte lists, and the reads of a `Cursor` over a slice:
-- what host/src/protocol uses of byteorder's `ReadBytesExt` and `WriteBytesExt` and of `std::io`.
-- A byte is a number below 256, and a cursor is the list of the bytes that are still to be read.
pub mod Laws
use ord.Prelude.{ℕ, ◌+◌, ◌*◌, ◌/◌, ◌%◌, ◌^◌, ◌<◌, List, [], ◌∷◌, Option, none, some}
use ord.Prelude.{All}

abbrev pub IsByte : ℕ → Type 0
IsByte b = b < 256

abbrev pub IsBytes : List ℕ → Type 0
IsBytes = All IsByte

-- `write_u16::<LittleEndian>` and `write_u32::<LittleEndian>`: the bytes that are written.
unfoldable pub write_u16 : ℕ → List ℕ
write_u16 n = (n % 256) ∷ (n / 256 % 256) ∷ []

unfoldable pub write_u32 : ℕ → List ℕ
write_u32 n = (n % 256) ∷ (n / 256 % 256) ∷ (n / 65536 % 256) ∷ (n / 16777216 % 256) ∷ []

-- `read_u8`, `read_u16::<LittleEndian>`, `read_u32::<LittleEndian>`; `none` is `UnexpectedEof`.
unfoldable pub read_u8 : List ℕ → Option (ℕ × List ℕ)
read_u8 (b ∷ rest) = some (b, rest)
read_u8 [] = none

unfoldable pub read_u16 : List ℕ → Option (ℕ × List ℕ)
read_u16 (a ∷ b ∷ rest) = some (a + 256 * b, rest)
read_u16 _ = none

unfoldable pub read_u32 : List ℕ → Option (ℕ × List ℕ)
read_u32 (a ∷ b ∷ c ∷ d ∷ rest) = some (a + 256 * b + 65536 * c + 16777216 * d, rest)
read_u32 _ = none
