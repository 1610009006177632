-- ===== src/Bytes/Laws.antt =====
-- What is written is read back, and what is read was written so.
use ord.Prelude.{ℕ, ◌+◌, ◌*◌, ◌^◌, ◌<◌, ◌≡◌, List, [], ◌∷◌, ◌++◌, some, arith}
use ord.Bytes.{IsByte, IsBytes, write_u16, write_u32, read_u16, read_u32}

pub read_u16-write_u16 :
    (n : ℕ) (rest : List ℕ) → n < 2 ^ 16 → read_u16 (write_u16 n ++ rest) ≡ some (n, rest)
unfolding read_u16 write_u16
read_u16-write_u16 n rest h = ground arith

pub read_u32-write_u32 :
    (n : ℕ) (rest : List ℕ) → n < 2 ^ 32 → read_u32 (write_u32 n ++ rest) ≡ some (n, rest)
unfolding read_u32 write_u32
read_u32-write_u32 n rest h = ground arith

pub write_u16-le : (a b : ℕ) → IsByte a → IsByte b → write_u16 (a + 256 * b) ≡ a ∷ b ∷ []
unfolding write_u16
write_u16-le a b ha hb = ground arith

pub write_u32-le :
    (a b c d : ℕ)
    → IsByte a
    → IsByte b
    → IsByte c
    → IsByte d
    → write_u32 (a + 256 * b + 65536 * c + 16777216 * d) ≡ a ∷ b ∷ c ∷ d ∷ []
unfolding write_u32
write_u32-le a b c d ha hb hc hd = ground arith

pub write_u16-IsBytes : (n : ℕ) → IsBytes (write_u16 n)
unfolding write_u16
write_u16-IsBytes n = omega arith

pub write_u32-IsBytes : (n : ℕ) → IsBytes (write_u32 n)
unfolding write_u32
write_u32-IsBytes n = omega arith
