-- ===== src/Address.antt =====
-- An address and a port as `format!("{}:{}")` prints them, in host/src/main.rs and
-- host/src/transport/tcp.rs.
use ord.Prelude.{ℕ, zero, suc, ◌/◌, ◌%◌, List, [], ◌∷◌, ltb, if◌then◌else◌}
use Prim.Native.String.{String, ◌++◌ as str_append}

abbrev digit : List String → ℕ → String
digit [] n = ""
digit (d ∷ ds) zero = d
digit (d ∷ ds) (suc n) = digit ds n

abbrev decimal : List String
decimal = "0" ∷ "1" ∷ "2" ∷ "3" ∷ "4" ∷ "5" ∷ "6" ∷ "7" ∷ "8" ∷ "9" ∷ []

-- A number of at most `k` digits, as it is printed.
abbrev digits : ℕ → ℕ → String
digits zero n = ""
digits (suc k) n =
    let front = digits k (n / 10) in
    if ltb n 10 then digit decimal n else str_append front (digit decimal (n % 10))

-- A u16 has at most five digits.
abbrev pub address : String → ℕ → String
address ip port = str_append ip (str_append ":" (digits 5 port))
