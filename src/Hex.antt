-- ===== src/Hex.antt =====
-- Node's `buf.toString('hex')` and `Buffer.from(s, 'hex')`, as cooperative-chain-msg.js and
-- btc-tx.js (`hex`, `unhex`) use them. A text is the list of its character codes.
pub mod Laws
use lijox_lnd_adapter.Prelude.{
  ℕ, ◌+◌, ◌-◌, ◌*◌, ◌/◌, ◌%◌, ltb, leb, if◌then◌else◌, ◌&&◌, Bool, true, Option, none, some, List,
  [], ◌∷◌, is_some,
}

unfoldable pub hex_digit : ℕ → ℕ
hex_digit n = if ltb n 10 then n + 48 else n + 87

unfoldable pub hex : List ℕ → List ℕ
hex [] = []
hex (b ∷ bs) = hex_digit (b / 16) ∷ hex_digit (b % 16) ∷ hex bs

-- The value of a hexadecimal digit of either case.
unfoldable pub hex_value : ℕ → Option ℕ
hex_value c =
    if leb 48 c && leb c 57
    then some (c - 48)
    else if leb 97 c && leb c 102
    then some (c - 87)
    else if leb 65 c && leb c 70
    then some (c - 55)
    else none

abbrev pub unhex_pair : Option ℕ → Option ℕ → List ℕ → List ℕ
unhex_pair (some h) (some l) rest = (h * 16 + l) ∷ rest
unhex_pair _ _ rest = []

-- Node stops at the first pair that is not two digits, and drops a last odd digit.
unfoldable pub unhex : List ℕ → List ℕ
unhex (c ∷ d ∷ s) = unhex_pair (hex_value c) (hex_value d) (unhex s)
unhex _ = []

-- `/^[0-9a-f]*$/i`.
unfoldable pub all_hex : List ℕ → Bool
all_hex [] = true
all_hex (c ∷ s) = is_some (hex_value c) && all_hex s
