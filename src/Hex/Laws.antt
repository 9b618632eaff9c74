-- ===== src/Hex/Laws.antt =====
-- Reading back what was written in hexadecimal, both ways.
use lijox_lnd_adapter.Prelude.{
  ℕ, ◌-◌, ◌*◌, ◌/◌, ◌%◌, ◌<◌, ◌≤◌, ◌≡◌, ◌⊎◌, inl, inr, refl, ap, ap₂, ◌∙◌, List, [], ◌∷◌, arith,
  length, some, true,
}
use lijox_lnd_adapter.Hex.{hex_digit, hex, hex_value, unhex, all_hex}

-- Every element is a byte.
abbrev pub AllBytes : List ℕ → Type 0
AllBytes [] = Unit
AllBytes (b ∷ bs) = (b < 256) × AllBytes bs

-- `0`-`9` or `a`-`f`.
abbrev pub IsLowerHex : ℕ → Type 0
IsLowerHex c = ((48 ≤ c) × (c ≤ 57)) ⊎ ((97 ≤ c) × (c ≤ 102))

abbrev pub AllLowerHex : List ℕ → Type 0
AllLowerHex [] = Unit
AllLowerHex (c ∷ s) = IsLowerHex c × AllLowerHex s

hex_value-hex_digit : (n : ℕ) → n < 16 → hex_value (hex_digit n) ≡ some n
unfolding hex_value hex_digit
hex_value-hex_digit n h = ground arith

pub unhex-hex : (bs : List ℕ) → AllBytes bs → unhex (hex bs) ≡ bs
unfolding unhex hex
unhex-hex [] h = refl
unhex-hex (b ∷ bs) h =
    rw (hex_value-hex_digit (b / 16) (omega arith), hex_value-hex_digit (b % 16) (omega arith))
      (ap₂ (λ x xs. x ∷ xs) (omega arith) (unhex-hex bs h.1))

hex_digit-hex_value :
    (c : ℕ) → IsLowerHex c → (v : ℕ) × (hex_value c ≡ some v) × (v < 16) × (hex_digit v ≡ c)
unfolding hex_value hex_digit
hex_digit-hex_value c (inl h) = (c - 48, ground arith, omega arith, ground arith)
hex_digit-hex_value c (inr h) = (c - 87, ground arith, omega arith, ground arith)

pub hex-unhex : (n : ℕ) (s : List ℕ) → length s ≡ 2 * n → AllLowerHex s → hex (unhex s) ≡ s
unfolding unhex hex
hex-unhex n [] e h = refl
hex-unhex n (c ∷ []) e h = absurd (omega arith)
hex-unhex n (c ∷ d ∷ s) e h =
    let (v, hv, lv, dv) = hex_digit-hex_value c h.0 in
    let (u, hu, lu, du) = hex_digit-hex_value d h.1.0 in
    let rest : hex (unhex s) ≡ s = hex-unhex (n - 1) s (omega arith) h.1.1 in
    rw (hv, hu)
      (ap₂ (λ x xs. x ∷ xs) (ap hex_digit (omega arith) ∙ dv)
        (ap₂ (λ x xs. x ∷ xs) (ap hex_digit (omega arith) ∙ du) rest))

-- A 64-digit display hash is 32 bytes.
pub length-unhex : (n : ℕ) (s : List ℕ) → length s ≡ 2 * n → AllLowerHex s → length (unhex s) ≡ n
unfolding unhex
length-unhex n [] e h = omega arith
length-unhex n (c ∷ []) e h = absurd (omega arith)
length-unhex n (c ∷ d ∷ s) e h =
    let (v, hv, lv, dv) = hex_digit-hex_value c h.0 in
    let (u, hu, lu, du) = hex_digit-hex_value d h.1.0 in
    let rest : length (unhex s) ≡ n - 1 = length-unhex (n - 1) s (omega arith) h.1.1 in
    rw (hv, hu) (omega arith)

pub all_hex-AllLowerHex : (s : List ℕ) → AllLowerHex s → all_hex s ≡ true
unfolding all_hex
all_hex-AllLowerHex [] h = refl
all_hex-AllLowerHex (c ∷ s) h =
    let (v, hv, lv, dv) = hex_digit-hex_value c h.0 in rw (hv, all_hex-AllLowerHex s h.1)
