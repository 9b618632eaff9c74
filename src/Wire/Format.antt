-- ===== src/Wire/Format.antt =====
-- cooperative-chain-msg.js: bytes, the ways a call throws, and the big-endian numbers of Node's
-- Buffer (`writeUInt16BE` and its kin).
use lijox_lnd_adapter.Prelude.{ℕ, ◌+◌, ◌*◌, ◌/◌, ◌%◌, ◌≡◌, List, [], ◌∷◌, ◌++◌, arith}

-- A Buffer's contents. Each element is a byte, which nothing here relies on.
abbrev pub Bytes : Type 0
Bytes = List ℕ

-- What an encoder or a decoder throws.
pub data Error : Type 0 where
  out_of_range : Error
  too_long : Error
  too_many : Error
  bad_length : Error
  bad_name : Error
  bad_field : Error
  short_read : Error
  bad_version : ℕ → Error
  bad_option : ℕ → Error
  bad_byte : ℕ → Error

pub data Result {ℓ} (A : Type ℓ) : Type ℓ where
  ok : A → Result A
  err : Error → Result A

abbrev pub be16 : ℕ → Bytes
be16 v = v / 256 ∷ v % 256 ∷ []

abbrev pub be32 : ℕ → Bytes
be32 v = v / 16777216 ∷ v / 65536 % 256 ∷ v / 256 % 256 ∷ v % 256 ∷ []

abbrev pub be64 : ℕ → Bytes
be64 v = be32 (v / 4294967296) ++ be32 (v % 4294967296)

abbrev pub of_be16 : ℕ → ℕ → ℕ
of_be16 a b = a * 256 + b

abbrev pub of_be32 : ℕ → ℕ → ℕ → ℕ → ℕ
of_be32 a b c d = a * 16777216 + b * 65536 + c * 256 + d

pub of_be16_lem : (v : ℕ) → of_be16 (v / 256) (v % 256) ≡ v
of_be16_lem v = omega arith

pub of_be32_lem : (v : ℕ) → of_be32 (v / 16777216) (v / 65536 % 256) (v / 256 % 256) (v % 256) ≡ v
of_be32_lem v = omega arith

pub of_be64_lem : (v : ℕ) → v / 4294967296 * 4294967296 + v % 4294967296 ≡ v
of_be64_lem v = omega arith
