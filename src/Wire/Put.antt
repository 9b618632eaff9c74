-- ===== src/Wire/Put.antt =====
-- cooperative-chain-msg.js: class Writer, and the field helpers that write. A writer is the
-- concatenation of its chunks; a call returns the longer writer or throws.
use lijox_lnd_adapter.Prelude.{
  ℕ, ltb, if◌then◌else◌, ◌==◌, Option, none, some, List, [], ◌∷◌, ◌++◌, length,
}
use lijox_lnd_adapter.Wire.Format.{
  Bytes, Result, ok, err, be16, be32, be64, out_of_range, too_long, bad_length,
}

abbrev pub Put : Type 0
Put = Bytes → Result Bytes

abbrev pub and_then : Result Bytes → Put → Result Bytes
and_then (ok w) q = q w
and_then (err e) q = err e

infixr 5 ◌>>◌
unfoldable pub ◌>>◌ : Put → Put → Put
◌>>◌ p q w = and_then (p w) q

abbrev pub max_raw_tx_bytes : ℕ
max_raw_tx_bytes = 1000000

unfoldable pub put_bytes : Bytes → Put
put_bytes b w = ok (w ++ b)

unfoldable pub put_u8 : ℕ → Put
put_u8 v w = if ltb 255 v then err out_of_range else ok (w ++ v ∷ [])

unfoldable pub put_u16 : ℕ → Put
put_u16 v w = if ltb 65535 v then err out_of_range else ok (w ++ be16 v)

unfoldable pub put_u32 : ℕ → Put
put_u32 v w = if ltb 4294967295 v then err out_of_range else ok (w ++ be32 v)

unfoldable pub put_u64 : ℕ → Put
put_u64 v w = if ltb 18446744073709551615 v then err out_of_range else ok (w ++ be64 v)

-- `new Writer()` and `finish()`.
unfoldable pub run_put : Put → Result Bytes
run_put p = p []

abbrev pub protocol_version : ℕ
protocol_version = 2

unfoldable pub write_version : Put
write_version = put_u8 protocol_version

unfoldable pub write_bytes_u16 : Bytes → Put
write_bytes_u16 b =
    if ltb 65535 (length b) then (λ w. err too_long) else put_u16 (length b) >> put_bytes b

unfoldable pub write_bytes_u32 : Bytes → ℕ → Put
write_bytes_u32 b max =
    if ltb max (length b) then (λ w. err too_long) else put_u32 (length b) >> put_bytes b

unfoldable pub write_hash32 : Bytes → Put
write_hash32 h = if length h == 32 then put_bytes h else λ w. err bad_length

unfoldable pub write_pubkey : Bytes → Put
write_pubkey pk = if length pk == 33 then put_bytes pk else λ w. err bad_length

-- The two clauses of `value === null || value === undefined`.
unfoldable pub write_option : {A : Type 0} → Option A → (A → Put) → Put
write_option none inner = put_u8 0
write_option (some a) inner = put_u8 1 >> inner a

-- `for (const x of xs) write(w, x)`.
unfoldable pub write_each : {A : Type 0} → List A → (A → Put) → Put
write_each [] inner w = ok w
write_each (x ∷ xs) inner w = and_then (inner x w) (write_each xs inner)
