-- ===== src/Wire/Get.antt =====
-- cooperative-chain-msg.js: class Reader, and the field helpers that read. A reader is what is
-- left of the buffer, `buf.slice(offset)`; `_need(n)` is then `n <= length`.
use lijox_lnd_adapter.Prelude.{
  ℕ, zero, suc, ◌+◌, ◌*◌, ltb, leb, if◌then◌else◌, ◌==◌, Option, none, some, List, [], ◌∷◌, length,
  take, drop,
}
use lijox_lnd_adapter.Wire.Format.{
  Bytes, Result, ok, err, of_be16, of_be32, short_read, too_long, bad_version, bad_option,
}
use lijox_lnd_adapter.Wire.Put.{protocol_version}

abbrev pub Get : Type 0 → Type 0
Get A = Bytes → Result (A × Bytes)

abbrev pub continue : {A B : Type 0} → Result (A × Bytes) → (A → Get B) → Result (B × Bytes)
continue (ok (a, r)) f = f a r
continue (err e) f = err e

infixl 5 ◌>>=◌ ◌>>◌
unfoldable pub ◌>>=◌ : {A B : Type 0} → Get A → (A → Get B) → Get B
◌>>=◌ m f r = continue (m r) f

abbrev pub ◌>>◌ : {A B : Type 0} → Get A → Get B → Get B
m >> k = m >>= λ _. k

unfoldable pub pure : {A : Type 0} → A → Get A
pure a r = ok (a, r)

unfoldable pub get_bytes : ℕ → Get Bytes
get_bytes n r = if leb n (length r) then ok (take n r, drop n r) else err short_read

unfoldable pub get_u8 : Get ℕ
get_u8 [] = err short_read
get_u8 (a ∷ r) = ok (a, r)

unfoldable pub get_u16 : Get ℕ
get_u16 (a ∷ b ∷ r) = ok (of_be16 a b, r)
get_u16 _ = err short_read

unfoldable pub get_u32 : Get ℕ
get_u32 (a ∷ b ∷ c ∷ d ∷ r) = ok (of_be32 a b c d, r)
get_u32 _ = err short_read

unfoldable pub get_u64 : Get ℕ
get_u64 (a ∷ b ∷ c ∷ d ∷ e ∷ f ∷ g ∷ h ∷ r) = ok (of_be32 a b c d * 4294967296 + of_be32 e f g h, r)
get_u64 _ = err short_read

-- `remaining()`.
unfoldable pub remaining : Get ℕ
remaining r = ok (length r, r)

-- A fresh reader over the whole buffer; what is left unread is dropped.
abbrev pub finished : {A : Type 0} → Result (A × Bytes) → Result A
finished (ok (a, r)) = ok a
finished (err e) = err e

unfoldable pub run_get : {A : Type 0} → Get A → Bytes → Result A
run_get m b = finished (m b)

unfoldable pub check_version : ℕ → Get (Unit {0})
check_version v r = if v == protocol_version then ok (tt, r) else err (bad_version v)

unfoldable pub read_version : Get (Unit {0})
read_version = get_u8 >>= check_version

unfoldable pub read_bytes_u16 : Get Bytes
read_bytes_u16 = get_u16 >>= get_bytes

unfoldable pub bounded : ℕ → ℕ → Get Bytes
bounded max len = if ltb max len then (λ r. err too_long) else get_bytes len

unfoldable pub read_bytes_u32 : ℕ → Get Bytes
unfolding bounded
read_bytes_u32 max = get_u32 >>= bounded max

unfoldable pub read_hash32 : Get Bytes
read_hash32 = get_bytes 32

unfoldable pub read_pubkey : Get Bytes
read_pubkey = get_bytes 33

unfoldable pub of_tag : {A : Type 0} → Get A → ℕ → Get (Option A)
of_tag inner tag =
    if tag == 0 then pure none else if tag == 1 then (inner >>= λ a. pure (some a)) else λ r.
    err (bad_option tag)

unfoldable pub read_option : {A : Type 0} → Get A → Get (Option A)
unfolding of_tag
read_option inner = get_u8 >>= of_tag inner

-- `for (let i = 0; i < n; i++) out.push(read(r))`.
unfoldable pub read_many : {A : Type 0} → ℕ → Get A → Get (List A)
read_many zero inner = pure []
read_many (suc n) inner = inner >>= λ a. read_many n inner >>= λ rest. pure (a ∷ rest)
