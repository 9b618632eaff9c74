-- ===== src/Tx/Script.antt =====
-- btc-tx.js: `pushData`, `scriptNum`, `handoverScript` and `p2wshScriptPubKey`. Keys and hashes are
-- their bytes, `sha` is SHA-256. A script number is not negative here, and a push is shorter than
-- 2 ^ 16 bytes, above which the source throws.
use lijox_lnd_adapter.Prelude.{
  ℕ, zero, suc, ◌+◌, ◌/◌, ◌%◌, ltb, leb, ◌==◌, if◌then◌else◌, ◌&&◌, ◌||◌, not, Option, none, some,
  [], ◌∷◌, ◌++◌, length,
}
use lijox_lnd_adapter.Wire.Format.{Bytes}
use lijox_lnd_adapter.Wire.Laws.{join}
use lijox_lnd_adapter.Tx.Serialize.{le16}

-- pushData
unfoldable pub push_data : Bytes → Bytes
push_data d =
    if ltb (length d) 76
    then length d ∷ d
    else if leb (length d) 255
    then 76 ∷ length d ∷ d
    else 77 ∷ (le16 (length d) ++ d)

-- `while (v > 0) { out.push(v & 0xff); v = Math.floor(v / 256); }`
unfoldable pub digits : ℕ → ℕ → Bytes
digits zero v = []
digits (suc fuel) v = let rest = digits fuel (v / 256) in if v == 0 then [] else v % 256 ∷ rest

abbrev pub last_byte : Bytes → ℕ
last_byte [] = 0
last_byte (b ∷ []) = b
last_byte (b ∷ c ∷ r) = last_byte (c ∷ r)

-- The byte that keeps the number positive.
unfoldable pub with_sign : Bytes → Bytes
with_sign b = if leb 128 (last_byte b) then b ++ 0 ∷ [] else b

-- scriptNum
unfoldable pub script_num : ℕ → Bytes
unfolding digits with_sign push_data
script_num n =
    if n == 0
    then 0 ∷ []
    else if leb n 16
    then (80 + n) ∷ []
    else push_data (with_sign (digits n n))

-- handoverScript; `none` is a throw
unfoldable pub handover_script : Bytes → Bytes → Bytes → ℕ → Option Bytes
unfolding script_num push_data
handover_script h w l t =
    if not (length h == 32)
      || (not (length w == 33) || not (length l == 33) || not (ltb 0 t && ltb t 500000000))
    then none
    else some (
        join (
          (130 ∷ [])
          ∷ script_num 32
          ∷ (135 ∷ 99 ∷ 168 ∷ [])
          ∷ push_data h
          ∷ (136 ∷ [])
          ∷ push_data w
          ∷ (103 ∷ 117 ∷ [])
          ∷ script_num t
          ∷ (177 ∷ 117 ∷ [])
          ∷ push_data l
          ∷ (104 ∷ 172 ∷ [])
          ∷ []))

-- p2wshScriptPubKey
unfoldable pub p2wsh : (Bytes → Bytes) → Bytes → Bytes
p2wsh sha script = 0 ∷ 32 ∷ sha script
