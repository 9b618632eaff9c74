-- ===== src/Tx/Serialize.antt =====
-- btc-tx.js: `varint`, `u32`, `u64`, `serialize`. A transaction's id is the 32
-- bytes of its display text. Numbers are non-negative integers.
use lijox_lnd_adapter.Prelude.{
  ℕ, ◌/◌, ◌%◌, ltb, leb, if◌then◌else◌, ◌&&◌, Bool, true, false, Option, none, some, List, [], ◌∷◌,
  ◌++◌, length,
}
use mathlib.Core.List.{reverse}
use lijox_lnd_adapter.Wire.Format.{Bytes}
use lijox_lnd_adapter.Wire.Laws.{concat, join}

abbrev pub le16 : ℕ → Bytes
le16 v = v % 256 ∷ v / 256 ∷ []

abbrev pub le32 : ℕ → Bytes
le32 v = v % 256 ∷ v / 256 % 256 ∷ v / 65536 % 256 ∷ v / 16777216 ∷ []

abbrev pub le64 : ℕ → Bytes
le64 v = le32 (v % 4294967296) ++ le32 (v / 4294967296)

-- varint; a length never reaches 2 ^ 64
unfoldable pub varint : ℕ → Bytes
varint n =
    if ltb n 253
    then n ∷ []
    else if leb n 65535
    then 253 ∷ le16 n
    else if leb n 4294967295
    then 254 ∷ le32 n
    else 255 ∷ le64 n

-- u32: `n >>> 0` keeps the low 32 bits.
unfoldable pub u32 : ℕ → Bytes
u32 n = le32 (n % 4294967296)

pub record TxIn : Type 0 where
  pub txid : Bytes
  pub vout : ℕ
  pub sequence : Option ℕ
  pub witness : List Bytes

pub record TxOut : Type 0 where
  pub value : ℕ
  pub script : Bytes

pub record Tx : Type 0 where
  pub version : Option ℕ
  pub locktime : ℕ
  pub inputs : List TxIn
  pub outputs : List TxOut

-- `x == null ? d : x`
abbrev pub or_default : ℕ → Option ℕ → ℕ
or_default d none = d
or_default d (some n) = n

abbrev pub final_sequence : ℕ
final_sequence = 4294967295

unfoldable pub input_bytes : TxIn → Bytes
input_bytes i =
    join (reverse i.txid ∷ u32 i.vout ∷ varint 0 ∷ u32 (or_default final_sequence i.sequence) ∷ [])

unfoldable pub bytes_of : Bytes → Bytes
bytes_of b = varint (length b) ++ b

unfoldable pub output_bytes : TxOut → Bytes
output_bytes o = le64 o.value ++ bytes_of o.script

unfoldable pub witness_bytes : TxIn → Bytes
witness_bytes i = varint (length i.witness) ++ concat bytes_of i.witness

-- `i.witness && i.witness.length`
abbrev pub is_signed : TxIn → Bool
is_signed i = ltb 0 (length i.witness)

unfoldable pub any_signed : List TxIn → Bool
any_signed [] = false
any_signed (i ∷ is) = let rest = any_signed is in if is_signed i then true else rest

-- u64 throws where a value does not fit.
unfoldable pub all_fit : List TxOut → Bool
all_fit [] = true
all_fit (o ∷ os) = leb o.value 18446744073709551615 && all_fit os

-- `if (hasW)`, the marker and the witnesses.
unfoldable pub marker_bytes : Bool → Bytes
marker_bytes true = 0 ∷ 1 ∷ []
marker_bytes false = []

unfoldable pub witnesses_bytes : Bool → List TxIn → Bytes
witnesses_bytes true is = concat witness_bytes is
witnesses_bytes false is = []

unfoldable pub tx_bytes : Bool → Tx → Bytes
tx_bytes has_witness tx = join (
    u32 (or_default 2 tx.version)
    ∷ marker_bytes has_witness
    ∷ varint (length tx.inputs)
    ∷ concat input_bytes tx.inputs
    ∷ varint (length tx.outputs)
    ∷ concat output_bytes tx.outputs
    ∷ witnesses_bytes has_witness tx.inputs
    ∷ u32 tx.locktime
    ∷ [])

-- serialize
unfoldable pub serialize : Tx → Bool → Option Bytes
serialize tx with_witness =
    if all_fit tx.outputs then some (tx_bytes (with_witness && any_signed tx.inputs) tx) else none
