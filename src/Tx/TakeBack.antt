-- ===== src/Tx/TakeBack.antt =====
-- btc-tx.js: `weight`, `vsize`, `txid`, `sighashBip143` and `buildTakeBack`. `sha` is SHA-256 and `sign` the
-- DER signature with its type byte, by the key of the take-back. A rate is in sat per 1000 vbytes.
use lijox_lnd_adapter.Prelude.{
  ℕ, suc, ◌+◌, ◌-◌, ◌*◌, ◌/◌, ltb, if◌then◌else◌, Bool, false, Option, none, some, List, [], ◌∷◌,
  ◌++◌, length,
}
use mathlib.Core.List.{reverse}
use lijox_lnd_adapter.Wire.Format.{Bytes}
use lijox_lnd_adapter.Wire.Laws.{concat, join}
use lijox_lnd_adapter.Tx.Serialize.{
  le64, u32, bytes_of, TxIn, Tx, or_default, final_sequence, output_bytes, any_signed, tx_bytes,
}

-- The length of `serialize(tx, with_witness)`, where every value fits.
unfoldable pub size : Bool → Tx → ℕ
size with_witness tx = length (tx_bytes with_witness tx)

-- weight
unfoldable pub weight : Tx → ℕ
unfolding size
weight tx = size false tx * 3 + size (any_signed tx.inputs) tx

-- vsize: `Math.ceil(weight / 4)`
unfoldable pub vsize : Tx → ℕ
unfolding weight
vsize tx = (weight tx + 3) / 4

unfoldable pub outpoint_bytes : TxIn → Bytes
outpoint_bytes i = reverse i.txid ++ u32 i.vout

unfoldable pub sequence_bytes : TxIn → Bytes
sequence_bytes i = u32 (or_default final_sequence i.sequence)

-- sighashBip143 of the input `i`, with SIGHASH_ALL
unfoldable pub sighash : (Bytes → Bytes) → Tx → TxIn → Bytes → ℕ → Bytes
sighash sha tx i code value = sha (
    sha (
      join (
        u32 (or_default 2 tx.version)
        ∷ sha (sha (concat outpoint_bytes tx.inputs))
        ∷ sha (sha (concat sequence_bytes tx.inputs))
        ∷ outpoint_bytes i
        ∷ bytes_of code
        ∷ le64 value
        ∷ sequence_bytes i
        ∷ sha (sha (concat output_bytes tx.outputs))
        ∷ u32 tx.locktime
        ∷ u32 1
        ∷ [])))

-- txid
unfoldable pub txid : (Bytes → Bytes) → Tx → Bytes
txid sha tx = reverse (sha (sha (tx_bytes false tx)))

-- The arguments of buildTakeBack.
pub record Lock : Type 0 where
  pub txid : Bytes
  pub vout : ℕ
  pub value : ℕ
  pub script : Bytes
  pub t : ℕ
  pub dest : Bytes

abbrev zeros : ℕ → Bytes
zeros ℕ.zero = []
zeros (suc n) = 48 ∷ zeros n

-- `Buffer.alloc(72, 0x30)`
abbrev pub placeholder : Bytes
placeholder = zeros 72

unfoldable pub lock_input : Lock → List Bytes → TxIn
lock_input k items = record {
  txid = k.txid;
  vout = k.vout;
  sequence = some 4294967293;
  witness = items;
}

-- `mk(fee)` with this witness
unfoldable pub spend_lock : Lock → ℕ → List Bytes → Tx
unfolding lock_input
spend_lock k fee items = record {
  version = some 2;
  locktime = k.t;
  inputs = lock_input k items ∷ [];
  outputs = record { value = k.value - fee; script = k.dest } ∷ [];
}

-- `Math.ceil(vb * rate)`
unfoldable pub fee_of : Lock → ℕ → ℕ
unfolding vsize spend_lock
fee_of k rate = (vsize (spend_lock k 0 (placeholder ∷ [] ∷ k.script ∷ [])) * rate + 999) / 1000

pub record Built : Type 0 where
  pub tx : Tx
  pub fee : ℕ

unfoldable pub signed_spend : (Bytes → Bytes) → (Bytes → Bytes) → Lock → ℕ → Tx
unfolding sighash spend_lock
signed_spend sha sign k fee =
    let bare = spend_lock k fee [] in
    spend_lock k fee
      (sign (sighash sha bare (lock_input k []) k.script k.value) ∷ [] ∷ k.script ∷ [])

-- buildTakeBack; `none` is the throw at less than dust
unfoldable pub build_take_back : (Bytes → Bytes) → (Bytes → Bytes) → Lock → ℕ → Option Built
unfolding fee_of signed_spend
build_take_back sha sign k rate =
    if ltb k.value (fee_of k rate + 546)
    then none
    else some (record { tx = signed_spend sha sign k (fee_of k rate); fee = fee_of k rate })
