-- ===== src/Tx/Fees.antt =====
-- The take-back of btc-tx.js pays its rate, keeps the sats together and waits for its block.
use mathlib.Core.Path.{subst}
use lijox_lnd_adapter.Prelude.{
  ℕ, ◌+◌, ◌-◌, ◌*◌, ◌≤◌, ◌<◌, ◌≡◌, refl, lt→ltb, ltb, ltb→le, Bool-cases, inl, inr, true, false,
  none, some, [], ◌∷◌, ◌++◌, length, length-append, arith,
}
use lijox_lnd_adapter.Wire.Format.{Bytes}
use lijox_lnd_adapter.Wire.Laws.{concat, join}
use lijox_lnd_adapter.Tx.Serialize.{
  varint, u32, bytes_of, TxIn, Tx, or_default, final_sequence, input_bytes, output_bytes,
  witness_bytes, any_signed, marker_bytes, witnesses_bytes, tx_bytes,
}
use lijox_lnd_adapter.Tx.TakeBack.{
  size, weight, vsize, Lock, placeholder, lock_input, spend_lock, fee_of, Built, signed_spend,
  sighash, build_take_back,
}

abbrev spend : Lock → ℕ → Bytes → Tx
spend k fee s = spend_lock k fee (s ∷ [] ∷ k.script ∷ [])

parts :
    (a b c d e w : Bytes)
    → length (join (a ∷ (0 ∷ 1 ∷ []) ∷ b ∷ c ∷ b ∷ d ∷ (w ++ []) ∷ e ∷ []))
      ≡ length (join (a ∷ [] ∷ b ∷ c ∷ b ∷ d ∷ [] ∷ e ∷ [])) + 2 + length w
parts a b c d e w = simp length-append (omega arith)

varint_short : (n : ℕ) → n < 253 → varint n ≡ n ∷ []
unfolding varint
varint_short n l = rw (lt→ltb n 253 l)

-- The witness and its marker are what a signed transaction has more.
size-signed :
    (k : Lock) (fee : ℕ) (s : Bytes)
    → size true (spend k fee s)
      ≡ size false (spend k fee s)
        + 2
        + length (witness_bytes (lock_input k (s ∷ [] ∷ k.script ∷ [])))
unfolding size spend_lock tx_bytes marker_bytes witnesses_bytes
size-signed k fee s =
    let tx = spend k fee s in
    parts (u32 2) (varint 1) (concat input_bytes tx.inputs) (concat output_bytes tx.outputs)
      (u32 k.t) (witness_bytes (lock_input k (s ∷ [] ∷ k.script ∷ [])))

base-same :
    (k : Lock) (fee fee' : ℕ) (s p : Bytes)
    → size false (spend k fee s) ≡ size false (spend k fee' p)
unfolding size spend_lock lock_input tx_bytes marker_bytes witnesses_bytes output_bytes u32 varint
    input_bytes
base-same k fee fee' s p = omega (arith, length-append {0})

-- A signature that is no longer than the placeholder makes the witness no longer.
witness-le :
    (k : Lock) (s p : Bytes)
    → length s ≤ length p
    → length p < 253
    → length (witness_bytes (lock_input k (s ∷ [] ∷ k.script ∷ [])))
      ≤ length (witness_bytes (lock_input k (p ∷ [] ∷ k.script ∷ [])))
unfolding witness_bytes lock_input bytes_of
witness-le k s p h b =
    rw (varint_short (length s) (omega arith), varint_short (length p) b)
      (simp length-append (omega arith))

vsize-le :
    (k : Lock) (fee : ℕ) (s : Bytes)
    → length s ≤ 72
    → vsize (spend k fee s) ≤ vsize (spend k 0 placeholder)
unfolding vsize weight any_signed spend_lock
vsize-le k fee s h =
    let w = witness-le k s placeholder h (omega arith) in
    omega (arith, size-signed k fee s, size-signed k 0 placeholder, base-same k fee 0 s placeholder)

-- The lock's output is the only input, with the signature and the script as its witness, and
-- its sequence leaves the lock time in force.
abbrev pub SpendsOnly : Lock → Bytes → Tx → Type 0
SpendsOnly k signature tx =
    (i : TxIn) × (tx.inputs ≡ i ∷ [])
    × (i.txid ≡ k.txid)
    × (i.vout ≡ k.vout)
    × (or_default final_sequence i.sequence < final_sequence)
    × (i.witness ≡ signature ∷ [] ∷ k.script ∷ [])

abbrev signature_of : (Bytes → Bytes) → (Bytes → Bytes) → Lock → ℕ → Bytes
signature_of sha sign k fee =
    sign (sighash sha (spend_lock k fee []) (lock_input k []) k.script k.value)

abbrev PaysRight : (Bytes → Bytes) → (Bytes → Bytes) → Lock → ℕ → Built → Type 0
PaysRight sha sign k rate b =
    SpendsOnly k (signature_of sha sign k b.fee) b.tx
    × (b.tx.locktime ≡ k.t)
    × (b.tx.outputs ≡ record { value = k.value - b.fee; script = k.dest } ∷ [])
    × (b.fee + 546 ≤ k.value)
    × (vsize b.tx * rate ≤ b.fee * 1000)

abbrev made : (Bytes → Bytes) → (Bytes → Bytes) → Lock → ℕ → Built
made sha sign k rate = record { tx = signed_spend sha sign k (fee_of k rate); fee = fee_of k rate }

fee_of-covers :
    (k : Lock) (rate fee : ℕ) (s : Bytes)
    → length s ≤ 72
    → vsize (spend k fee s) * rate ≤ fee_of k rate * 1000
fee_of-covers k rate fee s h =
    let most =
      mul_mono (vsize (spend k fee s)) (vsize (spend k 0 placeholder)) rate (vsize-le k fee s h) in
    unfold fee_of in omega (arith, most)
  where
    mul_mono : (a b c : ℕ) → a ≤ b → a * c ≤ b * c
    mul_mono a b c h = grind arith

spends_only : (k : Lock) (fee : ℕ) (s : Bytes) → SpendsOnly k s (spend k fee s)
unfolding spend_lock lock_input
spends_only k fee s = (lock_input k (s ∷ [] ∷ k.script ∷ []), refl, refl, refl, omega arith, refl)

made_pays :
    (sha sign : Bytes → Bytes) (k : Lock) (rate : ℕ)
    → ((m : Bytes) → length (sign m) ≤ 72)
    → ltb k.value (fee_of k rate + 546) ≡ false
    → PaysRight sha sign k rate (made sha sign k rate)
made_pays sha sign k rate l enough = (
  unfold signed_spend in spends_only k (fee_of k rate) _,
  unfold signed_spend in refl,
  unfold signed_spend in refl,
  ltb→le k.value (fee_of k rate + 546) enough,
  unfold signed_spend in fee_of-covers k rate (fee_of k rate) _ (l _),
)

-- A built take-back has one input, the lock's outpoint, with the key's signature of its sighash and
-- the lock's script as the witness. Its lock time is the lock's block, and its sequence is below the
-- final one, so that the lock time holds. It pays the lock's sats less the fee, at least 546, to the
-- given script and nothing else; and where no signature is longer than 72 bytes, the fee is at least
-- the rate for the signed transaction's virtual size.
pub build_take_back-pays :
    (sha sign : Bytes → Bytes) (k : Lock) (rate : ℕ) (b : Built)
    → build_take_back sha sign k rate ≡ some b
    → ((m : Bytes) → length (sign m) ≤ 72)
    → SpendsOnly k
        (sign (sighash sha (spend_lock k b.fee []) (lock_input k []) k.script k.value))
        b.tx
      × (b.tx.locktime ≡ k.t)
      × (b.tx.outputs ≡ record { value = k.value - b.fee; script = k.dest } ∷ [])
      × (b.fee + 546 ≤ k.value)
      × (vsize b.tx * rate ≤ b.fee * 1000)
build_take_back-pays sha sign k rate b h l = elim (Bool-cases (ltb k.value (fee_of k rate + 546))) [
  | inl dust ↦ let none_made : none ≡ some b = unfold build_take_back in rw dust at h in cc
  | inr enough ↦
      let same : some (made sha sign k rate) ≡ some b = unfold build_take_back in rw enough at h in
      let e : made sha sign k rate ≡ b = cc in
      subst (PaysRight sha sign k rate) e (made_pays sha sign k rate l enough)
]
