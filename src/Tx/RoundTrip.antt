-- ===== src/Tx/RoundTrip.antt =====
-- `serialize` and `parse` of btc-tx.js against map other.
use mathlib.Core.List.{map}
use mathlib.Core.Bool.{false≢true}
use lijox_lnd_adapter.Prelude.{
  ℕ, ◌<◌, ◌≡◌, refl, sym, ap, ap₂, ◌∙◌, ltb, leb, le→leb, Bool-cases, inl, inr, Bool, true, false,
  some, List, [], ◌∷◌, ◌++◌, append-nil, length, arith,
}
use lijox_lnd_adapter.Wire.Format.{Bytes, ok}
use lijox_lnd_adapter.Wire.Get.{◌>>=◌}
use lijox_lnd_adapter.Wire.Laws.{Reads, Reads-bind, All}
use lijox_lnd_adapter.Tx.Serialize.{
  varint, TxIn, TxOut, Tx, or_default, any_signed, all_fit, marker_bytes, tx_bytes, serialize,
}
use lijox_lnd_adapter.Tx.Parse.{Parsed, get_marker, get_body, get_tx, parse}
use lijox_lnd_adapter.Tx.Varint.{u32-Reads, IsSafe}
use lijox_lnd_adapter.Tx.Pieces.{
  IsOut, IsTx, bare_input, signed_input, seen, rest_bytes, body-Reads,
}

-- The first byte is not the marker's.
abbrev Starts : Bytes → Type 0
Starts [] = Unit
Starts (a ∷ r) = 0 < a

varint-Starts : (n : ℕ) (more rest : Bytes) → 0 < n → Starts ((varint n ++ more) ++ rest)
unfolding varint
varint-Starts n more rest h = elim (Bool-cases (ltb n 253)) [
  | inl one ↦ rw one h
  | inr more ↦ elim (Bool-cases (leb n 65535)) [
    | inl two ↦ rw (more, two) (omega arith)
    | inr above ↦ elim (Bool-cases (leb n 4294967295)) [
      | inl four ↦ rw (more, above, four) (omega arith)
      | inr eight ↦ rw (more, above, eight) (omega arith)
    ]
  ]
]

get_marker-Starts : (allow : Bool) (bs : Bytes) → Starts bs → get_marker allow bs ≡ ok (false, bs)
unfolding get_marker
get_marker-Starts allow [] h = refl
get_marker-Starts allow (a ∷ []) h = refl
get_marker-Starts allow (a ∷ b ∷ r) h = ground arith

get_marker-barred : (bs : Bytes) → get_marker false bs ≡ ok (false, bs)
unfolding get_marker
get_marker-barred [] = refl
get_marker-barred (a ∷ []) = refl
get_marker-barred (a ∷ b ∷ r) = refl

get_marker-Reads : Reads (get_marker true) (marker_bytes true) true
unfolding get_marker marker_bytes
get_marker-Reads = record { at = λ rest. refl }

all_fit-IsOut : (os : List TxOut) → All IsOut os → all_fit os ≡ true
unfolding all_fit
all_fit-IsOut [] h = refl
all_fit-IsOut (o ∷ os) h =
    rw (le→leb o.value 18446744073709551615 (omega (arith, h.0.0))) (all_fit-IsOut os h.1)

-- Where no input has a witness it does not matter whether they are read.
unsigned-same : (is : List TxIn) → any_signed is ≡ false → map signed_input is ≡ map bare_input is
unfolding any_signed
unsigned-same [] h = refl
unsigned-same (i ∷ is) h = elim (Bool-cases (ltb 0 (length i.witness))) [
  | inl signed ↦ absurd (false≢true (sym h ∙ rw signed refl))
  | inr bare ↦
      ap₂ (λ w rest. record (bare_input i) { witness = w } ∷ rest) (is_empty i.witness bare)
        (unsigned-same is (sym (rw bare refl) ∙ h))
]
  where
    is_empty : (w : List Bytes) → ltb 0 (length w) ≡ false → w ≡ []
    is_empty [] p = refl
    is_empty (x ∷ w) p = ground arith

module _ (num : ℕ → ℕ) (exact : (n : ℕ) → IsSafe n → num n ≡ n) where
  past_marker :
      (allow : Bool) (tx : Tx)
      → IsTx tx
      → ((r : Bytes)
          → get_marker allow (rest_bytes false tx ++ r) ≡ ok (false, rest_bytes false tx ++ r))
      → Reads
          (get_marker allow >>= get_body num (or_default 2 tx.version))
          (marker_bytes false ++ rest_bytes false tx)
          (seen false tx)
  unfolding ◌>>=◌ marker_bytes
  past_marker allow tx h m = record { at = λ r. rw (m r) ((body-Reads num exact false tx h).at r) }

  tx-Reads_signed : (tx : Tx) → IsTx tx → Reads (get_tx num true) (tx_bytes true tx) (seen true tx)
  unfolding get_tx tx_bytes
  tx-Reads_signed tx h =
      Reads-bind _ _ (u32-Reads (or_default 2 tx.version) h.0)
        (Reads-bind _ _ get_marker-Reads (body-Reads num exact true tx h))

  tx-Reads_bare :
      (allow : Bool) (tx : Tx)
      → IsTx tx
      → ((r : Bytes)
          → get_marker allow (rest_bytes false tx ++ r) ≡ ok (false, rest_bytes false tx ++ r))
      → Reads (get_tx num allow) (tx_bytes false tx) (seen false tx)
  unfolding get_tx tx_bytes
  tx-Reads_bare allow tx h m =
      Reads-bind _ _ (u32-Reads (or_default 2 tx.version) h.0) (past_marker allow tx h m)

  parse-Reads :
      (allow : Bool) (bs : Bytes) (p : Parsed)
      → Reads (get_tx num allow) bs p
      → parse num allow bs ≡ some p
  unfolding parse
  parse-Reads allow bs p h = rw (sym (append-nil bs), h.at [])

  inputs-first :
      (tx : Tx)
      → 0 < length tx.inputs
      → (r : Bytes)
      → get_marker true (rest_bytes false tx ++ r) ≡ ok (false, rest_bytes false tx ++ r)
  inputs-first tx h r = get_marker-Starts true _ (varint-Starts (length tx.inputs) _ r h)

  -- A transaction whose fields fit, written without witnesses and read as such, comes back, also one
  -- without inputs.
  pub parse-serialize_bare :
      (tx : Tx)
      → IsTx tx
      → (bs : Bytes) × (serialize tx false ≡ some bs) × (parse num false bs ≡ some (seen false tx))
  unfolding serialize
  parse-serialize_bare tx h = (
    tx_bytes false tx,
    rw (all_fit-IsOut tx.outputs h.5) refl,
    parse-Reads false _ _ (tx-Reads_bare false tx h (λ r. get_marker-barred _)),
  )

  -- A transaction whose fields fit and that has an input comes back with its witnesses, signed or
  -- not: what `serialize` writes `parse` reads as the same version, inputs, outputs and lock time,
  -- the defaults filled in.
  pub parse-serialize :
      (tx : Tx)
      → IsTx tx
      → 0 < length tx.inputs
      → (bs : Bytes) × (serialize tx true ≡ some bs) × (parse num true bs ≡ some (seen true tx))
  unfolding serialize
  parse-serialize tx h some_input = elim (Bool-cases (any_signed tx.inputs)) [
    | inl signed ↦ (
      tx_bytes true tx,
      rw (all_fit-IsOut tx.outputs h.5, signed) refl,
      parse-Reads true _ _ (tx-Reads_signed tx h),
    )
    | inr bare ↦ (
      tx_bytes false tx,
      rw (all_fit-IsOut tx.outputs h.5, bare) refl,
      parse-Reads true _ _ (tx-Reads_bare true tx h (inputs-first tx some_input))
          ∙ ap (λ is. some (record (seen false tx) { inputs = is }))
              (sym (unsigned-same tx.inputs bare)),
    )
  ]
