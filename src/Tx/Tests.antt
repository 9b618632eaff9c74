-- ===== src/Tx/Tests.antt =====
-- A transaction with one input and one output: the theorems of `Tx` at it.
use lijox_lnd_adapter.Prelude.{
  ℕ, ◌+◌, ◌-◌, ◌*◌, ◌≤◌, ◌≡◌, refl, true, false, none, some, [], ◌∷◌, arith,
}
use lijox_lnd_adapter.Wire.Format.{Bytes}
use lijox_lnd_adapter.Tx.Serialize.{
  Tx, serialize, varint, u32, input_bytes, bytes_of, output_bytes, witness_bytes, any_signed,
  marker_bytes, witnesses_bytes, tx_bytes,
}
use lijox_lnd_adapter.Tx.Parse.{parse}
use lijox_lnd_adapter.Tx.Pieces.{IsTx, seen}
use lijox_lnd_adapter.Tx.Script.{script_num}
use lijox_lnd_adapter.Tx.ScriptNum.{read_num, read_num-script_num}
use lijox_lnd_adapter.Tx.TakeBack.{
  Lock, Built, size, weight, vsize, lock_input, spend_lock, fee_of, signed_spend, build_take_back,
}
use lijox_lnd_adapter.Tx.Fees.{SpendsOnly, build_take_back-pays}
use lijox_lnd_adapter.Tx.RoundTrip.{parse-serialize, parse-serialize_bare}

abbrev zeros : Bytes
zeros = 0 ∷ 0 ∷ 0 ∷ 0 ∷ 0 ∷ 0 ∷ 0 ∷ 0 ∷ []

abbrev id_bytes : Bytes
id_bytes =
    7 ∷ 0 ∷ 0 ∷ 0 ∷ 0 ∷ 0 ∷ 0 ∷ 0 ∷ 0 ∷ 0 ∷ 0 ∷ 0 ∷ 0 ∷ 0 ∷ 0 ∷ 0 ∷ 0 ∷ 0 ∷ 0 ∷ 0 ∷ 0 ∷ 0 ∷ 0 ∷ 0
    ∷ 0 ∷ 0 ∷ 0 ∷ 0 ∷ 0 ∷ 0 ∷ 0 ∷ 9 ∷ []

abbrev spend : Tx
spend = record {
  version = none;
  locktime = 800000;
  inputs =
      record { txid = id_bytes; vout = 1; sequence = none; witness = (48 ∷ 1 ∷ []) ∷ [] ∷ [] } ∷ [];
  outputs = record { value = 70000; script = 0 ∷ 32 ∷ [] } ∷ [];
}

-- What LND hands as a template: no input yet, one output.
abbrev template : Tx
template = record spend { inputs = [] }

abbrev exactly : ℕ → ℕ
exactly n = n

spend-IsTx : IsTx spend
spend-IsTx = (
  omega arith,
  omega arith,
  omega arith,
  ((refl, omega arith, omega arith, omega arith, (omega arith, (omega arith, tt))), tt),
  omega arith,
  ((omega arith, omega arith), tt),
)

parse-serialize_example :
    (bs : Bytes) × (serialize spend true ≡ some bs)
    × (parse exactly true bs ≡ some (seen true spend))
parse-serialize_example = parse-serialize exactly (λ n h. refl) spend spend-IsTx (omega arith)

parse-serialize_bare_example :
    (bs : Bytes) × (serialize template false ≡ some bs)
    × (parse exactly false bs ≡ some (seen false template))
parse-serialize_bare_example =
    parse-serialize_bare exactly (λ n h. refl) template
      (spend-IsTx.0, spend-IsTx.1, omega arith, tt, spend-IsTx.4, spend-IsTx.5)

read_num-script_num_example : read_num (script_num 800144) ≡ some 800144
read_num-script_num_example = read_num-script_num 800144 (omega arith)

abbrev lock : Lock
lock = record {
  txid = id_bytes;
  vout = 1;
  value = 70000;
  script = 130 ∷ [];
  t = 800144;
  dest = 0 ∷ [];
}

abbrev digest : Bytes → Bytes
digest b = id_bytes

abbrev short_signature : Bytes → Bytes
short_signature b = 48 ∷ []

-- The take-back at 2.5 sat/vB.
abbrev built : Built
built = record {
  tx = signed_spend digest short_signature lock (fee_of lock 2500);
  fee = fee_of lock 2500;
}

build_take_back-pays_example :
    SpendsOnly lock (48 ∷ []) built.tx
    × (built.tx.locktime ≡ 800144)
    × (built.tx.outputs ≡ record { value = 70000 - built.fee; script = 0 ∷ [] } ∷ [])
    × (built.fee + 546 ≤ 70000)
    × (vsize built.tx * 2500 ≤ built.fee * 1000)
unfolding build_take_back fee_of vsize weight size tx_bytes varint u32 input_bytes bytes_of
    output_bytes witness_bytes any_signed marker_bytes witnesses_bytes spend_lock lock_input
build_take_back-pays_example =
    build_take_back-pays digest short_signature lock 2500 built refl (λ m. omega arith)
