-- ===== src/Pay/Tests.antt =====
-- One payment of 70000 sats: the theorems of `Pay` at it.
use lijox_lnd_adapter.Prelude.{
  ℕ, zero, suc, ◌≡◌, refl, inl, Option, true, false, none, some, [], ◌∷◌, ◌++◌,
}
use lijox_lnd_adapter.Wire.Format.{Bytes}
use lijox_lnd_adapter.Wire.Get.{get_bytes, get_u8, read_many, pure, ◌>>=◌}
use lijox_lnd_adapter.Tx.Parse.{
  ParsedIn, Parsed, parse, get_tx, get_body, get_marker, get_le32, get_le64, get_varint, varint_of,
  get_sized, get_input, get_output, get_witness, get_witnesses, add_witnesses,
}
use lijox_lnd_adapter.Tx.Serialize.{
  varint, u32, input_bytes, bytes_of, output_bytes, witness_bytes, any_signed, marker_bytes,
  witnesses_bytes, tx_bytes,
}
use lijox_lnd_adapter.Tx.Script.{push_data, digits, with_sign, script_num, handover_script, p2wsh}
use lijox_lnd_adapter.Tx.TakeBack.{
  size, weight, vsize, sighash, lock_input, spend_lock, fee_of, signed_spend, build_take_back,
}
use lijox_lnd_adapter.Pay.Record.{
  quoted, opening, locked, lock_confirmed, done, cancelled, Rec, Settings, send_lock, settle,
  cancel, same_bytes,
}
use lijox_lnd_adapter.Pay.Lock.{
  LockReplies, canceled, accepted, find_output, vout_of, place_lock, send,
}
use lijox_lnd_adapter.Pay.Spent.{Spend, lock_spender, on_spent}
use lijox_lnd_adapter.Pay.TakeBack.{
  TakeBackReplies, output_at, pays, take_back_rate, lock_of, taken_by, sweep_lock, take_confirmed,
  take_matching, take_script, take_back,
}
use lijox_lnd_adapter.Pay.Life.{Rail, opened, invoices, spent, rebooted, run}
use lijox_lnd_adapter.Pay.Moves.{Reach}
use lijox_lnd_adapter.Pay.Moves.Runs.{run-Reach}
use lijox_lnd_adapter.Pay.Earned.{fair}
use lijox_lnd_adapter.Pay.Earned.Runs.{run-fair}
use lijox_lnd_adapter.Pay.Guarded.{broadcasts, Guarded, take_back-Guarded}
use lijox_lnd_adapter.Pay.Stranded.{settles, on_spent-pays_twice, send-strands}

abbrev zeros : ℕ → Bytes
zeros zero = []
zeros (suc n) = 0 ∷ zeros n

abbrev digest : Bytes → Bytes
digest b = zeros 32

abbrev no_signature : Bytes → Bytes
no_signature b = []

abbrev exactly : ℕ → ℕ
exactly n = n

abbrev settings : Settings
settings = record {
  enabled = true;
  fee_sats = 1000;
  fee_ppm = 2000;
  min_sats = 10000;
  max_sats = 2000000;
  refund_blocks = 144;
  daily_sats = 2000000;
  max_open = 10;
}

abbrev box : Rail
box = record { cfg = settings; sha = digest; sign = no_signature; num = exactly }

abbrev key : Bytes
key = 2 ∷ zeros 32

abbrev payment : Rec
payment = record {
  hash = zeros 32;
  client = key;
  w = key;
  l = key;
  amount_sats = 69000;
  lock_sats = 70000;
  provider_fee_sats = 1138;
  lock_fee_sats = 153;
  a_hash = 1 ∷ [];
  a_preimage = 2 ∷ [];
  state = quoted;
  quoted_at = 1000;
  opened_at = 0;
  lock_at = 0;
  a_settled_at = 0;
  ended_at = 0;
  t = 0;
  lock_block = 0;
  lock_bump_block = 0;
  lock_confirmed_block = 0;
  script = [];
  lock_txids = [];
  lock_vout = 0;
  secret = none;
  settle_last_try = 0;
  release_txid = [];
  release_block = 0;
  takeback_txids = [];
  takeback_block = 0;
  watched = false;
}

-- A transaction that pays 70000 sats to the hash's script.
abbrev lock_raw : Bytes
lock_raw = 2 ∷ 0 ∷ 0 ∷ 0 ∷ 1 ∷ (zeros 41 ++ 1 ∷ 112 ∷ 17 ∷ 1 ∷ zeros 5 ++ 34 ∷ 0 ∷ 32 ∷ zeros 36)

-- A transaction with a witness whose second item is empty.
abbrev spend_raw : Bytes
spend_raw = 2 ∷ 0 ∷ 0 ∷ 0 ∷ 0 ∷ 1 ∷ 1 ∷ (zeros 41 ++ 0 ∷ 3 ∷ 1 ∷ 5 ∷ 0 ∷ 1 ∷ 6 ∷ zeros 4)

abbrev replies : LockReplies
replies = record {
  tip = some 800000;
  rate = some 1000;
  sent = some (zeros 32);
  raw = some lock_raw;
  settled = false;
}

run-Reach_example :
    Reach quoted
      (run box
        (opened 2000 ∷ rebooted ∷ invoices 3000 replies accepted canceled ∷ [])
        payment).rec.state
run-Reach_example =
    run-Reach box (opened 2000 ∷ rebooted ∷ invoices 3000 replies accepted canceled ∷ []) payment
      (inl refl)

abbrev handed_over : Rec
handed_over = record payment {
  state = lock_confirmed;
  lock_txids = zeros 32 ∷ [];
  secret = some (4 ∷ []);
  watched = true;
}

abbrev came : Spend
came = record { txid = 8 ∷ []; height = 800145; raw = some spend_raw }

abbrev spender : ParsedIn
spender = record {
  txid = zeros 32;
  vout = 0;
  script_sig = [];
  sequence = 0;
  witness = (5 ∷ []) ∷ [] ∷ (6 ∷ []) ∷ [];
}

abbrev spending : Parsed
spending = record { version = 2; locktime = 0; inputs = spender ∷ []; outputs = [] }

spend-parsed : parse exactly true spend_raw ≡ some spending
unfolding parse get_tx get_body get_marker get_le32 get_le64 get_varint varint_of get_sized
    get_input get_output get_witness get_witnesses add_witnesses get_bytes get_u8 read_many pure
    ◌>>=◌
spend-parsed = refl

spender-found : lock_spender digest exactly handed_over spending.inputs ≡ some spender
unfolding lock_spender same_bytes
spender-found = refl

on_spent-pays_twice_example :
    ((on_spent digest exactly 9000 came true handed_over).rec.state ≡ done)
    × (settles (on_spent digest exactly 9000 came true handed_over).effects ≡ (4 ∷ []) ∷ [])
on_spent-pays_twice_example =
    on_spent-pays_twice box 9000 came handed_over spend_raw (4 ∷ []) (5 ∷ []) (6 ∷ []) spending
      spender refl spend-parsed spender-found refl refl

abbrev opened_payment : Rec
opened_payment = record payment { state = opening; opened_at = 2000 }

abbrev bytes_or_none : Option Bytes → Bytes
bytes_or_none none = []
bytes_or_none (some b) = b

-- The hand-over script of the payment at block 800144.
abbrev handed_script : Bytes
unfolding handover_script script_num digits with_sign push_data
handed_script = bytes_or_none (handover_script payment.hash payment.w payment.l 800144)

abbrev sent_payment : Rec
sent_payment = record opened_payment {
  t = 800144;
  lock_block = 800000;
  script = handed_script;
  lock_txids = zeros 32 ∷ [];
  lock_vout = 0;
  lock_at = 2500;
  state = locked;
}

placed : (place_lock digest exactly settings 2500 replies opened_payment).1 ≡ some sent_payment
unfolding place_lock vout_of find_output p2wsh handover_script script_num digits with_sign push_data
    same_bytes parse get_tx get_body get_marker get_le32 get_le64 get_varint varint_of get_sized
    get_input get_output get_witness get_witnesses add_witnesses get_bytes get_u8 read_many pure
    ◌>>=◌
placed = refl

send-strands_example :
    ((send digest exactly settings 2500 replies opened_payment).effects
      ≡ send_lock sent_payment.script 70000
        ∷ settle (2 ∷ [])
        ∷ cancel (1 ∷ [])
        ∷ cancel (zeros 32)
        ∷ [])
    × ((run box
          (rebooted ∷ [])
          (send digest exactly settings 2500 replies opened_payment).rec).rec.state
        ≡ cancelled)
send-strands_example =
    send-strands box 2500 replies opened_payment sent_payment (rebooted ∷ []) refl refl placed refl

abbrev due : Rec
due = record sent_payment { state = lock_confirmed; watched = true }

abbrev answers : TakeBackReplies
answers = record {
  raw = some lock_raw;
  confirmations = 140;
  dest = some (0 ∷ 20 ∷ zeros 20);
  is_mine = true;
  rate = some 2500;
  allowed = some true;
  taken = true;
  bumped = none;
  bumped_raw = none;
}

abbrev take_back_raw : Bytes
unfolding take_back_rate lock_of fee_of signed_spend sighash spend_lock lock_input vsize weight size
    tx_bytes varint u32 input_bytes bytes_of output_bytes witness_bytes any_signed marker_bytes
    witnesses_bytes
take_back_raw =
    let k = lock_of due handed_script (0 ∷ 20 ∷ zeros 20) in
    tx_bytes true (signed_spend digest no_signature k (fee_of k 2500))

sent_back :
    broadcasts (take_back digest no_signature exactly true 800144 answers due).effects
    ≡ take_back_raw ∷ []
unfolding take_back take_script take_matching take_confirmed sweep_lock taken_by pays output_at
    build_take_back take_back_rate lock_of fee_of signed_spend sighash spend_lock lock_input vsize
    weight size tx_bytes varint u32 input_bytes bytes_of output_bytes witness_bytes any_signed
    marker_bytes witnesses_bytes p2wsh handover_script script_num digits with_sign push_data
    same_bytes parse get_tx get_body get_marker get_le32 get_le64 get_varint varint_of get_sized
    get_input get_output get_witness get_witnesses add_witnesses get_bytes get_u8 read_many pure
    ◌>>=◌
sent_back = refl

take_back-Guarded_example :
    Guarded digest no_signature exactly true 800144 answers due take_back_raw
take_back-Guarded_example =
    take_back-Guarded digest no_signature exactly true 800144 answers due take_back_raw sent_back

-- The lock is sent, A collected, and the release's secret seen on the chain.
run-fair_example :
    fair box
      (2 ∷ [])
      (zeros 32)
      false
      (run box
        (opened 2000
          ∷ invoices 3000 (record replies { settled = true }) accepted accepted
          ∷ spent 9000 came true
          ∷ [])
        payment).effects
    ≡ true
run-fair_example =
    run-fair box
      (opened 2000
        ∷ invoices 3000 (record replies { settled = true }) accepted accepted
        ∷ spent 9000 came true
        ∷ [])
      payment refl
