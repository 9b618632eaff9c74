-- ===== src/Pool/Tests.antt =====
-- A pool's two channels and a funding: the theorems of `Pool` at them.
use mathlib.Core.List.{map}
use lijox_lnd_adapter.Prelude.{ℕ, zero, suc, ◌++◌, ◌≡◌, refl, true, false, some, [], ◌∷◌}
use lijox_lnd_adapter.Wire.Format.{Bytes}
use lijox_lnd_adapter.Wire.Get.{get_bytes, get_u8, read_many, pure, ◌>>=◌}
use lijox_lnd_adapter.Tx.Parse.{
  Parsed, parse, get_tx, get_body, get_marker, get_le32, get_le64, get_varint, varint_of, get_sized,
  get_input, get_output, get_witness, get_witnesses, add_witnesses,
}
use lijox_lnd_adapter.Pool.Inputs.{inputs_of}
use lijox_lnd_adapter.Pool.Agree.{point_of, inputs_of-parse}
use lijox_lnd_adapter.Pool.Watch.{Input, Watch, Pool, find, add, stream_at, leave, judge}
use lijox_lnd_adapter.Pool.Deaf.{notify_all, second_channel-deaf}

abbrev input : Input
input = record { txid = "aa"; vout = 0; spent_by = ""; height = 0 }

abbrev first : Watch
first = record {
  cp = "c1:0";
  attempt_id = "pool";
  funding_txid = "ff";
  inputs = input ∷ [];
  funded_at = 0;
  elsewhere_at = 0;
  alerted = false;
  since = 1000;
}

abbrev second : Watch
second = record first { cp = "c2:1" }

-- The first channel's watch, with its stream.
abbrev one_channel : Pool
one_channel = record {
  watched = first ∷ [];
  streams = record { txid = "aa"; vout = 0; cp = "c1:0" } ∷ [];
}

second_channel-deaf_example :
    ((add second one_channel).streams ≡ one_channel.streams)
    × (find "c2:1"
          (notify_all
            (("aa", 0, record { txid = "bb"; height = 800000 }) ∷ [])
            (add second one_channel)).watched
        ≡ some second)
    × (judge 900000 second ≡ leave)
unfolding find stream_at
second_channel-deaf_example =
    second_channel-deaf second one_channel (("aa", 0, record { txid = "bb"; height = 800000 }) ∷ [])
      900000 refl ((record { txid = "aa"; vout = 0; cp = "c1:0" }, refl), tt) (refl, tt) refl refl

abbrev zeros : ℕ → Bytes
zeros zero = []
zeros (suc n) = 0 ∷ zeros n

abbrev exactly : ℕ → ℕ
exactly n = n

-- A transaction with a witness, one input and no output.
abbrev raw : Bytes
raw =
    2 ∷ 0 ∷ 0 ∷ 0 ∷ 0 ∷ 1 ∷ 1 ∷ (7 ∷ [] ++ zeros 30)
    ++ 9 ∷ 3 ∷ 0 ∷ 0 ∷ 0 ∷ 0 ∷ 5 ∷ 0 ∷ 0 ∷ 0 ∷ 0 ∷ 1 ∷ 1 ∷ 6 ∷ zeros 4

abbrev tx : Parsed
tx = record {
  version = 2;
  locktime = 0;
  inputs =
      record {
        txid = 9 ∷ (zeros 30 ++ 7 ∷ []);
        vout = 3;
        script_sig = [];
        sequence = 5;
        witness = (6 ∷ []) ∷ [];
      }
      ∷ [];
  outputs = [];
}

raw-parsed : parse exactly true raw ≡ some tx
unfolding parse get_tx get_body get_marker get_le32 get_le64 get_varint varint_of get_sized
    get_input get_output get_witness get_witnesses add_witnesses get_bytes get_u8 read_many pure
    ◌>>=◌
raw-parsed = refl

inputs_of-parse_example : inputs_of exactly raw ≡ some (map point_of tx.inputs)
inputs_of-parse_example = inputs_of-parse exactly raw tx raw-parsed
