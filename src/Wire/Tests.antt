-- ===== src/Wire/Tests.antt =====
-- Messages with concrete fields: each theorem of `Wire` at one of them, and runs of the code.
use lijox_lnd_adapter.Prelude.{ℕ, zero, suc, ◌≡◌, refl, none, some, [], ◌∷◌, ◌++◌, arith}
use lijox_lnd_adapter.Wire.Format.{Bytes, ok, err, bad_version}
use lijox_lnd_adapter.Wire.Messages.{FeeRatesKw, FundingTxConfirmed, ChannelStateUpdate, byte}
use lijox_lnd_adapter.Wire.Layout.{rates_layout, RatesIsValid}
use lijox_lnd_adapter.Wire.Dispatch.{
  confirmed, state, type_id, type_fee_rates_kw, encode, encode_fee_rates_kw, decode_fee_rates_kw,
  decode_by_type,
}
use lijox_lnd_adapter.Wire.Dispatch.Laws.{
  layout, IsValid, encode-layout, fee_rates_outside_dispatch, decode_by_type-bad_version,
}

abbrev fill : ℕ → ℕ → Bytes
fill zero b = []
fill (suc n) b = b ∷ fill n b

abbrev funding : FundingTxConfirmed
funding = record {
  txid = fill 32 17;
  confirmed_at_height = 905000;
  blockhash_of_confirmation = fill 32 34;
  confirmations = 3;
  raw_tx_bytes = 1 ∷ 0 ∷ 255 ∷ [];
  tx_index = 70000;
}

abbrev closing : ChannelStateUpdate
closing = record {
  counterparty_pubkey = fill 33 2;
  funding_txid = fill 32 9;
  state = byte 4;
  observed_at_height = some 905001;
}

abbrev rates : FeeRatesKw
rates = record {
  fast_sat_per_kw = 2500;
  medium_sat_per_kw = 1000;
  slow_sat_per_kw = 253;
  relay_floor_sat_per_kw = 250;
}

funding-IsValid : IsValid (confirmed funding)
funding-IsValid = record {
  id = refl;
  height = omega arith;
  block = refl;
  count = omega arith;
  raw = omega arith;
  index = omega arith;
}

rates-IsValid : RatesIsValid rates
rates-IsValid = record {
  fast = omega arith;
  medium = omega arith;
  slow = omega arith;
  floor = omega arith;
}

encode-layout_example :
    (encode (confirmed funding) ≡ ok (layout (confirmed funding)))
    × (encode_fee_rates_kw rates ≡ ok (rates_layout rates))
encode-layout_example = encode-layout (confirmed funding) rates funding-IsValid rates-IsValid

fee_rates_outside_dispatch_example :
    (encode_fee_rates_kw rates ≡ ok (rates_layout rates))
    × (decode_fee_rates_kw (rates_layout rates ++ []) ≡ ok rates)
    × (decode_by_type type_fee_rates_kw (1 ∷ 2 ∷ []) ≡ ok none)
fee_rates_outside_dispatch_example = fee_rates_outside_dispatch rates [] (1 ∷ 2 ∷ []) rates-IsValid

decode_by_type-bad_version_example :
    decode_by_type (type_id (confirmed funding)) (1 ∷ 0 ∷ []) ≡ err (bad_version 1)
decode_by_type-bad_version_example =
    decode_by_type-bad_version (confirmed funding) 1 (0 ∷ []) (omega arith)
