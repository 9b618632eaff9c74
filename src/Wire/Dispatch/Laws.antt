-- ===== src/Wire/Dispatch/Laws.antt =====
-- Round trips of whole messages, through `decodeByType` where it has a case.
use lijox_lnd_adapter.Prelude.{
  refl, lt→not_leb, ℕ, ◌<◌, ◌≡◌, ◌≢◌, ap, none, some, ◌++◌, ◌∷◌, [], arith, length, append_assoc,
}
use lijox_lnd_adapter.Wire.Format.{Bytes, Result, ok, err, bad_version}
use lijox_lnd_adapter.Wire.Put.{Put, run_put, max_raw_tx_bytes}
use lijox_lnd_adapter.Wire.Get.{
  Get, ◌>>=◌, pure, finished, get_u8, remaining, check_version, read_version, run_get,
}
use lijox_lnd_adapter.Wire.Messages.{
  FeeRatesKw, FundingTxConfirmed, channel_state_name, broadcast_result_name,
}
use lijox_lnd_adapter.Wire.Laws.{
  Writes, Reads, framed_u32, join, read_version-Reads, read_hash32-Reads, get_u32-Reads,
  read_bytes_u32-Reads,
}
use lijox_lnd_adapter.Wire.Layout.{
  named_tag, rates_layout, RatesIsValid, ConfirmedIsValid, old_confirmed_fields, subscribe_layout,
  SubscribeIsValid, bundle_layout, BundleIsValid, height_layout, HeightIsValid, confirmed_layout,
  ConfirmedIsValid, schedule_layout, ScheduleIsValid, state_layout, StateIsValid, watch_tx_layout,
  WatchTxIsValid, watch_output_layout, WatchOutputIsValid, broadcast_layout, BroadcastIsValid,
  ack_layout, AckIsValid, abandoned_layout, AbandonedIsValid,
}
use lijox_lnd_adapter.Wire.Decode.{
  get_trailing_u32, get_subscribe_chain_data, get_chain_data_bundle, get_block_height_update,
  get_funding_tx_confirmed, get_fee_schedule_update, get_channel_state_update,
  get_register_watch_tx, get_register_watch_output, get_broadcast_tx, get_broadcast_ack,
  get_jit_funding_abandoned,
}
use lijox_lnd_adapter.Wire.RoundTrip.Writers.{
  rates-Writes, subscribe-Writes, bundle-Writes, height-Writes, confirmed-Writes, schedule-Writes,
  state-Writes, watch_tx-Writes, watch_output-Writes, broadcast-Writes, ack-Writes,
  abandoned-Writes,
}
use lijox_lnd_adapter.Wire.RoundTrip.Readers.{rates-Reads}
use lijox_lnd_adapter.Wire.Dispatch.{
  Message, subscribe, bundle, height, confirmed, schedule, state, watch_tx, watch_output, broadcast,
  ack, abandoned, type_id, type_fee_rates_kw, encode, encode_fee_rates_kw, decode_fee_rates_kw,
  wrap, decoded, decode_by_type,
}

run_put-Writes : (p : Put) (bs : Bytes) → Writes p bs → run_put p ≡ ok bs
unfolding run_put
run_put-Writes p bs h = h.at []

run_get-Reads :
    {A : Type 0} (g : Get A) (bs : Bytes) (a : A)
    → Reads g bs a
    → (rest : Bytes) → run_get g (bs ++ rest) ≡ ok a
unfolding run_get
run_get-Reads g bs a h rest = rw (h.at rest)

abbrev pub layout : Message → Bytes
layout (subscribe m) = subscribe_layout m
layout (bundle m) = bundle_layout m
layout (height m) = height_layout m
layout (confirmed m) = confirmed_layout m
layout (schedule m) = schedule_layout m
layout (state m) = state_layout m
layout (watch_tx m) = watch_tx_layout m
layout (watch_output m) = watch_output_layout m
layout (broadcast m) = broadcast_layout m
layout (ack m) = ack_layout m
layout (abandoned m) = abandoned_layout m

abbrev pub IsValid : Message → Type 0
IsValid (subscribe m) = SubscribeIsValid m
IsValid (bundle m) = BundleIsValid m
IsValid (height m) = HeightIsValid m
IsValid (confirmed m) = ConfirmedIsValid m
IsValid (schedule m) = ScheduleIsValid m
IsValid (state m) = StateIsValid m
IsValid (watch_tx m) = WatchTxIsValid m
IsValid (watch_output m) = WatchOutputIsValid m
IsValid (broadcast m) = BroadcastIsValid m
IsValid (ack m) = AckIsValid m
IsValid (abandoned m) = AbandonedIsValid m

-- The message as the decoder answers it: a state and a result by name.
abbrev pub by_name : Message → Message
by_name (state m) = state (record m { state = named_tag channel_state_name m.state })
by_name (ack m) = ack (record m { result = named_tag broadcast_result_name m.result })
by_name m = m

encode-layout_each : (m : Message) → IsValid m → encode m ≡ ok (layout m)
unfolding encode
encode-layout_each (subscribe m) v = run_put-Writes _ _ (subscribe-Writes m v)
encode-layout_each (bundle m) v = run_put-Writes _ _ (bundle-Writes m v)
encode-layout_each (height m) v = run_put-Writes _ _ (height-Writes m v)
encode-layout_each (confirmed m) v = run_put-Writes _ _ (confirmed-Writes m v)
encode-layout_each (schedule m) v = run_put-Writes _ _ (schedule-Writes m v)
encode-layout_each (state m) v = run_put-Writes _ _ (state-Writes m v)
encode-layout_each (watch_tx m) v = run_put-Writes _ _ (watch_tx-Writes m v)
encode-layout_each (watch_output m) v = run_put-Writes _ _ (watch_output-Writes m v)
encode-layout_each (broadcast m) v = run_put-Writes _ _ (broadcast-Writes m v)
encode-layout_each (ack m) v = run_put-Writes _ _ (ack-Writes m v)
encode-layout_each (abandoned m) v = run_put-Writes _ _ (abandoned-Writes m v)

-- Each of the twelve encoders, the eleven of the messages that `decodeByType` knows and that of the
-- fee rates, succeeds on a valid message and writes exactly the layout of its type.
pub encode-layout :
    (m : Message) (f : FeeRatesKw)
    → IsValid m
    → RatesIsValid f
    → (encode m ≡ ok (layout m)) × (encode_fee_rates_kw f ≡ ok (rates_layout f))
unfolding encode_fee_rates_kw
encode-layout m f v w = (encode-layout_each m v, run_put-Writes _ _ (rates-Writes f w))

-- Valid fee rates round trip through their own pair of functions, with any bytes after them, and
-- `decodeByType` answers null at their type id, whatever the buffer.
pub fee_rates_outside_dispatch :
    (m : FeeRatesKw) (rest buf : Bytes)
    → RatesIsValid m
    → (encode_fee_rates_kw m ≡ ok (rates_layout m))
      × (decode_fee_rates_kw (rates_layout m ++ rest) ≡ ok m)
      × (decode_by_type type_fee_rates_kw buf ≡ ok none)
unfolding encode_fee_rates_kw decode_fee_rates_kw decode_by_type
fee_rates_outside_dispatch m rest buf v =
    (run_put-Writes _ _ (rates-Writes m v), run_get-Reads _ _ _ (rates-Reads m v) rest, refl)

decoded-bad_version :
    {A : Type 0} (c : A → Message) (f : Unit {0} → Get A) (v : ℕ) (rest : Bytes)
    → v ≢ 2
    → decoded c (read_version >>= f) (v ∷ rest) ≡ err (bad_version v)
unfolding decoded run_get read_version get_u8 check_version ◌>>=◌
decoded-bad_version c f v rest h = ground arith

-- A buffer whose first byte is not the protocol's version is refused with that byte, whatever
-- follows, at every type id that `decodeByType` knows.
pub decode_by_type-bad_version :
    (m : Message) (v : ℕ) (rest : Bytes)
    → v ≢ 2
    → decode_by_type (type_id m) (v ∷ rest) ≡ err (bad_version v)
unfolding decode_by_type type_id
decode_by_type-bad_version (subscribe m) v rest h =
    unfold get_subscribe_chain_data in decoded-bad_version subscribe _ v rest h
decode_by_type-bad_version (bundle m) v rest h =
    unfold get_chain_data_bundle in decoded-bad_version bundle _ v rest h
decode_by_type-bad_version (height m) v rest h =
    unfold get_block_height_update in decoded-bad_version height _ v rest h
decode_by_type-bad_version (confirmed m) v rest h =
    unfold get_funding_tx_confirmed in decoded-bad_version confirmed _ v rest h
decode_by_type-bad_version (schedule m) v rest h =
    unfold get_fee_schedule_update in decoded-bad_version schedule _ v rest h
decode_by_type-bad_version (state m) v rest h =
    unfold get_channel_state_update in decoded-bad_version state _ v rest h
decode_by_type-bad_version (watch_tx m) v rest h =
    unfold get_register_watch_tx in decoded-bad_version watch_tx _ v rest h
decode_by_type-bad_version (watch_output m) v rest h =
    unfold get_register_watch_output in decoded-bad_version watch_output _ v rest h
decode_by_type-bad_version (broadcast m) v rest h =
    unfold get_broadcast_tx in decoded-bad_version broadcast _ v rest h
decode_by_type-bad_version (ack m) v rest h =
    unfold get_broadcast_ack in decoded-bad_version ack _ v rest h
decode_by_type-bad_version (abandoned m) v rest h =
    unfold get_jit_funding_abandoned in decoded-bad_version abandoned _ v rest h

bind-Reads :
    {A B : Type 0} (g : Get A) (f : A → Get B) {xs : Bytes} {a : A} (ys rest : Bytes)
    {r : Result (B × Bytes)}
    → Reads g xs a
    → f a (ys ++ rest) ≡ r
    → (g >>= f) ((xs ++ ys) ++ rest) ≡ r
unfolding ◌>>=◌
bind-Reads g f {xs} ys rest h k = rw (append_assoc xs ys rest, h.at (ys ++ rest)) k

trailing_none : (rest : Bytes) → length rest < 4 → get_trailing_u32 rest ≡ ok (0, rest)
unfolding get_trailing_u32 remaining pure ◌>>=◌
trailing_none rest h = rw (lt→not_leb 4 (length rest) h)

trailing_then_pure :
    {A : Type 0} (f : ℕ → A) (rest : Bytes)
    → length rest < 4
    → (get_trailing_u32 >>= λ index. pure (f index)) rest ≡ ok (f 0, rest)
unfolding ◌>>=◌ pure
trailing_then_pure f rest h = rw (trailing_none rest h)

-- A FundingTxConfirmed of an older sender, without the last field and with fewer than four
-- bytes after it, is read with a `tx_index` of 0.
pub decode_by_type-old_sender :
    (m : FundingTxConfirmed) (rest : Bytes)
    → ConfirmedIsValid m
    → length rest < 4
    → decode_by_type 32807 (join (old_confirmed_fields m []) ++ rest)
      ≡ ok (some (confirmed (record m { tx_index = 0 })))
unfolding decode_by_type decoded run_get get_funding_tx_confirmed
decode_by_type-old_sender m rest v h =
    ap (λ r. wrap confirmed (finished r))
      (bind-Reads _ _ _ rest read_version-Reads (
        bind-Reads _ _ _ rest (read_hash32-Reads m.txid v.id) (
          bind-Reads _ _ _ rest (get_u32-Reads m.confirmed_at_height) (
            bind-Reads _ _ _ rest (read_hash32-Reads m.blockhash_of_confirmation v.block) (
              bind-Reads _ _ (framed_u32 m.raw_tx_bytes ++ []) rest (get_u32-Reads m.confirmations)
                (bind-Reads _ _ [] rest (read_bytes_u32-Reads m.raw_tx_bytes max_raw_tx_bytes v.raw)
                  (trailing_then_pure _ rest h)))))))
