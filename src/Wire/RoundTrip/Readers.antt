-- ===== src/Wire/RoundTrip/Readers.antt =====
-- Each decoder reads the layout of a valid message back, whatever bytes follow it.
use mathlib.Core.List.{reverse}
use lijox_lnd_adapter.Hex.{hex, unhex}
use lijox_lnd_adapter.Prelude.{ℕ, ◌++◌, length, le→leb, arith}
use lijox_lnd_adapter.Wire.Format.{be32}
use lijox_lnd_adapter.Wire.Put.{max_raw_tx_bytes}
use lijox_lnd_adapter.Wire.Get.{get_u32, remaining, read_hash32, read_bytes_u16, ◌>>=◌}
use lijox_lnd_adapter.Wire.Messages.{
  SubscribeChainData, ChainDataBundle, FeeRatesKw, JitFundingAbandoned, BlockHeightUpdate,
  FundingTxConfirmed, FeeScheduleUpdate, ChannelStateUpdate, RegisterWatchTx, RegisterWatchOutput,
  BroadcastTx, BroadcastAck, channel_state_name, broadcast_result_name,
}
use lijox_lnd_adapter.Wire.Decode.{
  get_trailing_u32, get_subscribe_chain_data, get_chain_data_bundle, get_fee_rates_kw,
  get_jit_funding_abandoned, get_block_height_update, get_funding_tx_confirmed,
  get_fee_schedule_update, get_channel_state_update, get_register_watch_tx,
  get_register_watch_output, get_broadcast_tx, get_broadcast_ack,
}
use lijox_lnd_adapter.Wire.Laws.{
  Reads, Reads-bind, Reads-pure, framed_u16, read_version-Reads, get_u32-Reads, get_u64-Reads,
  read_hash32-Reads, read_pubkey-Reads, read_bytes_u16-Reads, read_bytes_u32-Reads,
  read_option-Reads,
}
use lijox_lnd_adapter.Wire.Layout.{
  IsHash, IsScript, IsU32, itself, named_tag, subscribe_layout, SubscribeIsValid, bundle_layout,
  BundleIsValid, rates_layout, RatesIsValid, abandoned_layout, AbandonedIsValid, height_layout,
  HeightIsValid, confirmed_layout, ConfirmedIsValid, schedule_layout, ScheduleIsValid, state_layout,
  StateIsValid, watch_tx_layout, WatchTxIsValid, watch_output_layout, WatchOutputIsValid,
  broadcast_layout, BroadcastIsValid, ack_layout, AckIsValid,
}
use lijox_lnd_adapter.Wire.RoundTrip.Fields.{
  read_list-Reads, read_display_txid-Reads, hex-reverse_back, get_state-Reads, get_result-Reads,
}

-- Four bytes are left at least, so the branch that reads them is taken.
trailing-Reads : (v : ℕ) → Reads get_trailing_u32 (be32 v) v
unfolding get_trailing_u32 remaining ◌>>=◌
trailing-Reads v = record {
  at = λ rest. rw (le→leb 4 (length (be32 v ++ rest)) (omega arith)) ((get_u32-Reads v).at rest);
}

pub subscribe-Reads :
    (m : SubscribeChainData)
    → SubscribeIsValid m
    → Reads get_subscribe_chain_data (subscribe_layout m) m
unfolding get_subscribe_chain_data
subscribe-Reads m v = Reads-bind _ _ read_version-Reads (
    Reads-bind _ _
      (read_list-Reads IsHash itself read_hash32 read_hash32-Reads m.watch_txids v.txids)
      (Reads-bind _ _
        (read_list-Reads IsScript framed_u16 read_bytes_u16 (λ b _. read_bytes_u16-Reads b)
          m.watch_scripts v.scripts)
        (Reads-pure _)))

pub bundle-Reads :
    (m : ChainDataBundle) → BundleIsValid m → Reads get_chain_data_bundle (bundle_layout m) m
unfolding get_chain_data_bundle
bundle-Reads m v = Reads-bind _ _ read_version-Reads (
    Reads-bind _ _ (get_u32-Reads m.tip_height) (
      Reads-bind _ _ (read_hash32-Reads m.tip_blockhash v.tip) (
        Reads-bind _ _
          (read_list-Reads IsHash itself read_hash32 read_hash32-Reads m.recent_blockhashes
            v.recent)
          (Reads-bind _ _ (get_u32-Reads m.fee_sat_per_vb_fast) (
            Reads-bind _ _ (get_u32-Reads m.fee_sat_per_vb_medium)
              (Reads-bind _ _ (get_u32-Reads m.fee_sat_per_vb_slow) (Reads-pure _)))))))

pub rates-Reads : (m : FeeRatesKw) → RatesIsValid m → Reads get_fee_rates_kw (rates_layout m) m
unfolding get_fee_rates_kw
rates-Reads m v = Reads-bind _ _ read_version-Reads (
    Reads-bind _ _ (get_u32-Reads m.fast_sat_per_kw) (
      Reads-bind _ _ (get_u32-Reads m.medium_sat_per_kw) (
        Reads-bind _ _ (get_u32-Reads m.slow_sat_per_kw)
          (Reads-bind _ _ (get_u32-Reads m.relay_floor_sat_per_kw) (Reads-pure _)))))

pub abandoned-Reads :
    (m : JitFundingAbandoned)
    → AbandonedIsValid m
    → Reads get_jit_funding_abandoned (abandoned_layout m) m
unfolding get_jit_funding_abandoned
abandoned-Reads m v =
    let got : Reads get_jit_funding_abandoned (abandoned_layout m) (record m {
      funding_txid_display_hex = hex (reverse (reverse (unhex m.funding_txid_display_hex)));
    }) =
      Reads-bind _ _ read_version-Reads (
        Reads-bind _ _ (read_display_txid-Reads m.funding_txid_display_hex v.digits v.count)
          (Reads-bind _ _ (get_u32-Reads m.output_index) (Reads-pure _))) in
    rw (hex-reverse_back m.funding_txid_display_hex v.digits v.count) at got

pub height-Reads :
    (m : BlockHeightUpdate) → HeightIsValid m → Reads get_block_height_update (height_layout m) m
unfolding get_block_height_update
height-Reads m v = Reads-bind _ _ read_version-Reads (
    Reads-bind _ _ (get_u32-Reads m.new_height)
      (Reads-bind _ _ (read_hash32-Reads m.new_blockhash v.hash) (Reads-pure _)))

pub confirmed-Reads :
    (m : FundingTxConfirmed)
    → ConfirmedIsValid m
    → Reads get_funding_tx_confirmed (confirmed_layout m) m
unfolding get_funding_tx_confirmed
confirmed-Reads m v = Reads-bind _ _ read_version-Reads (
    Reads-bind _ _ (read_hash32-Reads m.txid v.id) (
      Reads-bind _ _ (get_u32-Reads m.confirmed_at_height) (
        Reads-bind _ _ (read_hash32-Reads m.blockhash_of_confirmation v.block) (
          Reads-bind _ _ (get_u32-Reads m.confirmations) (
            Reads-bind _ _ (read_bytes_u32-Reads m.raw_tx_bytes max_raw_tx_bytes v.raw)
              (Reads-bind _ _ (trailing-Reads m.tx_index) (Reads-pure _)))))))

pub schedule-Reads :
    (m : FeeScheduleUpdate)
    → ScheduleIsValid m
    → Reads get_fee_schedule_update (schedule_layout m) m
unfolding get_fee_schedule_update
schedule-Reads m v = Reads-bind _ _ read_version-Reads (
    Reads-bind _ _ (get_u32-Reads m.fee_sat_per_vb_fast) (
      Reads-bind _ _ (get_u32-Reads m.fee_sat_per_vb_medium)
        (Reads-bind _ _ (get_u32-Reads m.fee_sat_per_vb_slow) (Reads-pure _))))

pub state-Reads :
    (m : ChannelStateUpdate)
    → StateIsValid m
    → Reads get_channel_state_update
        (state_layout m)
        (record m { state = named_tag channel_state_name m.state })
unfolding get_channel_state_update
state-Reads m v = Reads-bind _ _ read_version-Reads (
    Reads-bind _ _ (read_pubkey-Reads m.counterparty_pubkey v.pubkey) (
      Reads-bind _ _ (read_hash32-Reads m.funding_txid v.id) (
        Reads-bind _ _ (get_state-Reads m.state v.tag) (
          Reads-bind _ _
            (read_option-Reads IsU32 be32 get_u32 (λ n _. get_u32-Reads n) m.observed_at_height
              v.height)
            (Reads-pure _)))))

pub watch_tx-Reads :
    (m : RegisterWatchTx) → WatchTxIsValid m → Reads get_register_watch_tx (watch_tx_layout m) m
unfolding get_register_watch_tx
watch_tx-Reads m v = Reads-bind _ _ read_version-Reads (
    Reads-bind _ _ (read_hash32-Reads m.txid v.id)
      (Reads-bind _ _ (read_bytes_u16-Reads m.script_pubkey) (Reads-pure _)))

pub watch_output-Reads :
    (m : RegisterWatchOutput)
    → WatchOutputIsValid m
    → Reads get_register_watch_output (watch_output_layout m) m
unfolding get_register_watch_output
watch_output-Reads m v = Reads-bind _ _ read_version-Reads (
    Reads-bind _ _ (read_hash32-Reads m.funding_txid v.id) (
      Reads-bind _ _ (get_u32-Reads m.output_index) (
        Reads-bind _ _ (read_bytes_u16-Reads m.script_pubkey) (
          Reads-bind _ _
            (read_option-Reads IsHash itself read_hash32 read_hash32-Reads m.created_in_block
              v.block)
            (Reads-pure _)))))

pub broadcast-Reads :
    (m : BroadcastTx) → BroadcastIsValid m → Reads get_broadcast_tx (broadcast_layout m) m
unfolding get_broadcast_tx
broadcast-Reads m v = Reads-bind _ _ read_version-Reads (
    Reads-bind _ _ (get_u64-Reads m.request_id)
      (Reads-bind _ _ (read_bytes_u32-Reads m.raw_tx max_raw_tx_bytes v.raw) (Reads-pure _)))

pub ack-Reads :
    (m : BroadcastAck)
    → AckIsValid m
    → Reads get_broadcast_ack
        (ack_layout m)
        (record m { result = named_tag broadcast_result_name m.result })
unfolding get_broadcast_ack
ack-Reads m v = Reads-bind _ _ read_version-Reads (
    Reads-bind _ _ (get_u64-Reads m.request_id) (
      Reads-bind _ _ (get_result-Reads m.result v.tag)
        (Reads-bind _ _ (read_bytes_u16-Reads m.detail) (Reads-pure _))))
