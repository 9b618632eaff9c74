-- ===== src/Wire/RoundTrip/Writers.antt =====
-- Each encoder succeeds on a valid message and writes its layout.
use lijox_lnd_adapter.Prelude.{arith}
use lijox_lnd_adapter.Wire.Format.{be32}
use lijox_lnd_adapter.Wire.Put.{put_u32, write_hash32, write_bytes_u16, max_raw_tx_bytes}
use lijox_lnd_adapter.Wire.Messages.{
  SubscribeChainData, ChainDataBundle, FeeRatesKw, JitFundingAbandoned, BlockHeightUpdate,
  FundingTxConfirmed, FeeScheduleUpdate, ChannelStateUpdate, RegisterWatchTx, RegisterWatchOutput,
  BroadcastTx, BroadcastAck,
}
use lijox_lnd_adapter.Wire.Encode.{
  put_subscribe_chain_data, put_chain_data_bundle, put_fee_rates_kw, put_jit_funding_abandoned,
  put_block_height_update, put_funding_tx_confirmed, put_fee_schedule_update,
  put_channel_state_update, put_register_watch_tx, put_register_watch_output, put_broadcast_tx,
  put_broadcast_ack,
}
use lijox_lnd_adapter.Wire.Laws.{
  Writes, Writes-seq, Writes-last, framed_u16, write_version-Writes, put_u32-Writes, put_u64-Writes,
  write_hash32-Writes, write_pubkey-Writes, write_bytes_u16-Writes, write_bytes_u32-Writes,
  write_option-Writes,
}
use lijox_lnd_adapter.Wire.Layout.{
  IsHash, IsScript, IsU32, itself, subscribe_layout, SubscribeIsValid, bundle_layout, BundleIsValid,
  rates_layout, RatesIsValid, abandoned_layout, AbandonedIsValid, height_layout, HeightIsValid,
  confirmed_layout, ConfirmedIsValid, schedule_layout, ScheduleIsValid, state_layout, StateIsValid,
  watch_tx_layout, WatchTxIsValid, watch_output_layout, WatchOutputIsValid, broadcast_layout,
  BroadcastIsValid, ack_layout, AckIsValid,
}
use lijox_lnd_adapter.Wire.RoundTrip.Fields.{
  write_list-Writes, put_rate-Writes, put_display_txid-Writes, put_state-Writes, put_result-Writes,
}

pub subscribe-Writes :
    (m : SubscribeChainData)
    → SubscribeIsValid m
    → Writes (put_subscribe_chain_data m) (subscribe_layout m)
unfolding put_subscribe_chain_data
subscribe-Writes m v = Writes-seq write_version-Writes (
    Writes-seq
      (write_list-Writes IsHash itself write_hash32 write_hash32-Writes m.watch_txids v.txids)
      (Writes-last (
        write_list-Writes IsScript framed_u16 write_bytes_u16 write_bytes_u16-Writes m.watch_scripts
          v.scripts)))

pub bundle-Writes :
    (m : ChainDataBundle) → BundleIsValid m → Writes (put_chain_data_bundle m) (bundle_layout m)
unfolding put_chain_data_bundle
bundle-Writes m v = Writes-seq write_version-Writes (
    Writes-seq (put_u32-Writes m.tip_height v.height) (
      Writes-seq (write_hash32-Writes m.tip_blockhash v.tip) (
        Writes-seq
          (write_list-Writes IsHash itself write_hash32 write_hash32-Writes m.recent_blockhashes
            v.recent)
          (Writes-seq (put_u32-Writes m.fee_sat_per_vb_fast v.fast) (
            Writes-seq (put_u32-Writes m.fee_sat_per_vb_medium v.medium)
              (Writes-last (put_u32-Writes m.fee_sat_per_vb_slow v.slow)))))))

pub rates-Writes : (m : FeeRatesKw) → RatesIsValid m → Writes (put_fee_rates_kw m) (rates_layout m)
unfolding put_fee_rates_kw
rates-Writes m v = Writes-seq write_version-Writes (
    Writes-seq (put_rate-Writes m.fast_sat_per_kw v.fast) (
      Writes-seq (put_rate-Writes m.medium_sat_per_kw v.medium) (
        Writes-seq (put_rate-Writes m.slow_sat_per_kw v.slow)
          (Writes-last (put_rate-Writes m.relay_floor_sat_per_kw v.floor)))))

pub abandoned-Writes :
    (m : JitFundingAbandoned)
    → AbandonedIsValid m
    → Writes (put_jit_funding_abandoned m) (abandoned_layout m)
unfolding put_jit_funding_abandoned
abandoned-Writes m v = Writes-seq write_version-Writes (
    Writes-seq (put_display_txid-Writes m.funding_txid_display_hex v.digits v.count)
      (Writes-last (put_rate-Writes m.output_index v.index)))

pub height-Writes :
    (m : BlockHeightUpdate) → HeightIsValid m → Writes (put_block_height_update m) (height_layout m)
unfolding put_block_height_update
height-Writes m v = Writes-seq write_version-Writes (
    Writes-seq (put_u32-Writes m.new_height v.height)
      (Writes-last (write_hash32-Writes m.new_blockhash v.hash)))

pub confirmed-Writes :
    (m : FundingTxConfirmed)
    → ConfirmedIsValid m
    → Writes (put_funding_tx_confirmed m) (confirmed_layout m)
unfolding put_funding_tx_confirmed
confirmed-Writes m v = Writes-seq write_version-Writes (
    Writes-seq (write_hash32-Writes m.txid v.id) (
      Writes-seq (put_u32-Writes m.confirmed_at_height v.height) (
        Writes-seq (write_hash32-Writes m.blockhash_of_confirmation v.block) (
          Writes-seq (put_u32-Writes m.confirmations v.count) (
            Writes-seq (write_bytes_u32-Writes m.raw_tx_bytes max_raw_tx_bytes v.raw (omega arith))
              (Writes-last (put_u32-Writes m.tx_index v.index)))))))

pub schedule-Writes :
    (m : FeeScheduleUpdate)
    → ScheduleIsValid m
    → Writes (put_fee_schedule_update m) (schedule_layout m)
unfolding put_fee_schedule_update
schedule-Writes m v = Writes-seq write_version-Writes (
    Writes-seq (put_u32-Writes m.fee_sat_per_vb_fast v.fast) (
      Writes-seq (put_u32-Writes m.fee_sat_per_vb_medium v.medium)
        (Writes-last (put_u32-Writes m.fee_sat_per_vb_slow v.slow))))

pub state-Writes :
    (m : ChannelStateUpdate) → StateIsValid m → Writes (put_channel_state_update m) (state_layout m)
unfolding put_channel_state_update
state-Writes m v = Writes-seq write_version-Writes (
    Writes-seq (write_pubkey-Writes m.counterparty_pubkey v.pubkey) (
      Writes-seq (write_hash32-Writes m.funding_txid v.id) (
        Writes-seq (put_state-Writes m.state v.tag) (
          Writes-last (
            write_option-Writes IsU32 be32 put_u32 put_u32-Writes m.observed_at_height v.height)))))

pub watch_tx-Writes :
    (m : RegisterWatchTx) → WatchTxIsValid m → Writes (put_register_watch_tx m) (watch_tx_layout m)
unfolding put_register_watch_tx
watch_tx-Writes m v = Writes-seq write_version-Writes (
    Writes-seq (write_hash32-Writes m.txid v.id)
      (Writes-last (write_bytes_u16-Writes m.script_pubkey v.script)))

pub watch_output-Writes :
    (m : RegisterWatchOutput)
    → WatchOutputIsValid m
    → Writes (put_register_watch_output m) (watch_output_layout m)
unfolding put_register_watch_output
watch_output-Writes m v = Writes-seq write_version-Writes (
    Writes-seq (write_hash32-Writes m.funding_txid v.id) (
      Writes-seq (put_u32-Writes m.output_index v.index) (
        Writes-seq (write_bytes_u16-Writes m.script_pubkey v.script) (
          Writes-last (
            write_option-Writes IsHash itself write_hash32 write_hash32-Writes m.created_in_block
              v.block)))))

pub broadcast-Writes :
    (m : BroadcastTx) → BroadcastIsValid m → Writes (put_broadcast_tx m) (broadcast_layout m)
unfolding put_broadcast_tx
broadcast-Writes m v = Writes-seq write_version-Writes (
    Writes-seq (put_u64-Writes m.request_id v.id)
      (Writes-last (write_bytes_u32-Writes m.raw_tx max_raw_tx_bytes v.raw (omega arith))))

pub ack-Writes : (m : BroadcastAck) → AckIsValid m → Writes (put_broadcast_ack m) (ack_layout m)
unfolding put_broadcast_ack
ack-Writes m v = Writes-seq write_version-Writes (
    Writes-seq (put_u64-Writes m.request_id v.id) (
      Writes-seq (put_result-Writes m.result v.tag)
        (Writes-last (write_bytes_u16-Writes m.detail v.detail))))
