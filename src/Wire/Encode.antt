-- ===== src/Wire/Encode.antt =====
-- cooperative-chain-msg.js: the `encode*` functions. `encode_x m` is `run_put (put_x m)`, and
-- `put_x` is its body between `new Writer()` and `finish()`.
use lijox_lnd_adapter.Prelude.{
  ℕ, ltb, if◌then◌else◌, ◌==◌, ◌&&◌, String, Option, none, some, List, length,
}
use mathlib.Core.List.{reverse}
use lijox_lnd_adapter.Hex.{all_hex, unhex}
use lijox_lnd_adapter.Wire.Format.{Bytes, err, too_many, bad_field, bad_name}
use lijox_lnd_adapter.Wire.Put.{
  Put, ◌>>◌, put_u8, put_u16, put_u32, put_u64, write_version, write_bytes_u16, write_bytes_u32,
  write_hash32, write_pubkey, write_option, write_each, max_raw_tx_bytes,
}
use lijox_lnd_adapter.Wire.Messages.{
  SubscribeChainData, ChainDataBundle, FeeRatesKw, JitFundingAbandoned, BlockHeightUpdate,
  FundingTxConfirmed, FeeScheduleUpdate, Tag, byte, name, ChannelStateUpdate, RegisterWatchTx,
  RegisterWatchOutput, BroadcastTx, BroadcastAck, channel_state, broadcast_result,
}

-- `if (xs.length > 0xFFFF) throw …; w.u16(xs.length); for (const x of xs) write(w, x)`.
unfoldable pub write_list : List Bytes → (Bytes → Put) → Put
write_list xs inner =
    if ltb 65535 (length xs)
    then (λ w. err too_many)
    else put_u16 (length xs) >> write_each xs inner

unfoldable pub put_subscribe_chain_data : SubscribeChainData → Put
put_subscribe_chain_data m =
    write_version
    >> write_list m.watch_txids write_hash32
    >> write_list m.watch_scripts write_bytes_u16

unfoldable pub put_chain_data_bundle : ChainDataBundle → Put
put_chain_data_bundle m =
    write_version
    >> put_u32 m.tip_height
    >> write_hash32 m.tip_blockhash
    >> write_list m.recent_blockhashes write_hash32
    >> put_u32 m.fee_sat_per_vb_fast
    >> put_u32 m.fee_sat_per_vb_medium
    >> put_u32 m.fee_sat_per_vb_slow

-- Its own test of each rate throws where `w.u32` would.
unfoldable pub put_rate : ℕ → Put
put_rate v = if ltb 4294967295 v then (λ w. err bad_field) else put_u32 v

unfoldable pub put_fee_rates_kw : FeeRatesKw → Put
put_fee_rates_kw m =
    write_version
    >> put_rate m.fast_sat_per_kw
    >> put_rate m.medium_sat_per_kw
    >> put_rate m.slow_sat_per_kw
    >> put_rate m.relay_floor_sat_per_kw

unfoldable pub put_display_txid : List ℕ → Put
put_display_txid disp =
    if (length disp == 64) && all_hex disp then write_hash32 (reverse (unhex disp)) else λ w.
    err bad_field

unfoldable pub put_jit_funding_abandoned : JitFundingAbandoned → Put
put_jit_funding_abandoned m =
    write_version >> put_display_txid m.funding_txid_display_hex >> put_rate m.output_index

unfoldable pub put_block_height_update : BlockHeightUpdate → Put
put_block_height_update m = write_version >> put_u32 m.new_height >> write_hash32 m.new_blockhash

unfoldable pub put_funding_tx_confirmed : FundingTxConfirmed → Put
put_funding_tx_confirmed m =
    write_version
    >> write_hash32 m.txid
    >> put_u32 m.confirmed_at_height
    >> write_hash32 m.blockhash_of_confirmation
    >> put_u32 m.confirmations
    >> write_bytes_u32 m.raw_tx_bytes max_raw_tx_bytes
    >> put_u32 m.tx_index

unfoldable pub put_fee_schedule_update : FeeScheduleUpdate → Put
put_fee_schedule_update m =
    write_version
    >> put_u32 m.fee_sat_per_vb_fast
    >> put_u32 m.fee_sat_per_vb_medium
    >> put_u32 m.fee_sat_per_vb_slow

unfoldable pub put_named : Option ℕ → Put
put_named none w = err bad_name
put_named (some b) w = put_u8 b w

-- A number goes out as it is; a name is looked up in the table.
unfoldable pub put_tag : (table : String → Option ℕ) → Tag → Put
put_tag table (byte b) = put_u8 b
put_tag table (name s) = put_named (table s)

unfoldable pub put_channel_state_update : ChannelStateUpdate → Put
put_channel_state_update m =
    write_version
    >> write_pubkey m.counterparty_pubkey
    >> write_hash32 m.funding_txid
    >> put_tag channel_state m.state
    >> write_option m.observed_at_height put_u32

unfoldable pub put_register_watch_tx : RegisterWatchTx → Put
put_register_watch_tx m = write_version >> write_hash32 m.txid >> write_bytes_u16 m.script_pubkey

unfoldable pub put_register_watch_output : RegisterWatchOutput → Put
put_register_watch_output m =
    write_version
    >> write_hash32 m.funding_txid
    >> put_u32 m.output_index
    >> write_bytes_u16 m.script_pubkey
    >> write_option m.created_in_block write_hash32

unfoldable pub put_broadcast_tx : BroadcastTx → Put
put_broadcast_tx m =
    write_version >> put_u64 m.request_id >> write_bytes_u32 m.raw_tx max_raw_tx_bytes

unfoldable pub put_broadcast_ack : BroadcastAck → Put
put_broadcast_ack m =
    write_version
    >> put_u64 m.request_id
    >> put_tag broadcast_result m.result
    >> write_bytes_u16 m.detail
