-- ===== src/Wire/Dispatch.antt =====
-- cooperative-chain-msg.js: the type ids, the encoders as a whole, and `decodeByType`.
pub mod Laws
use lijox_lnd_adapter.Prelude.{ℕ, if◌then◌else◌, ◌==◌, Option, none, some}
use lijox_lnd_adapter.Wire.Format.{Bytes, Result, ok, err}
use lijox_lnd_adapter.Wire.Put.{run_put}
use lijox_lnd_adapter.Wire.Get.{Get, run_get}
use lijox_lnd_adapter.Wire.Messages.{
  SubscribeChainData, ChainDataBundle, FeeRatesKw, JitFundingAbandoned, BlockHeightUpdate,
  FundingTxConfirmed, FeeScheduleUpdate, ChannelStateUpdate, RegisterWatchTx, RegisterWatchOutput,
  BroadcastTx, BroadcastAck,
}
use lijox_lnd_adapter.Wire.Encode.{
  put_subscribe_chain_data, put_chain_data_bundle, put_fee_rates_kw, put_jit_funding_abandoned,
  put_block_height_update, put_funding_tx_confirmed, put_fee_schedule_update,
  put_channel_state_update, put_register_watch_tx, put_register_watch_output, put_broadcast_tx,
  put_broadcast_ack,
}
use lijox_lnd_adapter.Wire.Decode.{
  get_subscribe_chain_data, get_chain_data_bundle, get_fee_rates_kw, get_jit_funding_abandoned,
  get_block_height_update, get_funding_tx_confirmed, get_fee_schedule_update,
  get_channel_state_update, get_register_watch_tx, get_register_watch_output, get_broadcast_tx,
  get_broadcast_ack,
}

-- `{ name, msg }`: the name is the constructor.
pub data Message : Type 0 where
  subscribe : SubscribeChainData → Message
  bundle : ChainDataBundle → Message
  height : BlockHeightUpdate → Message
  confirmed : FundingTxConfirmed → Message
  schedule : FeeScheduleUpdate → Message
  state : ChannelStateUpdate → Message
  watch_tx : RegisterWatchTx → Message
  watch_output : RegisterWatchOutput → Message
  broadcast : BroadcastTx → Message
  ack : BroadcastAck → Message
  abandoned : JitFundingAbandoned → Message

-- The TYPE_* constants of the messages that `decodeByType` knows.
unfoldable pub type_id : Message → ℕ
type_id (subscribe m) = 32801
type_id (bundle m) = 32803
type_id (height m) = 32805
type_id (confirmed m) = 32807
type_id (schedule m) = 32809
type_id (state m) = 32811
type_id (watch_tx m) = 32813
type_id (watch_output m) = 32815
type_id (broadcast m) = 32817
type_id (ack m) = 32819
type_id (abandoned m) = 32823

-- TYPE_FEE_RATES_KW.
abbrev pub type_fee_rates_kw : ℕ
type_fee_rates_kw = 32821

-- The encoder of each message.
unfoldable pub encode : Message → Result Bytes
encode (subscribe m) = run_put (put_subscribe_chain_data m)
encode (bundle m) = run_put (put_chain_data_bundle m)
encode (height m) = run_put (put_block_height_update m)
encode (confirmed m) = run_put (put_funding_tx_confirmed m)
encode (schedule m) = run_put (put_fee_schedule_update m)
encode (state m) = run_put (put_channel_state_update m)
encode (watch_tx m) = run_put (put_register_watch_tx m)
encode (watch_output m) = run_put (put_register_watch_output m)
encode (broadcast m) = run_put (put_broadcast_tx m)
encode (ack m) = run_put (put_broadcast_ack m)
encode (abandoned m) = run_put (put_jit_funding_abandoned m)

unfoldable pub encode_fee_rates_kw : FeeRatesKw → Result Bytes
encode_fee_rates_kw m = run_put (put_fee_rates_kw m)

unfoldable pub decode_fee_rates_kw : Bytes → Result FeeRatesKw
decode_fee_rates_kw = run_get get_fee_rates_kw

abbrev pub wrap : {A : Type 0} → (A → Message) → Result A → Result (Option Message)
wrap c (ok a) = ok (some (c a))
wrap c (err e) = err e

unfoldable pub decoded : {A : Type 0} → (A → Message) → Get A → Bytes → Result (Option Message)
decoded c g buf = wrap c (run_get g buf)

-- The switch; its `default` answers null.
unfoldable pub decode_by_type : ℕ → Bytes → Result (Option Message)
decode_by_type id buf =
    if id == 32801
    then decoded subscribe get_subscribe_chain_data buf
    else if id == 32803
    then decoded bundle get_chain_data_bundle buf
    else if id == 32805
    then decoded height get_block_height_update buf
    else if id == 32807
    then decoded confirmed get_funding_tx_confirmed buf
    else if id == 32809
    then decoded schedule get_fee_schedule_update buf
    else if id == 32811
    then decoded state get_channel_state_update buf
    else if id == 32813
    then decoded watch_tx get_register_watch_tx buf
    else if id == 32815
    then decoded watch_output get_register_watch_output buf
    else if id == 32817
    then decoded broadcast get_broadcast_tx buf
    else if id == 32819
    then decoded ack get_broadcast_ack buf
    else if id == 32823
    then decoded abandoned get_jit_funding_abandoned buf
    else ok none
