-- ===== src/Wire/Messages.antt =====
-- cooperative-chain-msg.js: the fields of each message, its type id, and the two enumerations.
-- A hash, a key, a script and a transaction are their bytes; `detail` is its UTF-8 bytes.
use lijox_lnd_adapter.Prelude.{ℕ, String, Option, none, some, List, if◌then◌else◌, ◌==◌}
use lijox_lnd_adapter.Wire.Format.{Bytes}
use text.Mathlib.Text.{◌==◌ as str_eq}

pub record SubscribeChainData : Type 0 where
  pub watch_txids : List Bytes
  pub watch_scripts : List Bytes

pub record ChainDataBundle : Type 0 where
  pub tip_height : ℕ
  pub tip_blockhash : Bytes
  pub recent_blockhashes : List Bytes
  pub fee_sat_per_vb_fast : ℕ
  pub fee_sat_per_vb_medium : ℕ
  pub fee_sat_per_vb_slow : ℕ

pub record FeeRatesKw : Type 0 where
  pub fast_sat_per_kw : ℕ
  pub medium_sat_per_kw : ℕ
  pub slow_sat_per_kw : ℕ
  pub relay_floor_sat_per_kw : ℕ

-- The txid as display hexadecimal, a list of character codes.
pub record JitFundingAbandoned : Type 0 where
  pub funding_txid_display_hex : List ℕ
  pub output_index : ℕ

pub record BlockHeightUpdate : Type 0 where
  pub new_height : ℕ
  pub new_blockhash : Bytes

-- `tx_index` is 0 where the caller left it out.
pub record FundingTxConfirmed : Type 0 where
  pub txid : Bytes
  pub confirmed_at_height : ℕ
  pub blockhash_of_confirmation : Bytes
  pub confirmations : ℕ
  pub raw_tx_bytes : Bytes
  pub tx_index : ℕ

pub record FeeScheduleUpdate : Type 0 where
  pub fee_sat_per_vb_fast : ℕ
  pub fee_sat_per_vb_medium : ℕ
  pub fee_sat_per_vb_slow : ℕ

-- A state or a result is given as a byte or by its name; the decoder answers with the name.
pub data Tag : Type 0 where
  byte : ℕ → Tag
  name : String → Tag

pub record ChannelStateUpdate : Type 0 where
  pub counterparty_pubkey : Bytes
  pub funding_txid : Bytes
  pub state : Tag
  pub observed_at_height : Option ℕ

pub record RegisterWatchTx : Type 0 where
  pub txid : Bytes
  pub script_pubkey : Bytes

pub record RegisterWatchOutput : Type 0 where
  pub funding_txid : Bytes
  pub output_index : ℕ
  pub script_pubkey : Bytes
  pub created_in_block : Option Bytes

pub record BroadcastTx : Type 0 where
  pub request_id : ℕ
  pub raw_tx : Bytes

pub record BroadcastAck : Type 0 where
  pub request_id : ℕ
  pub result : Tag
  pub detail : Bytes

-- CHANNEL_STATE
unfoldable pub channel_state : String → Option ℕ
channel_state s =
    if str_eq s "Pending"
    then some 0
    else if str_eq s "Active"
    then some 1
    else if str_eq s "Inactive"
    then some 2
    else if str_eq s "CooperativeCloseInitiated"
    then some 3
    else if str_eq s "ForceCloseInitiated"
    then some 4
    else if str_eq s "ClosedOnChain"
    then some 5
    else none

-- CHANNEL_STATE_NAMES
unfoldable pub channel_state_name : ℕ → Option String
channel_state_name b =
    if b == 0
    then some "Pending"
    else if b == 1
    then some "Active"
    else if b == 2
    then some "Inactive"
    else if b == 3
    then some "CooperativeCloseInitiated"
    else if b == 4
    then some "ForceCloseInitiated"
    else if b == 5
    then some "ClosedOnChain"
    else none

-- BROADCAST_RESULT
unfoldable pub broadcast_result : String → Option ℕ
broadcast_result s =
    if str_eq s "Relayed"
    then some 0
    else if str_eq s "Rejected"
    then some 1
    else if str_eq s "Unavailable"
    then some 2
    else none

-- BROADCAST_RESULT_NAMES
unfoldable pub broadcast_result_name : ℕ → Option String
broadcast_result_name b =
    if b == 0
    then some "Relayed"
    else if b == 1
    then some "Rejected"
    else if b == 2
    then some "Unavailable"
    else none
