-- ===== src/Wire/Layout.antt =====
-- The bytes of each message as the Rust side defines them (the header of
-- cooperative-chain-msg.js), written apart from the encoders, and which field values have a
-- layout at all.
use lijox_lnd_adapter.Prelude.{
  ℕ, String, ◌<◌, ◌≤◌, ◌≡◌, Option, none, some, List, [], ◌∷◌, ◌++◌, length,
}
use mathlib.Core.List.{reverse}
use lijox_lnd_adapter.Hex.{unhex}
use lijox_lnd_adapter.Hex.Laws.{AllLowerHex}
use lijox_lnd_adapter.Wire.Format.{Bytes, be16, be32, be64}
use lijox_lnd_adapter.Wire.Put.{max_raw_tx_bytes}
use lijox_lnd_adapter.Wire.Laws.{framed_u16, framed_u32, option_layout, AllSome, All, concat, join}
use lijox_lnd_adapter.Wire.Messages.{
  SubscribeChainData, ChainDataBundle, FeeRatesKw, JitFundingAbandoned, BlockHeightUpdate,
  FundingTxConfirmed, FeeScheduleUpdate, Tag, byte, name, ChannelStateUpdate, RegisterWatchTx,
  RegisterWatchOutput, BroadcastTx, BroadcastAck, channel_state, channel_state_name,
  broadcast_result, broadcast_result_name,
}

abbrev pub IsU32 : ℕ → Type 0
IsU32 v = v < 4294967296

abbrev pub IsU64 : ℕ → Type 0
IsU64 v = v < 18446744073709551616

abbrev pub IsHash : Bytes → Type 0
IsHash h = length h ≡ 32

abbrev pub IsScript : Bytes → Type 0
IsScript b = length b < 65536

abbrev pub IsRawTx : Bytes → Type 0
IsRawTx b = length b ≤ max_raw_tx_bytes

abbrev pub itself : Bytes → Bytes
itself b = b

abbrev pub version : Bytes
version = 2 ∷ []

-- A u16 count, then the items.
abbrev pub list_layout : (Bytes → Bytes) → List Bytes → Bytes
list_layout layout xs = be16 (length xs) ++ concat layout xs

abbrev pub IsList : (Bytes → Type 0) → List Bytes → Type 0
IsList P xs = (length xs < 65536) × All P xs

-- One byte: the number given, or the table's for the name given.
abbrev pub tag_value : (String → Option ℕ) → Tag → Option ℕ
tag_value table (byte b) = some b
tag_value table (name s) = table s

abbrev one_byte : Option ℕ → Bytes
one_byte none = []
one_byte (some b) = b ∷ []

abbrev pub tag_layout : (String → Option ℕ) → Tag → Bytes
tag_layout table t = one_byte (tag_value table t)

-- The tag has a byte, and the byte has a name.
abbrev pub IsTag : (String → Option ℕ) → (ℕ → Option String) → Tag → Type 0
IsTag table names t = (b : ℕ) × (s : String) × (tag_value table t ≡ some b) × (names b ≡ some s)

abbrev named_or : Option String → Tag → Tag
named_or none t = t
named_or (some s) t = name s

-- A tag by its name: what the decoder answers.
abbrev pub named_tag : (ℕ → Option String) → Tag → Tag
named_tag names (byte b) = named_or (names b) (byte b)
named_tag names (name s) = name s

abbrev pub subscribe_layout : SubscribeChainData → Bytes
subscribe_layout m =
    join (version ∷ list_layout itself m.watch_txids ∷ list_layout framed_u16 m.watch_scripts ∷ [])

pub record SubscribeIsValid (m : SubscribeChainData) : Type 0 where
  pub txids : IsList IsHash m.watch_txids
  pub scripts : IsList IsScript m.watch_scripts

abbrev pub bundle_layout : ChainDataBundle → Bytes
bundle_layout m = join (
    version
    ∷ be32 m.tip_height
    ∷ m.tip_blockhash
    ∷ list_layout itself m.recent_blockhashes
    ∷ be32 m.fee_sat_per_vb_fast
    ∷ be32 m.fee_sat_per_vb_medium
    ∷ be32 m.fee_sat_per_vb_slow
    ∷ [])

pub record BundleIsValid (m : ChainDataBundle) : Type 0 where
  pub height : IsU32 m.tip_height
  pub tip : IsHash m.tip_blockhash
  pub recent : IsList IsHash m.recent_blockhashes
  pub fast : IsU32 m.fee_sat_per_vb_fast
  pub medium : IsU32 m.fee_sat_per_vb_medium
  pub slow : IsU32 m.fee_sat_per_vb_slow

abbrev pub rates_layout : FeeRatesKw → Bytes
rates_layout m = join (
    version
    ∷ be32 m.fast_sat_per_kw
    ∷ be32 m.medium_sat_per_kw
    ∷ be32 m.slow_sat_per_kw
    ∷ be32 m.relay_floor_sat_per_kw
    ∷ [])

pub record RatesIsValid (m : FeeRatesKw) : Type 0 where
  pub fast : IsU32 m.fast_sat_per_kw
  pub medium : IsU32 m.medium_sat_per_kw
  pub slow : IsU32 m.slow_sat_per_kw
  pub floor : IsU32 m.relay_floor_sat_per_kw

-- The txid in the internal order, which is the display order reversed.
abbrev pub abandoned_layout : JitFundingAbandoned → Bytes
abandoned_layout m =
    join (version ∷ reverse (unhex m.funding_txid_display_hex) ∷ be32 m.output_index ∷ [])

pub record AbandonedIsValid (m : JitFundingAbandoned) : Type 0 where
  pub digits : AllLowerHex m.funding_txid_display_hex
  pub count : length m.funding_txid_display_hex ≡ 64
  pub index : IsU32 m.output_index

abbrev pub height_layout : BlockHeightUpdate → Bytes
height_layout m = join (version ∷ be32 m.new_height ∷ m.new_blockhash ∷ [])

pub record HeightIsValid (m : BlockHeightUpdate) : Type 0 where
  pub height : IsU32 m.new_height
  pub hash : IsHash m.new_blockhash

-- All but the last field, which older senders leave out.
abbrev pub old_confirmed_fields : FundingTxConfirmed → List Bytes → List Bytes
old_confirmed_fields m rest =
    version
    ∷ m.txid
    ∷ be32 m.confirmed_at_height
    ∷ m.blockhash_of_confirmation
    ∷ be32 m.confirmations
    ∷ framed_u32 m.raw_tx_bytes
    ∷ rest

abbrev pub confirmed_layout : FundingTxConfirmed → Bytes
confirmed_layout m = join (old_confirmed_fields m (be32 m.tx_index ∷ []))

pub record ConfirmedIsValid (m : FundingTxConfirmed) : Type 0 where
  pub id : IsHash m.txid
  pub height : IsU32 m.confirmed_at_height
  pub block : IsHash m.blockhash_of_confirmation
  pub count : IsU32 m.confirmations
  pub raw : IsRawTx m.raw_tx_bytes
  pub index : IsU32 m.tx_index

abbrev pub schedule_layout : FeeScheduleUpdate → Bytes
schedule_layout m = join (
    version
    ∷ be32 m.fee_sat_per_vb_fast
    ∷ be32 m.fee_sat_per_vb_medium
    ∷ be32 m.fee_sat_per_vb_slow
    ∷ [])

pub record ScheduleIsValid (m : FeeScheduleUpdate) : Type 0 where
  pub fast : IsU32 m.fee_sat_per_vb_fast
  pub medium : IsU32 m.fee_sat_per_vb_medium
  pub slow : IsU32 m.fee_sat_per_vb_slow

abbrev pub state_layout : ChannelStateUpdate → Bytes
state_layout m = join (
    version
    ∷ m.counterparty_pubkey
    ∷ m.funding_txid
    ∷ tag_layout channel_state m.state
    ∷ option_layout be32 m.observed_at_height
    ∷ [])

pub record StateIsValid (m : ChannelStateUpdate) : Type 0 where
  pub pubkey : length m.counterparty_pubkey ≡ 33
  pub id : IsHash m.funding_txid
  pub tag : IsTag channel_state channel_state_name m.state
  pub height : AllSome IsU32 m.observed_at_height

abbrev pub watch_tx_layout : RegisterWatchTx → Bytes
watch_tx_layout m = join (version ∷ m.txid ∷ framed_u16 m.script_pubkey ∷ [])

pub record WatchTxIsValid (m : RegisterWatchTx) : Type 0 where
  pub id : IsHash m.txid
  pub script : IsScript m.script_pubkey

abbrev pub watch_output_layout : RegisterWatchOutput → Bytes
watch_output_layout m = join (
    version
    ∷ m.funding_txid
    ∷ be32 m.output_index
    ∷ framed_u16 m.script_pubkey
    ∷ option_layout itself m.created_in_block
    ∷ [])

pub record WatchOutputIsValid (m : RegisterWatchOutput) : Type 0 where
  pub id : IsHash m.funding_txid
  pub index : IsU32 m.output_index
  pub script : IsScript m.script_pubkey
  pub block : AllSome IsHash m.created_in_block

abbrev pub broadcast_layout : BroadcastTx → Bytes
broadcast_layout m = join (version ∷ be64 m.request_id ∷ framed_u32 m.raw_tx ∷ [])

pub record BroadcastIsValid (m : BroadcastTx) : Type 0 where
  pub id : IsU64 m.request_id
  pub raw : IsRawTx m.raw_tx

abbrev pub ack_layout : BroadcastAck → Bytes
ack_layout m =
    join (
      version ∷ be64 m.request_id ∷ tag_layout broadcast_result m.result ∷ framed_u16 m.detail ∷ [])

pub record AckIsValid (m : BroadcastAck) : Type 0 where
  pub id : IsU64 m.request_id
  pub tag : IsTag broadcast_result broadcast_result_name m.result
  pub detail : IsScript m.detail
