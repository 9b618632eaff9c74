-- ===== src/Wire/Decode.antt =====
-- cooperative-chain-msg.js: the `decode*` functions. `get_x` is a decoder's body after
-- `new Reader(buf)`; `run_get get_x` is the decoder.
use lijox_lnd_adapter.Prelude.{ℕ, String, leb, if◌then◌else◌, Option, none, some, List}
use mathlib.Core.List.{reverse}
use lijox_lnd_adapter.Hex.{hex}
use lijox_lnd_adapter.Wire.Format.{Bytes, err, bad_byte}
use lijox_lnd_adapter.Wire.Put.{max_raw_tx_bytes}
use lijox_lnd_adapter.Wire.Get.{
  Get, ◌>>=◌, ◌>>◌, pure, get_u8, get_u16, get_u32, get_u64, remaining, read_version,
  read_bytes_u16, read_bytes_u32, read_hash32, read_pubkey, read_option, read_many,
}
use lijox_lnd_adapter.Wire.Messages.{
  SubscribeChainData, ChainDataBundle, FeeRatesKw, JitFundingAbandoned, BlockHeightUpdate,
  FundingTxConfirmed, FeeScheduleUpdate, Tag, name, ChannelStateUpdate, RegisterWatchTx,
  RegisterWatchOutput, BroadcastTx, BroadcastAck, channel_state_name, broadcast_result_name,
}

-- `const n = r.u16(); for (let i = 0; i < n; i++) xs.push(read(r))`.
unfoldable pub read_list : Get Bytes → Get (List Bytes)
read_list inner = get_u16 >>= λ n. read_many n inner

unfoldable pub get_subscribe_chain_data : Get SubscribeChainData
get_subscribe_chain_data = do
  read_version
  txids ← read_list read_hash32
  scripts ← read_list read_bytes_u16
  pure (record { watch_txids = txids; watch_scripts = scripts })

unfoldable pub get_chain_data_bundle : Get ChainDataBundle
get_chain_data_bundle = do
  read_version
  height ← get_u32
  tip ← read_hash32
  recent ← read_list read_hash32
  fast ← get_u32
  medium ← get_u32
  slow ← get_u32
  pure (record {
    tip_height = height;
    tip_blockhash = tip;
    recent_blockhashes = recent;
    fee_sat_per_vb_fast = fast;
    fee_sat_per_vb_medium = medium;
    fee_sat_per_vb_slow = slow;
  })

unfoldable pub get_fee_rates_kw : Get FeeRatesKw
get_fee_rates_kw = do
  read_version
  fast ← get_u32
  medium ← get_u32
  slow ← get_u32
  relay_floor ← get_u32
  pure (record {
    fast_sat_per_kw = fast;
    medium_sat_per_kw = medium;
    slow_sat_per_kw = slow;
    relay_floor_sat_per_kw = relay_floor;
  })

unfoldable pub get_jit_funding_abandoned : Get JitFundingAbandoned
get_jit_funding_abandoned = do
  read_version
  internal ← read_hash32
  index ← get_u32
  pure (record { funding_txid_display_hex = hex (reverse internal); output_index = index })

unfoldable pub get_block_height_update : Get BlockHeightUpdate
get_block_height_update = do
  read_version
  height ← get_u32
  hash ← read_hash32
  pure (record { new_height = height; new_blockhash = hash })

-- `r.remaining() >= 4 ? r.u32() : 0`.
unfoldable pub get_trailing_u32 : Get ℕ
get_trailing_u32 = do left ← remaining; if leb 4 left then get_u32 else pure 0

unfoldable pub get_funding_tx_confirmed : Get FundingTxConfirmed
get_funding_tx_confirmed = do
  read_version
  id ← read_hash32
  height ← get_u32
  block ← read_hash32
  count ← get_u32
  raw ← read_bytes_u32 max_raw_tx_bytes
  index ← get_trailing_u32
  pure (record {
    txid = id;
    confirmed_at_height = height;
    blockhash_of_confirmation = block;
    confirmations = count;
    raw_tx_bytes = raw;
    tx_index = index;
  })

unfoldable pub get_fee_schedule_update : Get FeeScheduleUpdate
get_fee_schedule_update = do
  read_version
  fast ← get_u32
  medium ← get_u32
  slow ← get_u32
  pure (record {
    fee_sat_per_vb_fast = fast;
    fee_sat_per_vb_medium = medium;
    fee_sat_per_vb_slow = slow;
  })

unfoldable pub named : ℕ → Option String → Get Tag
named b none r = err (bad_byte b)
named b (some s) r = pure (name s) r

-- The byte is turned into its name, or refused.
unfoldable pub get_tag : (ℕ → Option String) → Get Tag
get_tag names = get_u8 >>= λ b. named b (names b)

unfoldable pub get_channel_state_update : Get ChannelStateUpdate
get_channel_state_update = do
  read_version
  pubkey ← read_pubkey
  id ← read_hash32
  tag ← get_tag channel_state_name
  height ← read_option get_u32
  pure (record {
    counterparty_pubkey = pubkey;
    funding_txid = id;
    state = tag;
    observed_at_height = height;
  })

unfoldable pub get_register_watch_tx : Get RegisterWatchTx
get_register_watch_tx = do
  read_version
  id ← read_hash32
  script ← read_bytes_u16
  pure (record { txid = id; script_pubkey = script })

unfoldable pub get_register_watch_output : Get RegisterWatchOutput
get_register_watch_output = do
  read_version
  id ← read_hash32
  index ← get_u32
  script ← read_bytes_u16
  block ← read_option read_hash32
  pure (record {
    funding_txid = id;
    output_index = index;
    script_pubkey = script;
    created_in_block = block;
  })

unfoldable pub get_broadcast_tx : Get BroadcastTx
get_broadcast_tx = do
  read_version
  id ← get_u64
  raw ← read_bytes_u32 max_raw_tx_bytes
  pure (record { request_id = id; raw_tx = raw })

unfoldable pub get_broadcast_ack : Get BroadcastAck
get_broadcast_ack = do
  read_version
  id ← get_u64
  tag ← get_tag broadcast_result_name
  text ← read_bytes_u16
  pure (record { request_id = id; result = tag; detail = text })
