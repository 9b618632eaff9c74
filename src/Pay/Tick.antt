-- ===== src/Pay/Tick.antt =====
-- onchain-pay.js: `tick` for one open record, `pruneEnded`, and a payment's life as a list of events.
use lijox_lnd_adapter.Prelude.{
  ℕ, ◌+◌, ltb, leb, ◌==◌, if◌then◌else◌, ◌&&◌, ◌||◌, not, Bool, true, false, Option, none, some, [],
  ◌∷◌,
}
use lijox_lnd_adapter.Wire.Format.{Bytes}
use lijox_lnd_adapter.Pay.Record.{
  State, quoted, locked, lock_confirmed, released, taking_back, done, expired, same, is_end, Rec,
  settle, cancel, lock_bump_after_blocks, quote_valid_ms, open_window_ms, month_ms, Done, unchanged,
  end_as,
}
use lijox_lnd_adapter.Pay.Lock.{bump}
use lijox_lnd_adapter.Pay.TakeBack.{TakeBackReplies, take_back}

-- The answers of one tick: `slow` is the lock's confirmations where the tick asks for them, and
-- `settles` whether LND takes the settle.
pub record TickReplies : Type 0 where
  pub tip : ℕ
  pub verified : Bool
  pub take : TakeBackReplies
  pub slow : Option ℕ
  pub settles : Bool

abbrev pub holds_coins : State → Bool
holds_coins locked = true
holds_coins lock_confirmed = true
holds_coins taking_back = true
holds_coins _ = false

-- `tip - block >= n`
abbrev pub blocks_since : ℕ → ℕ → ℕ → Bool
blocks_since n block tip = leb (block + n) tip

-- The quote was never opened.
unfoldable pub expire : ℕ → Rec → Done
unfolding end_as
expire now r = record { rec = end_as expired now r; effects = cancel r.a_hash ∷ cancel r.hash ∷ [] }

unfoldable pub retry_with : ℕ → Bool → Option Bytes → Rec → Done
unfolding end_as
retry_with now settles none r = unchanged r
retry_with now settles (some s) r =
    if not (r.settle_last_try == 0) && leb now (r.settle_last_try + 15000)
    then unchanged r
    else record {
      rec =
          (if settles
            then end_as done now (record r { settle_last_try = now })
            else record r { settle_last_try = now });
      effects = settle s ∷ [];
    }

-- `lock_bump_block || lock_block`
abbrev pub last_bump : Rec → ℕ
last_bump r = if r.lock_bump_block == 0 then r.lock_block else r.lock_bump_block

module _ (sha sign : Bytes → Bytes) (num : ℕ → ℕ) where
  unfoldable pub bump_slow : ℕ → Option ℕ → TakeBackReplies → Rec → Done
  bump_slow tip none x r = unchanged r
  bump_slow tip (some confirmations) x r =
      if ltb confirmations 1 then bump sha num tip x.bumped x.bumped_raw r else unchanged r

  unfoldable pub tick_due : TickReplies → Rec → Done
  tick_due x r =
      if not (same r.state taking_back)
        || (not (r.takeback_block == 0)
            && blocks_since lock_bump_after_blocks r.takeback_block x.tip)
      then take_back sha sign num x.verified x.tip x.take r
      else unchanged r

  -- One record's part of `tick`.
  unfoldable pub tick : ℕ → TickReplies → Rec → Done
  unfolding tick_due bump_slow retry_with expire
  tick now x r =
      if holds_coins r.state && leb r.t x.tip
      then tick_due x r
      else if same r.state locked
          && (not (r.lock_block == 0) && blocks_since lock_bump_after_blocks (last_bump r) x.tip)
      then bump_slow x.tip x.slow x.take r
      else if same r.state released
      then retry_with now x.settles r.secret r
      else if same r.state quoted && ltb (r.quoted_at + (quote_valid_ms + open_window_ms)) now
      then expire now r
      else unchanged r

-- pruneEnded: whether the record is dropped.
unfoldable pub is_pruned : ℕ → Rec → Bool
is_pruned now r = is_end r.state && (not (r.ended_at == 0) && ltb (r.ended_at + month_ms) now)
