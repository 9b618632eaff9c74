-- ===== src/Pay/Earned.antt =====
-- onchain-pay.js: with which preimages a payment's two invoices are collected; the
-- confirmation of the lock, its spend and a release.
pub mod Runs
mod Locked
use lijox_lnd_adapter.Prelude.{
  ℕ, ◌+◌, ltb, leb, ◌==◌, not, ◌≡◌, refl, sym, ap, ◌∙◌, ◌&&◌, ◌||◌, Bool, true, false, Option, none,
  some, List, [], ◌∷◌, ◌++◌, Bool-cases, Option-cases, inl, inr, arith, if◌then◌else◌,
}
use lijox_lnd_adapter.Wire.Format.{Bytes}
use lijox_lnd_adapter.Tx.Script.{handover_script, p2wsh}
use lijox_lnd_adapter.Tx.Parse.{Parsed, ParsedIn, parse}
use lijox_lnd_adapter.Pay.Record.{
  quoted, opening, locked, lock_confirmed, released, taking_back, same, same_bytes, last_id,
  lock_bump_after_blocks, open_window_ms, quote_valid_ms, end_as, Rec, Effect, send_lock, bump_fee,
  broadcast, mint, settle, cancel, watch, unwatch, ledger, Settings, Done, Call, unchanged,
}
use lijox_lnd_adapter.Pay.Lock.{
  LockReplies, Invoice, cancel_both, place_lock, finish_lock, send, try_bump, or_stay, bump,
  on_confirmed, on_invoices, is_accepted, is_canceled,
}
use lijox_lnd_adapter.Pay.Spent.{
  Spend, Seen, secret_of, ours, other, read_items, read_input, read_tx, read_spend, lock_spender,
  first_input, or_else, paid_out, came_back, gone, without_secret, on_seen, on_spent,
}
use lijox_lnd_adapter.Pay.Quote.{
  open_quote, hand_over, hand_over_with, read_release, secret_in, release_secret,
}
use lijox_lnd_adapter.Pay.TakeBack.{
  TakeBackReplies, output_at, pays, sweep_lock, take_confirmed, take_matching, take_script,
  take_back,
}
use lijox_lnd_adapter.Pay.Tick.{
  holds_coins, TickReplies, blocks_since, last_bump, retry_with, expire, bump_slow, tick_due, tick,
}
use lijox_lnd_adapter.Pay.Stranded.{place_lock-effects}
use lijox_lnd_adapter.Pay.Life.{
  Event, opened, invoices, confirmed, spent, handed, ticked, rebooted, Rail, reboot, apply, run,
}

module _ (rail : Rail) where
  open rail use {cfg, sha, sign, num}

  -- Every settle is by a preimage of `h`, or by `p` once the lock was sent.
  abbrev pub fair : Bytes → Bytes → Bool → List Effect → Bool
  fair p h sent [] = true
  fair p h sent (send_lock spk sats ∷ es) = fair p h true es
  fair p h sent (settle s ∷ es) =
      (same_bytes (sha s) h || (sent && same_bytes s p)) && fair p h sent es
  fair p h sent (e ∷ es) = fair p h sent es

  -- A secret that is kept is a preimage of `h`.
  abbrev pub knows : Bytes → Option Bytes → Bool
  knows h none = true
  knows h (some s) = same_bytes (sha s) h

  -- What an operation leaves as it is, and what it may collect.
  abbrev pub Honest : Rec → Done → Type 0
  Honest r d =
      (fair r.a_preimage r.hash false d.effects ≡ true)
      × (d.rec.hash ≡ r.hash)
      × (d.rec.a_preimage ≡ r.a_preimage)
      × (knows r.hash d.rec.secret ≡ true)

  abbrev pub Knows : Rec → Type 0
  Knows r = knows r.hash r.secret ≡ true

  pub same_bytes_refl : (b : Bytes) → same_bytes b b ≡ true
  unfolding same_bytes
  same_bytes_refl [] = refl
  same_bytes_refl (x ∷ b) = ground (arith, same_bytes_refl b)

  pub open_quote-Honest : (now : ℕ) (r : Rec) → Knows r → Honest r (open_quote now r).0
  unfolding open_quote
  open_quote-Honest now r k = ground arith

  pub confirmed-Honest :
      (id : Bytes) (height : ℕ) (r : Rec)
      → Knows r
      → Honest r (unchanged (on_confirmed id height r))
  unfolding on_confirmed
  confirmed-Honest id height r k = ground arith

  pub place_lock-keeps :
      (now : ℕ) (x : LockReplies) (r k : Rec)
      → (place_lock sha num cfg now x r).1 ≡ some k
      → (k.hash ≡ r.hash) × (k.a_preimage ≡ r.a_preimage) × (k.secret ≡ r.secret)
  unfolding place_lock
  place_lock-keeps now x r k h = ground arith

  pub place_lock-silent :
      (now : ℕ) (x : LockReplies) (r : Rec)
      → fair r.a_preimage r.hash false (place_lock sha num cfg now x r).0 ≡ true
  unfolding place_lock
  place_lock-silent now x r = ground arith

  pub bump-Honest :
      (tip : ℕ) (sent raw : Option Bytes) (r : Rec)
      → Knows r
      → Honest r (bump sha num tip sent raw r)
  unfolding bump
  bump-Honest tip sent raw r k = ground arith

  paid_out-Honest :
      (now : ℕ) (ev : Spend) (settled : Bool) (s : Bytes) (r : Rec)
      → same_bytes (sha s) r.hash ≡ true
      → Honest r (paid_out sha num now ev settled s r)
  unfolding paid_out
  paid_out-Honest now ev settled s r h = ground arith

  -- A secret that was read is one.
  abbrev tells : Bytes → Seen → Bool
  tells h (secret_of s) = same_bytes (sha s) h
  tells h _ = true

  on_seen-Honest :
      (now : ℕ) (ev : Spend) (settled : Bool) (seen : Seen) (r : Rec)
      → tells r.hash seen ≡ true
      → Knows r
      → Honest r (on_seen sha num now ev settled seen r)
  unfolding on_seen
  on_seen-Honest now ev settled seen r t k = ground arith

  read_items-tells : (h : Bytes) (items : List Bytes) → tells h (read_items sha num h items) ≡ true
  unfolding read_items
  read_items-tells h items = ground arith

  release_secret-known :
      (r : Rec) (items : List Bytes) → knows r.hash (release_secret sha r items) ≡ true
  unfolding release_secret
  release_secret-known r items = ground arith

  read_release-known :
      (r : Rec) (tx : Option Parsed) → knows r.hash (read_release sha num r tx) ≡ true
  unfolding read_release
  read_release-known r none = refl
  read_release-known r (some tx) = elim (Option-cases (lock_spender sha num r tx.inputs)) [
    | inl missing ↦ unfold secret_in in rw missing refl
    | inr (i, found) ↦ unfold secret_in in rw found (release_secret-known r i.witness)
  ]

  hand_over_with-Honest :
      (raw : Bytes) (allowed : Bool) (o : Option Bytes) (r : Rec)
      → knows r.hash o ≡ true
      → Knows r
      → Honest r (hand_over_with raw allowed o r).0
  unfolding hand_over_with
  hand_over_with-Honest raw allowed o r h k = ground arith

  pub hand_over-Honest :
      (raw : Bytes) (allowed : Bool) (r : Rec)
      → Knows r
      → Honest r (hand_over sha num raw allowed r).0
  hand_over-Honest raw allowed r k =
      elim (Bool-cases
        (same r.state locked || same r.state lock_confirmed || same r.state released)) [
          | inl open_for ↦
              unfold hand_over in
              rw open_for (
                hand_over_with-Honest raw allowed _ r (read_release-known r (parse num true raw)) k)
          | inr shut ↦ unfold hand_over in rw shut (refl, refl, refl, k)
        ]

  read_input-tells : (r : Rec) (o : Option ParsedIn) → tells r.hash (read_input sha num r o) ≡ true
  unfolding read_input
  read_input-tells r none = refl
  read_input-tells r (some i) = read_items-tells r.hash i.witness

  read_tx-tells : (r : Rec) (tx : Option Parsed) → tells r.hash (read_tx sha num r tx) ≡ true
  unfolding read_tx
  read_tx-tells r none = refl
  read_tx-tells r (some tx) =
      read_input-tells r
        (or_else sha num (lock_spender sha num r tx.inputs) (first_input sha num tx.inputs))

  read_spend-tells : (r : Rec) (o : Option Bytes) → tells r.hash (read_spend sha num r o) ≡ true
  unfolding read_spend
  read_spend-tells r none = refl
  read_spend-tells r (some raw) = read_tx-tells r (parse num true raw)

  pub spent-Honest :
      (now : ℕ) (ev : Spend) (settled : Bool) (r : Rec)
      → Knows r
      → Honest r (on_spent sha num now ev settled r)
  unfolding on_spent
  spent-Honest now ev settled r k =
      on_seen-Honest now ev settled (read_spend sha num r ev.raw) r (read_spend-tells r ev.raw) k
