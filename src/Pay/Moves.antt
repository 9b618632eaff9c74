-- ===== src/Pay/Moves.antt =====
-- The states of a payment in onchain-pay.js: the moves of a small machine.
mod Calls
mod Ticks
pub mod Runs
use mathlib.Core.Path.{subst}
use mathlib.Core.Bool.{false≢true}
use lijox_lnd_adapter.Prelude.{
  if◌then◌else◌, ℕ, ◌+◌, ltb, leb, ◌==◌, not, ◌≡◌, ◌⊎◌, refl, sym, ap, ◌∙◌, ◌&&◌, ◌||◌, Bool, true,
  false, Option, none, some, List, [], ◌∷◌, ◌++◌, Bool-cases, Option-cases, inl, inr, arith,
}
use lijox_lnd_adapter.Wire.Format.{Bytes}
use lijox_lnd_adapter.Pay.Record.{
  unchanged, State, quoted, opening, locked, lock_confirmed, released, taking_back, done,
  taken_back, cancelled, expired, spent_unknown, is_end, same, same_bytes, last_id,
  lock_bump_after_blocks, open_window_ms, quote_valid_ms, Rec, Effect, Settings, Done, Call, end_as,
}
use lijox_lnd_adapter.Pay.Lock.{
  LockReplies, Invoice, place_lock, finish_lock, send, cancel_both, bump, try_bump, or_stay, bumped,
  on_confirmed, on_invoices, is_accepted, is_canceled,
}
use lijox_lnd_adapter.Pay.Spent.{
  Spend, Seen, read_spend, paid_out, came_back, gone, without_secret, on_seen, on_spent,
}
use lijox_lnd_adapter.Pay.Tick.{
  holds_coins, TickReplies, blocks_since, last_bump, retry_with, expire, bump_slow, tick_due, tick,
}
use lijox_lnd_adapter.Pay.Quote.{open_quote, hand_over}
use lijox_lnd_adapter.Pay.TakeBack.{
  TakeBackReplies, output_at, pays, sweep_lock, take_confirmed, take_matching, take_script,
  take_back,
}
use lijox_lnd_adapter.Tx.Script.{handover_script, p2wsh}
use lijox_lnd_adapter.Tx.Parse.{Parsed, parse}
use lijox_lnd_adapter.Pay.Life.{
  Event, opened, invoices, confirmed, spent, handed, ticked, rebooted, Rail, reboot, apply, run,
}

-- The lock stands and nobody is known to have spent it rightly.
abbrev pub stands : State → Bool
stands locked = true
stands lock_confirmed = true
stands taking_back = true
stands spent_unknown = true
stands _ = false

-- What a notice of a spend makes of it.
abbrev pub after_spend : State → Bool
after_spend done = true
after_spend released = true
after_spend taken_back = true
after_spend spent_unknown = true
after_spend _ = false

-- One move of a payment.
pub data Move : State → State → Type 0 where
  opens : Move quoted opening
  lapses : Move quoted expired
  gives_up : Move opening cancelled
  locks : Move opening locked
  confirms : Move locked lock_confirmed
  takes_back : {s : State} → holds_coins s ≡ true → Move s taking_back
  is_spent : {s t : State} → stands s ≡ true → after_spend t ≡ true → Move s t
  collects : Move released done

-- Moves after each other.
pub data Reach : State → State → Type 0 where
  here : {s : State} → Reach s s
  next : {s t u : State} → Move s t → Reach t u → Reach s u

-- Only a lock that stands is watched.
abbrev pub WatchesRight : Rec → Type 0
WatchesRight r = (r.watched ≡ false) ⊎ (stands r.state ≡ true)

pub same-eq : (s t : State) → same s t ≡ true → s ≡ t
same-eq s t h = ground arith

pub unwatched : (r : Rec) → WatchesRight r → stands r.state ≡ false → r.watched ≡ false
unwatched r w s = ground arith

pub move_from : {s t u : State} → s ≡ t → Move t u → Move s u
move_from {u = u} e m = subst (λ x. Move x u) (sym e) m

-- An operation moves the payment once or not at all, and keeps the watches right.
abbrev pub Steps : Rec → Rec → Type 0
Steps r k = ((k.state ≡ r.state) ⊎ Move r.state k.state) × WatchesRight k

pub stays : (r : Rec) → WatchesRight r → Steps r r
stays r w = (inl refl, w)

open_quote-Steps : (now : ℕ) (r : Rec) → WatchesRight r → Steps r (open_quote now r).0.rec
open_quote-Steps now r w = elim (Bool-cases (same r.state quoted)) [
  | inr other ↦ unfold open_quote in rw other (stays r w)
  | inl q ↦
      let e = same-eq r.state quoted q in
      let free = unwatched r w (rw e refl) in
      elim (Bool-cases (ltb (r.quoted_at + quote_valid_ms) now)) [
        | inl late ↦ unfold open_quote in rw (q, late) (inr (move_from e lapses), inl free)
        | inr fresh ↦ unfold open_quote in rw (q, fresh) (inr (move_from e opens), inl free)
      ]
]

pub place_lock-locked :
    (sha : Bytes → Bytes) (num : ℕ → ℕ) (cfg : Settings) (now : ℕ) (x : LockReplies) (r k : Rec)
    → (place_lock sha num cfg now x r).1 ≡ some k
    → (k.state ≡ locked) × (k.watched ≡ r.watched)
unfolding place_lock
place_lock-locked sha num cfg now x r k h = ground arith

pub holds-stands : (s : State) → holds_coins s ≡ true → stands s ≡ true
holds-stands s h = ground arith

pub reboot-right : (r : Rec) → (holds_coins r.state ≡ false) ⊎ (stands r.state ≡ true)
reboot-right r = ground arith

pub Move-ended : {s t : State} → Move s t → is_end s ≡ true → ⊥
Move-ended opens h = false≢true h
Move-ended lapses h = false≢true h
Move-ended gives_up h = false≢true h
Move-ended locks h = false≢true h
Move-ended confirms h = false≢true h
Move-ended (takes_back {s} c) h = ground arith
Move-ended (is_spent {s} c d) h = ground arith
Move-ended collects h = false≢true h

pub Reach-ended : {s t : State} → Reach s t → is_end s ≡ true → t ≡ s
Reach-ended here h = refl
Reach-ended (next m p) h = absurd (Move-ended m h)

pub heard :
    (b : Bool) (r : Rec) (d : Done)
    → WatchesRight r
    → (b ≡ true → Steps r d.rec)
    → Steps r (if b then d else unchanged r).rec
heard true r d w p = p refl
heard false r d w p = stays r w

pub held-stays : (r k : Rec) → holds_coins r.state ≡ true → k.state ≡ r.state → Steps r k
held-stays r k h e = (inl e, inr (ap stands e ∙ holds-stands r.state h))
