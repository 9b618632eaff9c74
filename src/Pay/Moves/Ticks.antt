-- ===== src/Pay/Moves/Ticks.antt =====
-- onchain-pay.js: a tick moves a payment as `Moves` says.
use mathlib.Core.Path.{subst}
use lijox_lnd_adapter.Prelude.{
  ℕ, ◌+◌, ltb, leb, ◌==◌, not, ◌≡◌, refl, sym, ap, ◌&&◌, ◌||◌, Bool, true, Option, none, some,
  Bool-cases, inl, inr, arith,
}
use lijox_lnd_adapter.Wire.Format.{Bytes}
use lijox_lnd_adapter.Pay.Record.{
  quoted, locked, released, taking_back, same, lock_bump_after_blocks, open_window_ms,
  quote_valid_ms, Rec, Call,
}
use lijox_lnd_adapter.Pay.Lock.{or_stay}
use lijox_lnd_adapter.Pay.Tick.{
  holds_coins, TickReplies, blocks_since, last_bump, retry_with, expire, bump_slow, tick_due, tick,
}
use lijox_lnd_adapter.Pay.TakeBack.{
  TakeBackReplies, output_at, pays, sweep_lock, take_confirmed, take_matching, take_script,
  take_back,
}
use lijox_lnd_adapter.Tx.Script.{handover_script, p2wsh}
use lijox_lnd_adapter.Tx.Parse.{Parsed, parse}
use lijox_lnd_adapter.Pay.Life.{Rail}
use lijox_lnd_adapter.Pay.Moves.{
  stands, Move, lapses, takes_back, collects, WatchesRight, same-eq, unwatched, move_from, Steps,
  stays, holds-stands, held-stays,
}
use lijox_lnd_adapter.Pay.Moves.Calls.{bump-Steps}

module _ (rail : Rail) where
  open rail use {cfg, sha, sign, num}

  pub or_stay-Steps :
      (r : Rec) (c : Call Rec)
      → holds_coins r.state ≡ true
      → ((k : Rec) → c.1 ≡ some k → k.state ≡ taking_back)
      → Steps r (or_stay sha num r c).rec
  or_stay-Steps r (es, none) h p = held-stays r r h refl
  or_stay-Steps r (es, some k) h p =
      let e = p k refl in
      (inr (subst (λ s. Move r.state s) (sym e) (takes_back h)), inr (ap stands e))

  pub sweep_lock-taken :
      (tip : ℕ) (x : TakeBackReplies) (script : Bytes) (r k : Rec)
      → (sweep_lock sha sign num tip x script r).1 ≡ some k
      → k.state ≡ taking_back
  unfolding sweep_lock
  sweep_lock-taken tip x script r k h = ground arith

  pub take_confirmed-Steps :
      (tip : ℕ) (x : TakeBackReplies) (script : Bytes) (r : Rec)
      → holds_coins r.state ≡ true
      → Steps r (take_confirmed sha sign num tip x script r).rec
  take_confirmed-Steps tip x script r h = elim (Bool-cases (ltb x.confirmations 1)) [
    | inl slow ↦
        unfold take_confirmed in
        rw slow (bump-Steps rail tip x.bumped x.bumped_raw r (holds-stands r.state h))
    | inr deep ↦
        unfold take_confirmed in
        rw deep (
          or_stay-Steps r (sweep_lock sha sign num tip x script r) h
            (λ k. sweep_lock-taken tip x script r k))
  ]

  pub take_matching-Steps :
      (tip : ℕ) (x : TakeBackReplies) (script : Bytes) (tx : Option Parsed) (r : Rec)
      → holds_coins r.state ≡ true
      → Steps r (take_matching sha sign num tip x script tx r).rec
  unfolding take_matching
  take_matching-Steps tip x script none r h = held-stays r r h refl
  take_matching-Steps tip x script (some tx) r h =
      elim (Bool-cases (pays (p2wsh sha script) r.lock_sats (output_at r.lock_vout tx.outputs))) [
        | inl ours ↦ rw ours (take_confirmed-Steps tip x script r h)
        | inr theirs ↦ rw theirs (held-stays r r h refl)
      ]

  pub take_script-Steps :
      (tip : ℕ) (x : TakeBackReplies) (script raw : Option Bytes) (r : Rec)
      → holds_coins r.state ≡ true
      → Steps r (take_script sha sign num tip x script raw r).rec
  unfolding take_script
  take_script-Steps tip x none raw r h = held-stays r r h refl
  take_script-Steps tip x (some script) none r h = held-stays r r h refl
  take_script-Steps tip x (some script) (some raw) r h =
      take_matching-Steps tip x script (parse num true raw) r h

  pub take_back-Steps :
      (verified : Bool) (tip : ℕ) (x : TakeBackReplies) (r : Rec)
      → holds_coins r.state ≡ true
      → Steps r (take_back sha sign num verified tip x r).rec
  take_back-Steps verified tip x r h = elim (Bool-cases (not verified)) [
    | inl forged ↦ unfold take_back in rw forged (held-stays r r h refl)
    | inr genuine ↦ elim (Bool-cases (ltb tip r.t)) [
      | inl early ↦ unfold take_back in rw (genuine, early) (held-stays r r h refl)
      | inr due ↦
          unfold take_back in
          rw (genuine, due) (take_script-Steps tip x (handover_script r.hash r.w r.l r.t) x.raw r h)
    ]
  ]

  pub tick_due-Steps :
      (x : TickReplies) (r : Rec)
      → holds_coins r.state ≡ true
      → Steps r (tick_due sha sign num x r).rec
  tick_due-Steps x r h = elim (Bool-cases (again x r)) [
    | inl due ↦ unfold tick_due in rw due (take_back-Steps x.verified x.tip x.take r h)
    | inr waits ↦ unfold tick_due in rw waits (held-stays r r h refl)
  ]
    where
      again : TickReplies → Rec → Bool
      again x r =
          not (same r.state taking_back)
          || (not (r.takeback_block == 0)
              && blocks_since lock_bump_after_blocks r.takeback_block x.tip)

  pub bump_slow-Steps :
      (tip : ℕ) (confirmations : Option ℕ) (x : TakeBackReplies) (r : Rec)
      → stands r.state ≡ true
      → Steps r (bump_slow sha sign num tip confirmations x r).rec
  unfolding bump_slow
  bump_slow-Steps tip none x r h = stays r (inr h)
  bump_slow-Steps tip (some c) x r h = elim (Bool-cases (ltb c 1)) [
    | inl slow ↦ rw slow (bump-Steps rail tip x.bumped x.bumped_raw r h)
    | inr deep ↦ rw deep (stays r (inr h))
  ]

  pub retry-Steps :
      (now : ℕ) (settles : Bool) (secret : Option Bytes) (r : Rec)
      → r.state ≡ released
      → WatchesRight r
      → Steps r (retry_with now settles secret r).rec
  unfolding retry_with
  retry-Steps now settles none r e w = stays r w
  retry-Steps now settles (some s) r e w =
      elim (Bool-cases (not (r.settle_last_try == 0) && leb now (r.settle_last_try + 15000))) [
        | inl soon ↦ rw soon (stays r w)
        | inr due ↦ elim (Bool-cases settles) [
          | inl taken ↦
              rw (due, taken) (inr (move_from e collects), inl (unwatched r w (rw e refl)))
          | inr refused ↦ rw (due, refused) (inl refl, w)
        ]
      ]

  pub expire-Steps :
      (now : ℕ) (r : Rec) → same r.state quoted ≡ true → WatchesRight r → Steps r (expire now r).rec
  unfolding expire
  expire-Steps now r q w =
      let e = same-eq r.state quoted q in
      (inr (move_from e lapses), inl (unwatched r w (rw e refl)))

  pub tick-Steps :
      (now : ℕ) (x : TickReplies) (r : Rec)
      → WatchesRight r
      → Steps r (tick sha sign num now x r).rec
  tick-Steps now x r w = elim (Bool-cases (holds_coins r.state && leb r.t x.tip)) [
    | inl due ↦ unfold tick in rw due (tick_due-Steps x r (ground arith))
    | inr a ↦ elim (Bool-cases (slow_lock x r)) [
      | inl slow ↦
          unfold tick in rw (a, slow) (bump_slow-Steps x.tip x.slow x.take r (ground arith))
      | inr b ↦ elim (Bool-cases (same r.state released)) [
        | inl unpaid ↦
            unfold tick in
            rw (a, b, unpaid)
              (retry-Steps now x.settles r.secret r (same-eq r.state released unpaid) w)
        | inr c ↦ elim (Bool-cases (stale now r)) [
          | inl old ↦ unfold tick in rw (a, b, c, old) (expire-Steps now r (ground arith) w)
          | inr d ↦ unfold tick in rw (a, b, c, d) (stays r w)
        ]
      ]
    ]
  ]
    where
      slow_lock : TickReplies → Rec → Bool
      slow_lock x r =
          same r.state locked
          && (not (r.lock_block == 0) && blocks_since lock_bump_after_blocks (last_bump r) x.tip)

      stale : ℕ → Rec → Bool
      stale now r = same r.state quoted && ltb (r.quoted_at + (quote_valid_ms + open_window_ms)) now
