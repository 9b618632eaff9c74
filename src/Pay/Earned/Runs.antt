-- ===== src/Pay/Earned/Runs.antt =====
-- onchain-pay.js: with which preimages a payment's two invoices are collected, over every life of it.
use lijox_lnd_adapter.Prelude.{
  ℕ, ltb, not, ◌≡◌, refl, Bool, true, false, Option, none, some, List, [], ◌∷◌, Bool-cases, inl,
  inr, arith, if◌then◌else◌,
}
use lijox_lnd_adapter.Wire.Format.{Bytes}
use lijox_lnd_adapter.Tx.Script.{handover_script, p2wsh}
use lijox_lnd_adapter.Tx.Parse.{Parsed, parse}
use lijox_lnd_adapter.Pay.Record.{end_as, Rec, Done}
use lijox_lnd_adapter.Pay.Lock.{or_stay}
use lijox_lnd_adapter.Pay.TakeBack.{
  TakeBackReplies, output_at, pays, sweep_lock, take_confirmed, take_matching, take_script,
  take_back,
}
use lijox_lnd_adapter.Pay.Tick.{TickReplies, retry_with, expire, bump_slow, tick_due, tick}
use lijox_lnd_adapter.Pay.Life.{
  Event, opened, invoices, confirmed, spent, handed, ticked, rebooted, Rail, reboot, apply, run,
}
use lijox_lnd_adapter.Pay.Earned.{
  fair, knows, Honest, Knows, open_quote-Honest, confirmed-Honest, bump-Honest, hand_over-Honest,
  spent-Honest,
}
use lijox_lnd_adapter.Pay.Earned.Locked.{fair-append, fair-same, invoices-Honest}

module _ (rail : Rail) where
  open rail use {cfg, sha, sign, num}

  sweep_lock-Honest :
      (tip : ℕ) (x : TakeBackReplies) (script : Bytes) (r : Rec)
      → Knows rail r
      → Honest rail r (or_stay sha num r (sweep_lock sha sign num tip x script r))
  unfolding sweep_lock
  sweep_lock-Honest tip x script r k = ground arith

  retry-Honest :
      (now : ℕ) (settles : Bool) (r : Rec)
      → Knows rail r
      → Honest rail r (retry_with now settles r.secret r)
  unfolding retry_with
  retry-Honest now settles r k = ground arith

  expire-Honest : (now : ℕ) (r : Rec) → Knows rail r → Honest rail r (expire now r)
  unfolding expire end_as
  expire-Honest now r k = (refl, refl, refl, k)

  take_confirmed-Honest :
      (tip : ℕ) (x : TakeBackReplies) (script : Bytes) (r : Rec)
      → Knows rail r
      → Honest rail r (take_confirmed sha sign num tip x script r)
  unfolding take_confirmed
  take_confirmed-Honest tip x script r k = elim (Bool-cases (ltb x.confirmations 1)) [
    | inl slow ↦ rw slow (bump-Honest rail tip x.bumped x.bumped_raw r k)
    | inr deep ↦ rw deep (sweep_lock-Honest tip x script r k)
  ]

  take_matching-Honest :
      (tip : ℕ) (x : TakeBackReplies) (script : Bytes) (tx : Option Parsed) (r : Rec)
      → Knows rail r
      → Honest rail r (take_matching sha sign num tip x script tx r)
  unfolding take_matching
  take_matching-Honest tip x script none r k = (refl, refl, refl, k)
  take_matching-Honest tip x script (some tx) r k =
      elim (Bool-cases (pays (p2wsh sha script) r.lock_sats (output_at r.lock_vout tx.outputs))) [
        | inl mine ↦ rw mine (take_confirmed-Honest tip x script r k)
        | inr theirs ↦ rw theirs (refl, refl, refl, k)
      ]

  take_script-Honest :
      (tip : ℕ) (x : TakeBackReplies) (script raw : Option Bytes) (r : Rec)
      → Knows rail r
      → Honest rail r (take_script sha sign num tip x script raw r)
  unfolding take_script
  take_script-Honest tip x none raw r k = (refl, refl, refl, k)
  take_script-Honest tip x (some script) none r k = (refl, refl, refl, k)
  take_script-Honest tip x (some script) (some raw) r k =
      take_matching-Honest tip x script (parse num true raw) r k

  take_back-Honest :
      (verified : Bool) (tip : ℕ) (x : TakeBackReplies) (r : Rec)
      → Knows rail r
      → Honest rail r (take_back sha sign num verified tip x r)
  unfolding take_back
  take_back-Honest verified tip x r k = elim (Bool-cases (not verified)) [
    | inl forged ↦ rw forged (refl, refl, refl, k)
    | inr genuine ↦ elim (Bool-cases (ltb tip r.t)) [
      | inl early ↦ rw (genuine, early) (refl, refl, refl, k)
      | inr due ↦
          rw (genuine, due)
            (take_script-Honest tip x (handover_script r.hash r.w r.l r.t) x.raw r k)
    ]
  ]

  -- A choice of two operations that are both honest.
  either-Honest :
      (b : Bool) (r : Rec) (d e : Done)
      → Honest rail r d
      → Honest rail r e
      → Honest rail r (if b then d else e)
  either-Honest true r d e h i = h
  either-Honest false r d e h i = i

  bump_slow-Honest :
      (tip : ℕ) (confirmations : Option ℕ) (x : TakeBackReplies) (r : Rec)
      → Knows rail r
      → Honest rail r (bump_slow sha sign num tip confirmations x r)
  unfolding bump_slow
  bump_slow-Honest tip none x r k = (refl, refl, refl, k)
  bump_slow-Honest tip (some c) x r k =
      either-Honest (ltb c 1) r _ _ (bump-Honest rail tip x.bumped x.bumped_raw r k)
        (refl, refl, refl, k)

  tick-Honest :
      (now : ℕ) (x : TickReplies) (r : Rec)
      → Knows rail r
      → Honest rail r (tick sha sign num now x r)
  unfolding tick tick_due
  tick-Honest now x r k =
      either-Honest _ r _ _
        (either-Honest _ r _ _ (take_back-Honest x.verified x.tip x.take r k) (refl, refl, refl, k))
        (either-Honest _ r _ _ (bump_slow-Honest x.tip x.slow x.take r k) (
          either-Honest _ r _ _ (retry-Honest now x.settles r k)
            (either-Honest _ r _ _ (expire-Honest now r k) (refl, refl, refl, k))))

  apply-Honest : (e : Event) (r : Rec) → Knows rail r → Honest rail r (apply rail e r)
  unfolding apply
  apply-Honest (opened now) r k = open_quote-Honest rail now r k
  apply-Honest (invoices now x a b) r k = invoices-Honest rail now x a b r k
  apply-Honest (confirmed id height) r k =
      either-Honest r.watched r _ _ (confirmed-Honest rail id height r k) (refl, refl, refl, k)
  apply-Honest (spent now ev settled) r k =
      either-Honest r.watched r _ _ (spent-Honest rail now ev settled r k) (refl, refl, refl, k)
  apply-Honest (handed raw allowed) r k = hand_over-Honest rail raw allowed r k
  apply-Honest (ticked now x) r k = tick-Honest now x r k
  apply-Honest rebooted r k = unfold reboot in (refl, refl, refl, k)

  -- Whatever happens to a payment that keeps no wrong secret, LND is asked to settle only by a preimage
  -- of the payment's hash, or by A's preimage after the lock was sent.
  pub run-fair :
      (es : List Event) (r : Rec)
      → knows rail r.hash r.secret ≡ true
      → fair rail r.a_preimage r.hash false (run rail es r).effects ≡ true
  unfolding run
  run-fair [] r k = refl
  run-fair (e ∷ es) r k =
      let (f, h, p, s) = apply-Honest e r k in
      let d = apply rail e r in
      let known : knows rail d.rec.hash d.rec.secret ≡ true = rw h s in
      let rest : fair rail r.a_preimage r.hash false (run rail es d.rec).effects ≡ true =
        fair-same rail d.rec.a_preimage r.a_preimage d.rec.hash r.hash (run rail es d.rec).effects p
          h (run-fair es d.rec known) in
      fair-append rail r.a_preimage r.hash false d.effects (run rail es d.rec).effects f rest
