-- ===== src/Pay/Moves/Calls.antt =====
-- onchain-pay.js: the lock, its confirmation, its spend and a release move a payment as `Moves` says.
use mathlib.Core.Path.{subst}
use lijox_lnd_adapter.Prelude.{
  ℕ, ◌+◌, ltb, ◌≡◌, ◌⊎◌, refl, sym, ap, ◌∙◌, ◌&&◌, ◌||◌, Bool, true, false, Option, none, some,
  Bool-cases, inl, inr, arith,
}
use lijox_lnd_adapter.Wire.Format.{Bytes}
use lijox_lnd_adapter.Pay.Record.{
  opening, locked, same, same_bytes, last_id, open_window_ms, Rec, Call,
}
use lijox_lnd_adapter.Pay.Lock.{
  LockReplies, Invoice, place_lock, finish_lock, send, bump, on_confirmed, on_invoices, is_accepted,
  is_canceled,
}
use lijox_lnd_adapter.Pay.Spent.{Spend, Seen, read_spend, on_seen, on_spent}
use lijox_lnd_adapter.Pay.Quote.{hand_over}
use lijox_lnd_adapter.Pay.Life.{Rail}
use lijox_lnd_adapter.Pay.Moves.{
  stands, after_spend, Move, gives_up, locks, confirms, is_spent, WatchesRight, same-eq, unwatched,
  move_from, Steps, stays, place_lock-locked,
}

module _ (rail : Rail) where
  open rail use {cfg, sha, sign, num}

  pub finish_lock-Steps :
      (now : ℕ) (x : LockReplies) (r : Rec) (c : Call Rec)
      → r.state ≡ opening
      → r.watched ≡ false
      → ((k : Rec) → c.1 ≡ some k → (k.state ≡ locked) × (k.watched ≡ r.watched))
      → Steps r (finish_lock sha num now x r c).rec
  finish_lock-Steps now x r (es, none) e w p =
      unfold finish_lock in (inr (move_from e gives_up), inl w)
  finish_lock-Steps now x r (es, some k) e w p = elim (Bool-cases x.settled) [
    | inl paid ↦
        unfold finish_lock in
        rw paid (
          inr (move_from e (subst (λ s. Move opening s) (sym ((p k refl).0)) locks)),
          inr (rw ((p k refl).0) refl),
        )
    | inr refused ↦
        unfold finish_lock in rw refused (inr (move_from e gives_up), inl ((p k refl).1 ∙ w))
  ]

  pub send-Steps :
      (now : ℕ) (x : LockReplies) (r : Rec)
      → WatchesRight r
      → Steps r (send sha num cfg now x r).rec
  send-Steps now x r w = elim (Bool-cases (same r.state opening)) [
    | inr other ↦ unfold send in rw other (stays r w)
    | inl o ↦
        let e = same-eq r.state opening o in
        let free = unwatched r w (rw e refl) in
        unfold send in
        rw o (
          finish_lock-Steps now x r (place_lock sha num cfg now x r) e free
            (λ k h. place_lock-locked sha num cfg now x r k h))
  ]

  pub invoices-Steps :
      (now : ℕ) (x : LockReplies) (a b : Invoice) (r : Rec)
      → WatchesRight r
      → Steps r (on_invoices sha num cfg now x a b r).rec
  invoices-Steps now x a b r w = elim (Bool-cases (same r.state opening)) [
    | inr other ↦ unfold on_invoices in rw other (stays r w)
    | inl o ↦
        let e = same-eq r.state opening o in
        let free = unwatched r w (rw e refl) in
        elim (Bool-cases (over a b r now)) [
          | inl lost ↦ unfold on_invoices in rw (o, lost) (inr (move_from e gives_up), inl free)
          | inr runs ↦ elim (Bool-cases (is_accepted a && is_accepted b)) [
            | inl both ↦ unfold on_invoices in rw (o, runs, both) (send-Steps now x r w)
            | inr waits ↦ unfold on_invoices in rw (o, runs, waits) (stays r w)
          ]
        ]
  ]
    where
      over : Invoice → Invoice → Rec → ℕ → Bool
      over a b r now = is_canceled a || is_canceled b || ltb (r.opened_at + open_window_ms) now

  pub confirmed-Steps :
      (id : Bytes) (height : ℕ) (r : Rec) → WatchesRight r → Steps r (on_confirmed id height r)
  confirmed-Steps id height r w =
      elim (Bool-cases (same_bytes (last_id r.lock_txids) id && same r.state locked)) [
        | inr other ↦ unfold on_confirmed in rw other (stays r w)
        | inl c ↦
            let e = same-eq r.state locked (ground arith) in
            unfold on_confirmed in rw c (inr (move_from e confirms), inr refl)
      ]

  pub on_seen-after :
      (now : ℕ) (ev : Spend) (settled : Bool) (seen : Seen) (r : Rec)
      → let k = (on_seen sha num now ev settled seen r).rec in
        (after_spend k.state ≡ true) × ((k.watched ≡ false) ⊎ (stands k.state ≡ true))
  unfolding on_seen
  on_seen-after now ev settled seen r = ground arith

  pub spent-Steps :
      (now : ℕ) (ev : Spend) (settled : Bool) (r : Rec)
      → r.watched ≡ true
      → WatchesRight r
      → Steps r (on_spent sha num now ev settled r).rec
  unfolding on_spent
  spent-Steps now ev settled r t w =
      let (ends, right) = on_seen-after now ev settled (read_spend sha num r ev.raw) r in
      let s : stands r.state ≡ true = ground arith in (inr (is_spent s ends), right)

  pub bump-keeps :
      (tip : ℕ) (sent raw : Option Bytes) (r : Rec)
      → (bump sha num tip sent raw r).rec.state ≡ r.state
  unfolding bump
  bump-keeps tip sent raw r = ground arith

  pub bump-Steps :
      (tip : ℕ) (sent raw : Option Bytes) (r : Rec)
      → stands r.state ≡ true
      → Steps r (bump sha num tip sent raw r).rec
  bump-Steps tip sent raw r s = let e = bump-keeps tip sent raw r in (inl e, inr (ap stands e ∙ s))

  pub hand_over-keeps :
      (raw : Bytes) (allowed : Bool) (r : Rec)
      → ((hand_over sha num raw allowed r).0.rec.state ≡ r.state)
        × ((hand_over sha num raw allowed r).0.rec.watched ≡ r.watched)
  unfolding hand_over
  hand_over-keeps raw allowed r = ground arith

  pub handed-Steps :
      (raw : Bytes) (allowed : Bool) (r : Rec)
      → WatchesRight r
      → Steps r (hand_over sha num raw allowed r).0.rec
  handed-Steps raw allowed r w =
      let (s, t) = hand_over-keeps raw allowed r in
      (inl s, elim w [ inl a ↦ inl (t ∙ a) | inr b ↦ inr (ap stands s ∙ b) ])
