-- ===== src/Pay/Earned/Locked.antt =====
-- onchain-pay.js: with which preimages a payment's two invoices are collected while the lock is made.
use lijox_lnd_adapter.Prelude.{
  ℕ, ◌+◌, ltb, ◌≡◌, refl, sym, ◌&&◌, ◌||◌, Bool, true, false, none, some, List, [], ◌∷◌, ◌++◌,
  Bool-cases, inl, inr, arith,
}
use lijox_lnd_adapter.Wire.Format.{Bytes}
use lijox_lnd_adapter.Pay.Record.{
  opening, same, same_bytes, open_window_ms, end_as, Rec, Effect, send_lock, settle, Call,
}
use lijox_lnd_adapter.Pay.Lock.{
  LockReplies, Invoice, cancel_both, place_lock, finish_lock, send, on_invoices, is_accepted,
  is_canceled,
}
use lijox_lnd_adapter.Pay.Stranded.{place_lock-effects}
use lijox_lnd_adapter.Pay.Life.{Rail}
use lijox_lnd_adapter.Pay.Earned.{
  fair, knows, Honest, Knows, same_bytes_refl, place_lock-keeps, place_lock-silent,
}

module _ (rail : Rail) where
  open rail use {cfg, sha, sign, num}

  fair-sent :
      (p h : Bytes) (es : List Effect)
      → fair rail p h false es ≡ true
      → fair rail p h true es ≡ true
  fair-sent p h [] f = refl
  fair-sent p h (e ∷ es) f = ground (arith, fair-sent p h es)

  pub fair-append :
      (p h : Bytes) (sent : Bool) (es fs : List Effect)
      → fair rail p h sent es ≡ true
      → fair rail p h false fs ≡ true
      → fair rail p h sent (es ++ fs) ≡ true
  fair-append p h false [] fs f g = g
  fair-append p h true [] fs f g = fair-sent p h fs g
  fair-append p h sent (e ∷ es) fs f g =
      ground (arith, fair-append p h sent es fs, fair-append p h true es fs)

  -- What is known of the lock once it was sent.
  abbrev Placed : Rec → List Effect → Rec → Type 0
  Placed r es k =
      (k.hash ≡ r.hash)
      × (k.a_preimage ≡ r.a_preimage)
      × (k.secret ≡ r.secret)
      × (es ≡ send_lock k.script r.lock_sats ∷ [])

  pub fair-same :
      (p q h i : Bytes) (es : List Effect)
      → p ≡ q
      → h ≡ i
      → fair rail p h false es ≡ true
      → fair rail q i false es ≡ true
  fair-same p q h i es e f g = rw (sym e, sym f) g

  collects_own : (a b c : Bool) → b ≡ true → c ≡ true → ((a || b) && c) ≡ true
  collects_own a b c h k = ground arith

  settle-fair :
      (r k : Rec) (es fs : List Effect)
      → Placed r es k
      → fair rail r.a_preimage r.hash true fs ≡ true
      → fair rail r.a_preimage r.hash false ((es ++ settle k.a_preimage ∷ []) ++ fs) ≡ true
  settle-fair r k es fs (h, p, s, e) f =
      let own = same_bytes_refl rail r.a_preimage in
      rw (e, p) (collects_own (same_bytes (sha r.a_preimage) r.hash) _ _ own f)

  finish_lock-Honest :
      (now : ℕ) (x : LockReplies) (r : Rec) (c : Call Rec)
      → fair rail r.a_preimage r.hash false c.0 ≡ true
      → ((k : Rec) → c.1 ≡ some k → Placed r c.0 k)
      → Knows rail r
      → Honest rail r (finish_lock sha num now x r c)
  unfolding finish_lock cancel_both end_as
  finish_lock-Honest now x r (es, none) f q k =
      (fair-append r.a_preimage r.hash false es _ f refl, refl, refl, k)
  finish_lock-Honest now x r (es, some j) f q k =
      let (h, p, s, e) = q j refl in
      let known : knows rail r.hash j.secret ≡ true = rw s k in
      elim (Bool-cases x.settled) [
        | inl paid ↦ rw paid (settle-fair r j es _ (h, p, s, e) refl, h, p, known)
        | inr refused ↦ rw refused (settle-fair r j es _ (h, p, s, e) refl, h, p, known)
      ]

  send-Honest :
      (now : ℕ) (x : LockReplies) (r : Rec)
      → Knows rail r
      → Honest rail r (send sha num cfg now x r)
  send-Honest now x r k = elim (Bool-cases (same r.state opening)) [
    | inr shut ↦ unfold send in rw shut (refl, refl, refl, k)
    | inl ready ↦
        unfold send in
        rw ready (
          finish_lock-Honest now x r (place_lock sha num cfg now x r)
            (place_lock-silent rail now x r)
            (λ j h.
              let (a, b, c) = place_lock-keeps rail now x r j h in
              (a, b, c, place_lock-effects rail now x r j h))
            k)
  ]

  lapse-Honest : (now : ℕ) (r : Rec) → Knows rail r → Honest rail r (cancel_both now r [])
  unfolding cancel_both end_as
  lapse-Honest now r k = (refl, refl, refl, k)

  pub invoices-Honest :
      (now : ℕ) (x : LockReplies) (a b : Invoice) (r : Rec)
      → Knows rail r
      → Honest rail r (on_invoices sha num cfg now x a b r)
  unfolding on_invoices
  invoices-Honest now x a b r k = elim (Bool-cases (same r.state opening)) [
    | inr shut ↦ rw shut (refl, refl, refl, k)
    | inl ready ↦
        elim (Bool-cases
          (is_canceled a || is_canceled b || ltb (r.opened_at + open_window_ms) now)) [
            | inl lost ↦ rw (ready, lost) (lapse-Honest now r k)
            | inr runs ↦ elim (Bool-cases (is_accepted a && is_accepted b)) [
              | inl both ↦ rw (ready, runs, both) (send-Honest now x r k)
              | inr waits ↦ rw (ready, runs, waits) (refl, refl, refl, k)
            ]
          ]
  ]
