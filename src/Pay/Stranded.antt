-- ===== src/Pay/Stranded.antt =====
-- Two ways in which a payment of onchain-pay.js goes wrong.
use lijox_lnd_adapter.Prelude.{
  ℕ, ◌≡◌, refl, ap, ◌∙◌, true, false, Option, none, some, List, [], ◌∷◌, ◌++◌, arith,
}
use lijox_lnd_adapter.Wire.Format.{Bytes}
use lijox_lnd_adapter.Tx.Parse.{ParsedIn, Parsed, parse}
use lijox_lnd_adapter.Pay.Record.{
  same, is_end, end_as, opening, done, cancelled, Rec, Effect, send_lock, settle, cancel, Done,
  Call,
}
use lijox_lnd_adapter.Pay.Lock.{LockReplies, cancel_both, place_lock, finish_lock, send}
use lijox_lnd_adapter.Pay.Spent.{
  Spend, ours, lock_spender, read_items, read_spend, paid_out, without_secret, on_seen, on_spent,
}
use lijox_lnd_adapter.Pay.Life.{Event, Rail, run}
use lijox_lnd_adapter.Pay.Moves.{place_lock-locked}
use lijox_lnd_adapter.Pay.Moves.Runs.{run-ended}

abbrev settle_of : Effect → List Bytes
settle_of (settle s) = s ∷ []
settle_of _ = []

-- The preimages by which invoices are collected.
abbrev pub settles : List Effect → List Bytes
settles [] = []
settles (e ∷ es) = settle_of e ++ settles es

module _ (rail : Rail) where
  open rail use {cfg, sha, num}

  read-ours :
      (r : Rec) (o : Option Bytes) (raw a c : Bytes) (tx : Parsed) (i : ParsedIn)
      → o ≡ some raw
      → parse num true raw ≡ some tx
      → lock_spender sha num r tx.inputs ≡ some i
      → i.witness ≡ a ∷ [] ∷ c ∷ []
      → read_spend sha num r o ≡ ours
  unfolding read_items
  read-ours r o raw a c tx i e p q w = unfold read_spend in rw (e, p, q, w)

  -- The spend in a block has the witness of the take-back, three items with the second empty, and a
  -- secret is kept of a release that was handed over before: B is collected with it, if LND takes it,
  -- and the payment is done.
  pub on_spent-pays_twice :
      (now : ℕ) (ev : Spend) (r : Rec) (raw s a c : Bytes) (tx : Parsed) (i : ParsedIn)
      → ev.raw ≡ some raw
      → parse num true raw ≡ some tx
      → lock_spender sha num r tx.inputs ≡ some i
      → i.witness ≡ a ∷ [] ∷ c ∷ []
      → r.secret ≡ some s
      → ((on_spent sha num now ev true r).rec.state ≡ done)
        × (settles (on_spent sha num now ev true r).effects ≡ s ∷ [])
  on_spent-pays_twice now ev r raw s a c tx i e p q w k =
      unfold on_spent on_seen without_secret paid_out in
      rw (read-ours r ev.raw raw a c tx i e p q w, k) (refl, refl)

  pub place_lock-effects :
      (now : ℕ) (x : LockReplies) (r k : Rec)
      → (place_lock sha num cfg now x r).1 ≡ some k
      → (place_lock sha num cfg now x r).0 ≡ send_lock k.script r.lock_sats ∷ []
  unfolding place_lock
  place_lock-effects now x r k h = ground arith

  finish-refused :
      (now : ℕ) (x : LockReplies) (r k : Rec) (c : Call Rec)
      → c.1 ≡ some k
      → x.settled ≡ false
      → finish_lock sha num now x r c ≡ cancel_both now k (c.0 ++ settle k.a_preimage ∷ [])
  unfolding finish_lock
  finish-refused now x r k (es, none) h t = cc
  finish-refused now x r k (es, some j) h t =
      let e : j ≡ k = cc in rw t (ap (λ z. cancel_both now z (es ++ settle z.a_preimage ∷ [])) e)

  cancels :
      (now : ℕ) (x : LockReplies) (r k : Rec)
      → r.state ≡ opening
      → (place_lock sha num cfg now x r).1 ≡ some k
      → x.settled ≡ false
      → send sha num cfg now x r
        ≡ cancel_both now k ((place_lock sha num cfg now x r).0 ++ settle k.a_preimage ∷ [])
  cancels now x r k o p t =
      let is : same r.state opening ≡ true = ap (λ s. same s opening) o in
      unfold send in rw is (finish-refused now x r k (place_lock sha num cfg now x r) p t)

  -- The lock of an opening payment that is not watched is sent, and A cannot be collected: both
  -- payments are cancelled, and the state stays so whatever happens, although the lock's coins are out.
  pub send-strands :
      (now : ℕ) (x : LockReplies) (r k : Rec) (es : List Event)
      → r.state ≡ opening
      → r.watched ≡ false
      → (place_lock sha num cfg now x r).1 ≡ some k
      → x.settled ≡ false
      → ((send sha num cfg now x r).effects
          ≡ send_lock k.script r.lock_sats
            ∷ settle k.a_preimage
            ∷ cancel k.a_hash
            ∷ cancel k.hash
            ∷ [])
        × ((run rail es (send sha num cfg now x r).rec).rec.state ≡ cancelled)
  send-strands now x r k es o w p t =
      let done : Rec = (send sha num cfg now x r).rec in
      let e = cancels now x r k o p t in
      let fx = place_lock-effects now x r k p in
      let ended : done.state ≡ cancelled =
        ap (λ (d : Done). d.rec.state) e ∙ unfold cancel_both end_as in refl in
      let deaf : done.watched ≡ false =
        ap (λ (d : Done). d.rec.watched) e
        ∙ unfold cancel_both end_as in ((place_lock-locked sha num cfg now x r k p).1 ∙ w) in
      (
        ap (λ (d : Done). d.effects) e
            ∙ ap (λ f. (cancel_both now k (f ++ settle k.a_preimage ∷ [])).effects) fx
            ∙ unfold cancel_both in refl,
        run-ended rail es done (ap is_end ended) deaf ∙ ended,
      )
