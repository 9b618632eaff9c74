-- ===== src/Pay/Moves/Runs.antt =====
-- Every life of a payment in onchain-pay.js is a path of the small machine.
use mathlib.Core.Path.{subst}
use lijox_lnd_adapter.Prelude.{◌≡◌, refl, true, false, List, [], ◌∷◌, inl, inr}
use lijox_lnd_adapter.Pay.Record.{State, is_end, Rec}
use lijox_lnd_adapter.Pay.Life.{
  Event, opened, invoices, confirmed, spent, handed, ticked, rebooted, Rail, reboot, apply, run,
}
use lijox_lnd_adapter.Pay.Moves.{
  Reach, here, next, WatchesRight, Steps, open_quote-Steps, heard, reboot-right, Reach-ended,
}
use lijox_lnd_adapter.Pay.Moves.Calls.{invoices-Steps, confirmed-Steps, spent-Steps, handed-Steps}
use lijox_lnd_adapter.Pay.Moves.Ticks.{tick-Steps}

module _ (rail : Rail) where
  open rail use {cfg, sha, sign, num}

  apply-Steps : (e : Event) (r : Rec) → WatchesRight r → Steps r (apply rail e r).rec
  unfolding apply
  apply-Steps (opened now) r w = open_quote-Steps now r w
  apply-Steps (invoices now x a b) r w = invoices-Steps rail now x a b r w
  apply-Steps (confirmed id height) r w =
      heard r.watched r _ w (λ told. confirmed-Steps rail id height r w)
  apply-Steps (spent now ev settled) r w =
      heard r.watched r _ w (λ told. spent-Steps rail now ev settled r told w)
  apply-Steps (handed raw allowed) r w = handed-Steps rail raw allowed r w
  apply-Steps (ticked now x) r w = tick-Steps rail now x r w
  apply-Steps rebooted r w = unfold reboot in (inl refl, reboot-right r)

  Steps-Reach : (r k : Rec) (s : State) → Steps r k → Reach k.state s → Reach r.state s
  Steps-Reach r k s (inl e, w) p = subst (λ x. Reach x s) (e) p
  Steps-Reach r k s (inr m, w) p = next m p

  -- Whatever happens to a payment that is watched only while its lock stands, in whatever order and
  -- with whatever answers, its state goes along the moves of the small machine.
  pub run-Reach :
      (es : List Event) (r : Rec) → WatchesRight r → Reach r.state (run rail es r).rec.state
  unfolding run
  run-Reach [] r w = here
  run-Reach (e ∷ es) r w =
      let s = apply-Steps e r w in
      Steps-Reach r (apply rail e r).rec _ s (run-Reach es (apply rail e r).rec s.1)

  -- A payment that has ended and is not watched never changes its state again.
  pub run-ended :
      (es : List Event) (r : Rec)
      → is_end r.state ≡ true
      → r.watched ≡ false
      → (run rail es r).rec.state ≡ r.state
  run-ended es r e w = Reach-ended (run-Reach es r (inl w)) e
