-- ===== src/Guard/Halt.antt =====
-- When jit-guard.js halts, and what lifts a halt.
use lijox_lnd_adapter.Prelude.{
  ℕ, String, ◌≡◌, refl, ap, ◌∙◌, Bool, true, false, some, List, [], ◌∷◌, arith,
}
use lijox_lnd_adapter.Guard.State.{Halt, State, Settings, prune}
use lijox_lnd_adapter.Guard.Ops.{
  Guard, persist, load, restart, record_open, settle, halt_if_due, fail, release, release_wallet,
  Op, opened, paid, refused, let_go, let_wallet_go, restarted, apply, run,
}

-- What was written last is what is in memory.
abbrev pub Synced : Guard → Type 0
Synced g = load g.file ≡ g.st

abbrev pub keeps_halt : Op → Bool
keeps_halt (let_go by) = false
keeps_halt _ = true

abbrev pub NoRelease : List (ℕ × Op) → Type 0
NoRelease [] = Unit
NoRelease ((now, op) ∷ ops) = (keeps_halt op ≡ true) × NoRelease ops

module _ (lower : String → String) (cfg : Settings) where
  pub apply-Synced : (now : ℕ) (op : Op) (g : Guard) → Synced g → Synced (apply lower cfg now op g)
  unfolding apply load restart record_open persist settle fail release release_wallet
  apply-Synced now (opened cp w sats rail held) g s = ground arith
  apply-Synced now (paid cp) g s = ground arith
  apply-Synced now (refused cp code) g s = ground arith
  apply-Synced now (let_go by) g s = ground arith
  apply-Synced now (let_wallet_go w) g s = ground arith
  apply-Synced now restarted g s = refl

  apply-halted :
      (now : ℕ) (op : Op) (g : Guard) (x : Halt)
      → Synced g
      → keeps_halt op ≡ true
      → g.st.halted ≡ some x
      → (apply lower cfg now op g).st.halted ≡ some x
  unfolding apply load restart record_open persist settle fail release_wallet prune halt_if_due
  apply-halted now (opened cp w sats rail held) g x s k h = ground arith
  apply-halted now (paid cp) g x s k h = ground arith
  apply-halted now (refused cp code) g x s k h = ground arith
  apply-halted now (let_go by) g x s k h = cc
  apply-halted now (let_wallet_go w) g x s k h = ground arith
  apply-halted now restarted g x s k h = ap (λ (st : State). st.halted) s ∙ h

  -- A halt stays, with the figures it was set with, through any operations and restarts but a
  -- release of the halt.
  pub run-halted :
      (ops : List (ℕ × Op)) (g : Guard) (x : Halt)
      → Synced g
      → NoRelease ops
      → g.st.halted ≡ some x
      → (run lower cfg ops g).st.halted ≡ some x
  unfolding run
  run-halted [] g x s k h = h
  run-halted ((now, op) ∷ ops) g x s k h =
      run-halted ops (apply lower cfg now op g) x (apply-Synced now op g s) k.1
        (apply-halted now op g x s k.0 h)
