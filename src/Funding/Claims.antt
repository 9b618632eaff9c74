-- ===== src/Funding/Claims.antt =====
-- The sweep of jit-funding.js and a channel that holds sats of the wallet.

use lijox_lnd_adapter.Prelude.{
  ℕ, ◌≡◌, ◌⊎◌, refl, String, Bool, true, false, Option, some, [], ◌∷◌, arith, inl, inr,
}
use lijox_lnd_adapter.Funding.Record.{
  State, funded, held, paid, published, abandoning, orphan, Rec, publish_tx, leave_live, set_state,
  is_claimed, mark_paid, accepted, publish, pay_and_publish,
}
use lijox_lnd_adapter.Funding.Abandon.{Channel}
use lijox_lnd_adapter.Funding.Sweep.{listed_channel, Env, has_claim, sweep_turn, sweep_record}

pub mark_paid-pays :
    (now : ℕ) (r : Rec) (hex : String)
    → is_claimed r.state ≡ false
    → r.tx ≡ some hex
    → ((mark_paid now r).0.state ≡ paid) × ((mark_paid now r).0.tx ≡ some hex)
unfolding mark_paid set_state
mark_paid-pays now r hex c t = ground arith

publish-paid :
    (now : ℕ) (r : Rec) (hex : String)
    → r.state ≡ paid
    → r.tx ≡ some hex
    → ((publish now accepted r).rec.state ≡ published)
      × ((publish now accepted r).effects ≡ publish_tx hex ∷ leave_live ∷ [])
unfolding publish set_state
publish-paid now r hex s t = ground arith

claim_published :
    (now : ℕ) (r : Rec) (hex : String)
    → is_claimed r.state ≡ false
    → r.tx ≡ some hex
    → ((pay_and_publish now accepted r).rec.state ≡ published)
      × ((pay_and_publish now accepted r).effects ≡ publish_tx hex ∷ leave_live ∷ [])
unfolding pay_and_publish
claim_published now r hex c t =
    let m = mark_paid-pays now r hex c t in publish-paid now (mark_paid now r).0 hex m.0 m.1

-- A state that the sweep pays a claim in.
abbrev pub Payable : State → Type 0
Payable s = (s ≡ funded) ⊎ (s ≡ held) ⊎ (s ≡ abandoning) ⊎ (s ≡ orphan)

turn_pays :
    (e : Env) (live : Bool) (c : Option Channel) (s : State) (r : Rec)
    → Payable s
    → has_claim c ≡ true
    → (is_claimed s ≡ false) × (sweep_turn e live c s r ≡ pay_and_publish e.now e.publish r)
turn_pays e live c s r p h = elim p [
  | inl q ↦ rw q (refl, unfold sweep_turn in rw h)
  | inr (inl q) ↦ rw q (refl, unfold sweep_turn in rw h)
  | inr (inr (inl q)) ↦ rw q (refl, unfold sweep_turn in rw h)
  | inr (inr (inr q)) ↦ rw q (refl, unfold sweep_turn in rw h)
]

-- A channel that holds sats of the wallet is paid and published in the sweep's turn, whether the
-- record was funded, held, being abandoned or an orphan, and whether a flow owns it or not, if the
-- signed transaction was kept and LND takes it.
pub sweep-claim_wins :
    (e : Env) (live : Bool) (r : Rec) (hex : String)
    → Payable r.state
    → has_claim (listed_channel r.cp e.channels) ≡ true
    → r.tx ≡ some hex
    → e.publish ≡ accepted
    → ((sweep_record e live r).rec.state ≡ published)
      × ((sweep_record e live r).effects ≡ publish_tx hex ∷ leave_live ∷ [])
unfolding sweep_record
sweep-claim_wins e live r hex s c t a =
    let turn = turn_pays e live (listed_channel r.cp e.channels) r.state r s c in
    rw (turn.1, a) (claim_published e.now r hex turn.0 t)
