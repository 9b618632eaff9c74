-- ===== src/Funding/Record.antt =====
-- jit-funding.js: a record, `setState`, `markPaid`, `publish`, `releaseInputs`, `isBlocked`.
-- A call of LND is an effect, and its answer an argument. The file, its copies and the journal
-- texts are not modelled; `now` is one time for the whole operation.
use lijox_lnd_adapter.Prelude.{
  ℕ, zero, suc, ◌+◌, String, if◌then◌else◌, ◌||◌, not, is_some, Bool, true, false, Option, none,
  some, List, [], ◌∷◌, ◌++◌,
}

pub data State : Type 0 where
  funding funded held paid published confirmed abandoning abandoned cancelled orphan : State

abbrev pub same : State → State → Bool
same funding funding = true
same funded funded = true
same held held = true
same paid paid = true
same published published = true
same confirmed confirmed = true
same abandoning abandoning = true
same abandoned abandoned = true
same cancelled cancelled = true
same orphan orphan = true
same _ _ = false

-- ENDED
abbrev pub is_ended : State → Bool
is_ended confirmed = true
is_ended abandoned = true
is_ended cancelled = true
is_ended _ = false

-- LIVE_STATES
abbrev pub is_live_state : State → Bool
is_live_state confirmed = false
is_live_state abandoned = false
is_live_state cancelled = false
is_live_state _ = true

-- `paid_seen` and `paid_from` are kept for the Console only and are left out. A coin is the text of
-- its outpoint. `tx` is `funding_tx_hex`; a record without `txid` is a pre-fund record.
pub record Rec : Type 0 where
  pub cp : String
  pub txid : Option String
  pub lock_id : String
  pub client : String
  pub size_sats : ℕ
  pub tx : Option String
  pub inputs : List String
  pub state : State
  pub at : ℕ
  pub updated : ℕ
  pub reason : String
  pub verify_sent_at : ℕ
  pub paid_at : ℕ
  pub published_at : ℕ
  pub last_publish_at : ℕ
  pub republished : ℕ
  pub confirmations : ℕ
  pub abandoned_at : ℕ
  pub wallet_told : Bool
  pub wait_noted_at : ℕ
  pub publish_error : String
  pub abandon_error : String

-- What an operation asks of LND and of the wallet, and what it does outside its record.
pub data Effect : Type 0 where
  publish_tx : String → Effect
  abandon_channel : String → Effect
  release_output : String → String → Effect
  cancel_shim : Effect
  tell_wallet : Effect
  entomb : Effect
  unearth : Effect
  leave_live : Effect

-- The record after an operation, with its effects in order.
pub record Done : Type 0 where
  pub rec : Rec
  pub effects : List Effect

abbrev pub unchanged : Rec → Done
unchanged r = record { rec = r; effects = [] }

-- An operation after another.
infixl 5 ◌and_then◌
abbrev pub ◌and_then◌ : Done → (Rec → Done) → Done
d and_then f = record { rec = (f d.rec).rec; effects = d.effects ++ (f d.rec).effects }

-- setState, for the states that write no tombstone
unfoldable pub set_state : State → ℕ → Rec → Rec
set_state s now r = record r { state = s; updated = now }

-- isBlocked
unfoldable pub is_blocked : Option Rec → Bool
is_blocked none = false
is_blocked (some r) = same r.state abandoning

-- `rec.published_at || now()`
abbrev pub or_else : ℕ → ℕ → ℕ
or_else zero n = n
or_else (suc k) n = suc k

abbrev pub is_claimed : State → Bool
is_claimed paid = true
is_claimed published = true
is_claimed confirmed = true
is_claimed _ = false

-- markPaid: false where it answers null
unfoldable pub mark_paid : ℕ → Rec → Rec × Bool
mark_paid now r =
    if not (is_some r.tx) || is_claimed r.state
    then (r, false)
    else (record (set_state paid now r) { paid_at = now }, true)

-- LND's answer to a publish. A transaction that it knows already is accepted.
pub data Answer : Type 0 where
  accepted : Answer
  refused : String → Answer

unfoldable pub publish_answer : ℕ → Answer → Rec → Rec
publish_answer now accepted r = record (set_state published now r) {
  published_at = or_else r.published_at now;
  republished = if same r.state published then r.republished + 1 else 0;
  last_publish_at = now;
  publish_error = "";
}
publish_answer now (refused e) r = record r { publish_error = e; updated = now }

abbrev pub leave_if : Answer → List Effect
leave_if accepted = leave_live ∷ []
leave_if (refused e) = []

unfoldable pub publish_kept : ℕ → Answer → Option String → Rec → Done
unfolding publish_answer
publish_kept now a none r = unchanged r
publish_kept now a (some hex) r =
    if same r.state paid || same r.state published
    then record { rec = publish_answer now a r; effects = publish_tx hex ∷ leave_if a }
    else unchanged r

-- publish
unfoldable pub publish : ℕ → Answer → Rec → Done
unfolding publish_kept
publish now a r = publish_kept now a r.tx r

-- `markPaid` and then `publish`, as `abandon` and the sweep call them.
unfoldable pub pay_and_publish : ℕ → Answer → Rec → Done
unfolding mark_paid publish set_state
pay_and_publish now a r = publish now a (mark_paid now r).0

abbrev pub release_each : String → List String → List Effect
release_each lock [] = []
release_each lock (i ∷ is) = release_output lock i ∷ release_each lock is

-- releaseInputs
unfoldable pub release_inputs : Rec → List Effect
release_inputs r = release_each r.lock_id r.inputs
