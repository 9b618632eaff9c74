-- ===== src/Funding/Grace.antt =====
-- The two halves of jit-funding.js's abandon, and a claim that is written between them.

use lijox_lnd_adapter.Prelude.{
  ℕ, ◌≡◌, refl, String, ltb, ◌&&◌, Bool, Bool-cases, true, false, Option, none, some, List, [], ◌∷◌,
  ◌++◌, arith, inl, inr, ◌∙◌, Option-cases,
}
use lijox_lnd_adapter.Funding.Record.{
  held, paid, abandoning, abandoned, State, Rec, tell_wallet, entomb, leave_live, set_state,
  is_blocked, mark_paid, Answer, publish, pay_and_publish, release_inputs,
}
use lijox_lnd_adapter.Funding.Abandon.{
  Channel, channel_of, Replies, finish_abandon, begin, finish_missing, finish_called, finish_found,
  finish, abandon,
}
use lijox_lnd_adapter.Funding.Claims.{mark_paid-pays}
use lijox_lnd_adapter.Funding.Sweep.{
  Env, listed_channel, sweep_record, sweep_turn, sweep_rest, sweep_abandoning, sweep_held_listed,
  has_claim, stale_ms, age,
}

begin-blocks :
    (now : ℕ) (reason : String) (r b : Rec) → begin now reason r ≡ some b → b.state ≡ abandoning
unfolding begin set_state
begin-blocks now reason r b h = ground arith

begin-keeps : (now : ℕ) (reason : String) (r b : Rec) → begin now reason r ≡ some b → b.tx ≡ r.tx
unfolding begin set_state
begin-keeps now reason r b h = ground arith

pay-unblocks :
    (now : ℕ) (a : Answer) (r : Rec)
    → is_blocked (some r) ≡ false
    → is_blocked (some (pay_and_publish now a r).rec) ≡ false
unfolding pay_and_publish publish mark_paid set_state is_blocked
pay-unblocks now a r h = ground arith

missing-unblocks :
    (now : ℕ) (p : Option (List String)) (r : Rec)
    → is_blocked (some (finish_missing now p r).rec) ≡ false
unfolding finish_missing set_state is_blocked
missing-unblocks now p r = ground arith

called-unblocks :
    (now : ℕ) (x : Replies) (reason : String) (r : Rec)
    → is_blocked (some (finish_called now x reason r).rec) ≡ false
called-unblocks now x reason r = elim (Option-cases x.abandon) [
  | inl good ↦ unfold finish_called finish_abandon set_state is_blocked in rw good
  | inr (why, bad) ↦ unfold finish_called set_state is_blocked in rw bad
]

held-unblocked : (now : ℕ) (r : Rec) → is_blocked (some (set_state held now r)) ≡ false
unfolding set_state is_blocked
held-unblocked now r = refl

found-unblocks :
    (now : ℕ) (x : Replies) (reason : String) (c : Channel) (r : Rec)
    → is_blocked (some (finish_found now x reason c r).rec) ≡ false
unfolding finish_found
found-unblocks now x reason c r = ground (
  arith,
  called-unblocks now x reason r,
  pay-unblocks now x.publish (set_state held now r) (held-unblocked now r),
  held-unblocked now r,
)

finish-unblocks :
    (now : ℕ) (x : Replies) (reason : String) (r : Rec)
    → is_blocked (some (finish now x reason r).rec) ≡ false
unfolding finish finish_found
finish-unblocks now x reason r = elim (Option-cases x.channels) [
  | inl unread ↦ unfold is_blocked in rw unread
  | inr (cs, read) ↦ elim (Option-cases (channel_of r.cp cs)) [
    | inl gone ↦ rw (read, gone) (missing-unblocks now x.pending r)
    | inr (c, there) ↦ rw (read, there) (found-unblocks now x reason c r)
  ]
]

abandon-unblocks :
    (now : ℕ) (x : Replies) (reason : String) (r : Rec)
    → is_blocked (some r) ≡ false
    → is_blocked (some (abandon now x reason r).rec) ≡ false
unfolding abandon
abandon-unblocks now x reason r h = elim (Option-cases (begin now reason r)) [
  | inl refused ↦ rw refused h
  | inr (b, begun) ↦ rw begun (finish-unblocks now x b.reason b)
]

listed-unblocks :
    (e : Env) (idle : ℕ) (c : Channel) (r : Rec)
    → is_blocked (some (sweep_held_listed e idle c (set_state held e.now r)).rec) ≡ false
unfolding sweep_held_listed
listed-unblocks e idle c r =
    let free = held-unblocked e.now r in
    ground (
      arith,
      free,
      abandon-unblocks e.now e.later "sweep: empty and idle 10 min" (set_state held e.now r) free,
    )

sweep_abandoning-unblocks :
    (e : Env) (c : Option Channel) (r : Rec)
    → is_blocked (some (sweep_abandoning e c r).rec) ≡ false
unfolding sweep_abandoning finish_abandon set_state is_blocked
sweep_abandoning-unblocks e none r = ground arith
sweep_abandoning-unblocks e (some c) r = unfold sweep_abandoning in listed-unblocks e (age e r) c r

-- In the sweep's turn an abandoning record without a claim stays blocked just while a flow owns it.
turn-blocked :
    (e : Env) (live : Bool) (c : Option Channel) (st : State) (r : Rec)
    → st ≡ abandoning
    → r.state ≡ abandoning
    → has_claim c ≡ false
    → is_blocked (some (sweep_turn e live c st r).rec) ≡ (live && ltb (age e r) stale_ms)
unfolding sweep_turn sweep_rest
turn-blocked e live c st r t s quiet = elim (Bool-cases (live && ltb (age e r) stale_ms)) [
  | inl owned ↦ unfold is_blocked in rw (t, quiet, owned, s) refl
  | inr free ↦ rw (t, quiet, free) (sweep_abandoning-unblocks e c r)
]

-- An abandon blocks the channel for the payment paths when it begins. A turn of the sweep during the
-- wait, in which LND shows no sats on the wallet's side, leaves the block on exactly when a flow owns
-- the record and the record is younger than ten minutes. When the abandon ends the block is off,
-- whatever LND answers and whatever the record `c` was made into meanwhile.
pub abandon-blocked_only_between :
    (now then : ℕ) (x : Replies) (reason : String) (r b c : Rec) (e : Env) (live : Bool)
    → begin now reason r ≡ some b
    → has_claim (listed_channel b.cp e.channels) ≡ false
    → (is_blocked (some b) ≡ true)
      × (is_blocked (some (sweep_record e live b).rec) ≡ (live && ltb (age e b) stale_ms))
      × (is_blocked (some (finish then x reason c).rec) ≡ false)
abandon-blocked_only_between now then x reason r b c e live h quiet =
    let begun = begin-blocks now reason r b h in
    (
      unfold is_blocked in rw begun refl,
      unfold sweep_record in
          turn-blocked e live (listed_channel b.cp e.channels) b.state b begun begun quiet,
      finish-unblocks then x reason c,
    )

-- A claim that is written while an abandon waits is lost if LND then cannot be read: the record goes
-- from paid to held.
pub finish-forgets_claim :
    (now mid then : ℕ) (x : Replies) (reason hex : String) (r b : Rec)
    → begin now reason r ≡ some b
    → r.tx ≡ some hex
    → x.channels ≡ none
    → ((mark_paid mid b).0.state ≡ paid)
      × ((finish then x reason (mark_paid mid b).0).rec.state ≡ held)
finish-forgets_claim now mid then x reason hex r b h t u =
    let blocked = begin-blocks now reason r b h in
    (
      (mark_paid-pays mid b hex (rw blocked refl) (begin-keeps now reason r b h ∙ t)).0,
      unfold finish set_state in rw u refl,
    )

-- A record left abandoning by a crash, whose channel LND does not list as open, is closed and its
-- coins are given back although LND's pending list could not be read.
pub sweep-closes_unread :
    (e : Env) (r : Rec)
    → r.state ≡ abandoning
    → listed_channel r.cp e.channels ≡ none
    → e.pending ≡ none
    → ((sweep_record e false r).rec.state ≡ abandoned)
      × ((sweep_record e false r).effects
          ≡ release_inputs r ++ (tell_wallet ∷ entomb ∷ leave_live ∷ []))
unfolding sweep_record
sweep-closes_unread e r s c p = rw s (
    unfold sweep_turn sweep_rest sweep_abandoning finish_abandon set_state in
    rw (c, p) (refl, refl))
