-- ===== src/Sm/Intent.antt =====
-- lij-sm.js: one payment's record, `transition`, and what each handler does to its intent. The clock
-- is read once for a step. An amount that `BigInt` refuses is `none`; a missing amount is 0, as
-- `|| 0` makes it.
use lijox_lnd_adapter.Prelude.{
  ℕ, zero, suc, ◌+◌, ◌/◌, String, ltb, if◌then◌else◌, ◌&&◌, ◌||◌, not, is_some, Bool, true, false,
  Option, none, some, List, [], ◌∷◌, ◌++◌, length, drop,
}
use text.Mathlib.Text.{◌==◌}
use lijox_lnd_adapter.Sm.State.{
  State, intercepted, aggregating, gated, holding, opening, forwarding, settling, failing, settled,
  failed, expired, passthrough, resumed, is_terminal, same, is_legal,
}

-- The text that `transition` is called with.
pub data Why : Type 0 where
  second_shard shard_registered window_short all_shards_failed all_parts_failed : Why
  flush_failed : String → Why
  mid_open_disconnect recipient_offline handed_back cap_expiry hold_expired : Why
  trampoline_started trampoline_inflight trampoline_paid inbound_settled trampoline_incomplete : Why
  parked jit_open channel_opened : Why
  open_failed : String → Why
  forward_succeeded : Why
  forward_failed : String → Why
  forward_failure preimage_observed preimage_applied aged_out : Why

pub record Hold : Type 0 where
  pub cap_ms : ℕ
  pub created_at : ℕ
  pub watchdog_at : Option ℕ
  pub via : String
  pub shards : ℕ

pub record Move : Type 0 where
  pub from : State
  pub to : State
  pub why : Why
  pub at : ℕ

pub record Intent : Type 0 where
  pub hash : String
  pub state : State
  pub entered_at : ℕ
  pub shards : List (String × Option ℕ)
  pub shard_sum_msat : ℕ
  pub total_msat_expected : Option (Option ℕ)
  pub scid : Option String
  pub hold : Option Hold
  pub history : List Move
  pub promise_bound : Bool

-- The journal lines.
pub data Line : Type 0 where
  created : String → Line
  trans : String → State → Why → Line
  illegal : String → State → State → Why → Line
  on_terminal : String → State → Why → Line
  no_watchdog : String → Line
  no_secret : String → Line
  sibling_joined : String → ℕ → Line
  sum_under sum_over : String → Line
  unbound_note : Line
  watchdog_note : String → Line
  unknown_event : String → Line

-- The record that getIntent makes.
unfoldable pub new_intent : String → ℕ → Intent
new_intent h now = record {
  hash = h;
  state = intercepted;
  entered_at = now;
  shards = [];
  shard_sum_msat = 0;
  total_msat_expected = none;
  scid = none;
  hold = none;
  history = [];
  promise_bound = false;
}

-- `history.push(x); if (history.length > 40) history.shift()`.
unfoldable pub remember : List Move → Move → List Move
remember history x =
    let longer = history ++ x ∷ [] in if ltb 40 (length longer) then drop 1 longer else longer

unfoldable pub moved : Intent → State → Why → ℕ → Intent
moved it to why now = record it {
  history = remember it.history (record { from = it.state; to = to; why = why; at = now });
  state = to;
  entered_at = now;
}

unfoldable pub transition : ℕ → State → Why → Intent → Intent × List Line
transition now to why it =
    if same it.state to
    then (it, [])
    else if is_terminal it.state
    then (it, on_terminal it.hash it.state why ∷ [])
    else (
      moved it to why now,
      (if is_legal it.state to then [] else illegal it.hash it.state to why ∷ [])
          ++ trans it.hash to why ∷ [],
    )

-- An update of an intent with the lines that it writes.
abbrev pub Update : Type 0
Update = Intent → Intent × List Line

infixr 5 ◌then_do◌
unfoldable pub ◌then_do◌ : Update → Update → Update
◌then_do◌ f g it = let (a, l) = f it in let (b, k) = g a in (b, l ++ k)

unfoldable pub nothing : Update
nothing it = (it, [])

unfoldable pub when : (Intent → Bool) → Update → Update
when test f it = if test it then f it else (it, [])

abbrev pub is_in : State → Intent → Bool
is_in s it = same it.state s

abbrev lookup_shard : String → List (String × Option ℕ) → Bool
lookup_shard ck [] = false
lookup_shard ck ((k, v) ∷ r) = k == ck || lookup_shard ck r

abbrev add_amount : ℕ → Option ℕ → ℕ
add_amount sum none = sum
add_amount sum (some v) = sum + v

-- `if (p.scid && !it.scid) it.scid = String(p.scid)`.
unfoldable pub learn_scid : Option String → Intent → Intent
learn_scid p it = if is_some p && not (is_some it.scid) then record it { scid = p } else it

-- `if (p.ck && !it.shards.has(p.ck))`: the shard, and its amount unless BigInt throws.
unfoldable pub add_shard : Option String → Option ℕ → Intent → Intent
add_shard none msat it = it
add_shard (some ck) msat it = if lookup_shard ck it.shards then it else record it {
  shards = it.shards ++ (ck, msat) ∷ [];
  shard_sum_msat = add_amount it.shard_sum_msat msat;
}

unfoldable pub on_htlc_intercepted : ℕ → Option String → Option String → Option ℕ → Update
on_htlc_intercepted now scid ck msat it =
    let a = add_shard ck msat (learn_scid scid it) in
    when (λ b. ltb 1 (length b.shards) && is_in intercepted b)
      (transition now aggregating second_shard) a

unfoldable pub bind_promise : Intent → Intent
bind_promise it = record it { promise_bound = true }

unfoldable pub on_shard_registered : ℕ → Update
on_shard_registered now it =
    when (is_in intercepted) (transition now aggregating shard_registered) (bind_promise it)

unfoldable pub on_agg_window_short : ℕ → Update
on_agg_window_short now =
    transition now failing window_short then_do transition now failed all_shards_failed

unfoldable pub on_var_flush_failed : ℕ → String → Update
on_var_flush_failed now why =
    transition now failing (flush_failed why) then_do transition now failed all_parts_failed

-- The first hold event of a hash.
unfoldable pub new_hold : ℕ → ℕ → String → Update
new_hold now cap via it =
    transition now holding (if via == "b13" then mid_open_disconnect else recipient_offline)
      (record it {
        hold =
            some (record {
              cap_ms = cap;
              created_at = now;
              watchdog_at = none;
              via = via;
              shards = 1;
            });
      })

-- `(hold.shards || 1) + 1`.
unfoldable pub one_more : ℕ → ℕ
one_more zero = 2
one_more (suc n) = suc n + 1

-- A sibling shard joins the hold: no transition, and the watchdog stays.
unfoldable pub join_hold : Hold → Update
join_hold h it = (
  record it { hold = some (record h { shards = one_more h.shards }) },
  sibling_joined it.hash (one_more h.shards) ∷ [],
)

unfoldable pub hold_update : ℕ → ℕ → String → Option Hold → Update
hold_update now cap via none = new_hold now cap via
hold_update now cap via (some h) = join_hold h

unfoldable pub on_hold_created : ℕ → ℕ → String → Update
on_hold_created now cap via it = hold_update now cap via it.hold (bind_promise it)

unfoldable pub on_resumed : ℕ → Update
on_resumed now = transition now resumed handed_back

unfoldable pub schedule_watchdog : ℕ → Option Hold → Update
schedule_watchdog at none it = (it, watchdog_note it.hash ∷ [])
schedule_watchdog at (some h) it =
    (record it { hold = some (record h { watchdog_at = some at }) }, [])

unfoldable pub on_watchdog_scheduled : ℕ → ℕ → Update
on_watchdog_scheduled now in_ms it = schedule_watchdog (now + in_ms) it.hold it

unfoldable pub on_watchdog_fired : ℕ → Update
on_watchdog_fired now =
    transition now failing cap_expiry then_do transition now expired hold_expired

pub data Phase : Type 0 where
  start inflight done : Phase

unfoldable pub on_trampoline : ℕ → Phase → Bool → Update
on_trampoline now start ok = when (is_in holding) (transition now forwarding trampoline_started)
on_trampoline now inflight ok = when (is_in holding) (transition now forwarding trampoline_inflight)
on_trampoline now done true =
    when (λ it. not (is_in settling it)) (transition now settling trampoline_paid)
    then_do transition now settled inbound_settled
on_trampoline now done false =
    when (is_in forwarding) (transition now holding trampoline_incomplete)

unfoldable pub on_inflight_parked : ℕ → Update
on_inflight_parked now =
    when
      (λ it.
        is_in opening it
        || is_in holding it
        || is_in gated it
        || is_in intercepted it
        || is_in aggregating it)
      (transition now forwarding parked)

-- `if (p.scid) it.scid = …; if (p.total_msat != null) it.total_msat_expected = …`.
unfoldable pub learn_open : Option String → Option (Option ℕ) → Intent → Intent
learn_open scid total it =
    let a = if is_some scid then record it { scid = scid } else it in
    if is_some total then record a { total_msat_expected = total } else a

-- The sum check: quiet unless both amounts are numbers, something came in, and the sum is below
-- what was expected or more than 1% and 50,000 msat above it.
unfoldable pub check_sum : Option (Option ℕ) → Option (Option ℕ) → ℕ → String → List Line
check_sum (some (some total)) (some (some fee)) sum h =
    let want = total + fee in
    if ltb 0 sum
    then (if ltb sum want
        then sum_under h ∷ []
        else if ltb (want + (want / 100 + 50000)) sum
        then sum_over h ∷ []
        else [])
    else []
check_sum _ _ _ _ = []

-- `known`: whether a payment secret is known for the hash or the scid.
unfoldable pub on_open_started :
    ℕ → (Intent → Bool) → Option String → Option (Option ℕ) → Option (Option ℕ) → Update
on_open_started now known scid total fee it =
    let a = learn_open scid total (bind_promise it) in
    let (b, lines) = transition now opening jit_open a in
    (
      b,
      (if known a then [] else no_secret a.hash ∷ [])
          ++ check_sum a.total_msat_expected fee a.shard_sum_msat a.hash
          ++ lines,
    )

unfoldable pub on_open_result : ℕ → Bool → String → Update
on_open_result now true e = transition now forwarding channel_opened
on_open_result now false e = transition now failing (open_failed e)

unfoldable pub on_forward_result : ℕ → Bool → String → Update
on_forward_result now true code = transition now settling forward_succeeded
on_forward_result now false code =
    transition now failing (forward_failed code) then_do transition now failed forward_failure

unfoldable pub on_settle : ℕ → Update
on_settle now =
    when (λ it. not (is_in settling it)) (transition now settling preimage_observed)
    then_do transition now settled preimage_applied

-- The census: a pass-through that nothing promised closes after 90 seconds.
unfoldable pub age_out : ℕ → Update
age_out now =
    when
      (λ it.
        (is_in intercepted it || is_in aggregating it)
        && (not it.promise_bound && ltb (it.entered_at + 90000) now))
      (transition now passthrough aged_out)
