-- ===== src/Sm/Does.antt =====
-- What any handler of lij-sm.js does to its intent: edits that leave the state and its history
-- alone, and calls of `transition`.
use lijox_lnd_adapter.Prelude.{
  ℕ, ◌+◌, String, ◌≡◌, refl, Bool, true, false, Option, none, some, List, [], ◌++◌, arith,
  Bool-cases, inl, inr,
}
use lijox_lnd_adapter.Sm.State.{
  State, intercepted, gated, abandoned, aggregating, holding, opening, forwarding, settling,
  failing, settled, failed, expired, passthrough, resumed,
}
use lijox_lnd_adapter.Sm.Intent.{
  Why, jit_open, Hold, Intent, Line, transition, Update, ◌then_do◌, when, learn_scid, add_shard,
  on_htlc_intercepted, bind_promise, on_shard_registered, on_agg_window_short, on_var_flush_failed,
  new_hold, join_hold, hold_update, on_hold_created, on_resumed, schedule_watchdog,
  on_watchdog_scheduled, on_watchdog_fired, Phase, start, inflight, done, on_trampoline,
  on_inflight_parked, learn_open, on_open_started, on_open_result, on_forward_result, on_settle,
  age_out,
}

-- The states that a handler moves an intent to. None asks for GATED or ABANDONED, and none goes
-- back to INTERCEPTED.
abbrev pub enterable : State → Bool
enterable intercepted = false
enterable gated = false
enterable abandoned = false
enterable _ = true

-- `b` is `a` but for what `transition` does not read or write.
pub record Edits (a b : Intent) : Type 0 where
  pub hash : b.hash ≡ a.hash
  pub state : b.state ≡ a.state
  pub history : b.history ≡ a.history
  pub entered : b.entered_at ≡ a.entered_at
  pub bound : a.promise_bound ≡ true → b.promise_bound ≡ true

pub data Does : Intent → List Line → Intent → Type 0 where
  edit : {a b : Intent} (lines : List Line) → Edits a b → Does a lines b
  move :
      (now : ℕ) (to : State) (why : Why) (a : Intent)
      → enterable to ≡ true
      → Does a (transition now to why a).1 (transition now to why a).0
  both : {a b c : Intent} {k l : List Line} → Does a k b → Does b l c → Does a (k ++ l) c

-- An update whose every effect is of that kind.
pub record DoesSo (f : Update) : Type 0 where
  pub at : (it : Intent) → Does it (f it).1 (f it).0

pub DoesSo-transition :
    (now : ℕ) (to : State) (why : Why) → enterable to ≡ true → DoesSo (transition now to why)
DoesSo-transition now to why h = record { at = λ it. move now to why it h }

pub DoesSo-then : (f g : Update) → DoesSo f → DoesSo g → DoesSo (f then_do g)
unfolding ◌then_do◌
DoesSo-then f g df dg = record { at = λ it. both (df.at it) (dg.at (f it).0) }

still : (it : Intent) → Does it [] it
still it =
    edit [] (record { hash = refl; state = refl; history = refl; entered = refl; bound = λ h. h })

pub DoesSo-when : (test : Intent → Bool) (f : Update) → DoesSo f → DoesSo (when test f)
unfolding when
DoesSo-when test f d = record {
  at = λ it. elim (Bool-cases (test it)) [
    | inl yes_it ↦ rw yes_it (d.at it)
    | inr no_it ↦ rw no_it (still it)
  ];
}

-- After an edit without lines, whatever follows.
after_edit : {a b c : Intent} {l : List Line} → Edits a b → Does b l c → Does a l c
after_edit e d = both (edit [] e) d

learn_scid-Edits : (s : Option String) (it : Intent) → Edits it (learn_scid s it)
unfolding learn_scid
learn_scid-Edits s it = ground arith

add_shard-Edits : (ck : Option String) (v : Option ℕ) (it : Intent) → Edits it (add_shard ck v it)
unfolding add_shard
add_shard-Edits ck v it = ground arith

Edits-trans : {a b c : Intent} → Edits a b → Edits b c → Edits a c
Edits-trans e f = ground arith

bind_promise-Edits : (it : Intent) → Edits it (bind_promise it)
unfolding bind_promise
bind_promise-Edits it = ground arith

learn_open-Edits :
    (s : Option String) (t : Option (Option ℕ)) (it : Intent) → Edits it (learn_open s t it)
unfolding learn_open
learn_open-Edits s t it = ground arith

pub on_htlc_intercepted-Does :
    (now : ℕ) (s ck : Option String) (v : Option ℕ) → DoesSo (on_htlc_intercepted now s ck v)
unfolding on_htlc_intercepted
on_htlc_intercepted-Does now s ck v = record {
  at = λ it.
      after_edit (Edits-trans (learn_scid-Edits s it) (add_shard-Edits ck v (learn_scid s it))) (
        (DoesSo-when _ _ (DoesSo-transition now aggregating _ refl)).at
          (add_shard ck v (learn_scid s it)));
}

pub on_shard_registered-Does : (now : ℕ) → DoesSo (on_shard_registered now)
unfolding on_shard_registered
on_shard_registered-Does now = record {
  at = λ it.
      after_edit (bind_promise-Edits it)
        ((DoesSo-when _ _ (DoesSo-transition now aggregating _ refl)).at (bind_promise it));
}

pub on_agg_window_short-Does : (now : ℕ) → DoesSo (on_agg_window_short now)
unfolding on_agg_window_short
on_agg_window_short-Does now =
    DoesSo-then _ _ (DoesSo-transition now failing _ refl) (DoesSo-transition now failed _ refl)

pub on_var_flush_failed-Does : (now : ℕ) (why : String) → DoesSo (on_var_flush_failed now why)
unfolding on_var_flush_failed
on_var_flush_failed-Does now why =
    DoesSo-then _ _ (DoesSo-transition now failing _ refl) (DoesSo-transition now failed _ refl)

hold_update-Does :
    (now cap : ℕ) (via : String) (h : Option Hold) → DoesSo (hold_update now cap via h)
unfolding hold_update new_hold join_hold
hold_update-Does now cap via none = record {
  at = λ it.
      after_edit
        (record { hash = refl; state = refl; history = refl; entered = refl; bound = λ b. b })
        (move now holding _ _ refl);
}
hold_update-Does now cap via (some h) = record {
  at = λ it.
      edit _ (record { hash = refl; state = refl; history = refl; entered = refl; bound = λ b. b });
}

pub on_hold_created-Does : (now cap : ℕ) (via : String) → DoesSo (on_hold_created now cap via)
unfolding on_hold_created
on_hold_created-Does now cap via = record {
  at = λ it.
      after_edit (bind_promise-Edits it)
        ((hold_update-Does now cap via it.hold).at (bind_promise it));
}

pub on_resumed-Does : (now : ℕ) → DoesSo (on_resumed now)
unfolding on_resumed
on_resumed-Does now = DoesSo-transition now resumed _ refl

schedule_watchdog-Does : (at : ℕ) (h : Option Hold) → DoesSo (schedule_watchdog at h)
unfolding schedule_watchdog
schedule_watchdog-Does at none = record {
  at = λ it.
      edit _ (record { hash = refl; state = refl; history = refl; entered = refl; bound = λ b. b });
}
schedule_watchdog-Does at (some h) = record {
  at = λ it.
      edit _ (record { hash = refl; state = refl; history = refl; entered = refl; bound = λ b. b });
}

pub on_watchdog_scheduled-Does : (now ms : ℕ) → DoesSo (on_watchdog_scheduled now ms)
unfolding on_watchdog_scheduled
on_watchdog_scheduled-Does now ms = record {
  at = λ it. (schedule_watchdog-Does (now + ms) it.hold).at it;
}

pub on_watchdog_fired-Does : (now : ℕ) → DoesSo (on_watchdog_fired now)
unfolding on_watchdog_fired
on_watchdog_fired-Does now =
    DoesSo-then _ _ (DoesSo-transition now failing _ refl) (DoesSo-transition now expired _ refl)

pub on_trampoline-Does : (now : ℕ) (p : Phase) (ok : Bool) → DoesSo (on_trampoline now p ok)
unfolding on_trampoline
on_trampoline-Does now start ok = DoesSo-when _ _ (DoesSo-transition now forwarding _ refl)
on_trampoline-Does now inflight ok = DoesSo-when _ _ (DoesSo-transition now forwarding _ refl)
on_trampoline-Does now done true =
    DoesSo-then _ _ (DoesSo-when _ _ (DoesSo-transition now settling _ refl))
      (DoesSo-transition now settled _ refl)
on_trampoline-Does now done false = DoesSo-when _ _ (DoesSo-transition now holding _ refl)

pub on_inflight_parked-Does : (now : ℕ) → DoesSo (on_inflight_parked now)
unfolding on_inflight_parked
on_inflight_parked-Does now = DoesSo-when _ _ (DoesSo-transition now forwarding _ refl)

pub on_open_started-Does :
    (now : ℕ) (known : Intent → Bool) (s : Option String) (t fee : Option (Option ℕ))
    → DoesSo (on_open_started now known s t fee)
unfolding on_open_started
on_open_started-Does now known s t fee = record {
  at = λ it.
      let a = learn_open s t (bind_promise it) in
      let e : Edits it a =
        Edits-trans (bind_promise-Edits it) (learn_open-Edits s t (bind_promise it)) in
      both (edit _ e) (move now opening jit_open a refl);
}

pub on_open_result-Does : (now : ℕ) (ok : Bool) (e : String) → DoesSo (on_open_result now ok e)
unfolding on_open_result
on_open_result-Does now true e = DoesSo-transition now forwarding _ refl
on_open_result-Does now false e = DoesSo-transition now failing _ refl

pub on_forward_result-Does :
    (now : ℕ) (ok : Bool) (code : String) → DoesSo (on_forward_result now ok code)
unfolding on_forward_result
on_forward_result-Does now true code = DoesSo-transition now settling _ refl
on_forward_result-Does now false code =
    DoesSo-then _ _ (DoesSo-transition now failing _ refl) (DoesSo-transition now failed _ refl)

pub on_settle-Does : (now : ℕ) → DoesSo (on_settle now)
unfolding on_settle
on_settle-Does now =
    DoesSo-then _ _ (DoesSo-when _ _ (DoesSo-transition now settling _ refl))
      (DoesSo-transition now settled _ refl)

pub age_out-Does : (now : ℕ) → DoesSo (age_out now)
unfolding age_out
age_out-Does now = DoesSo-when _ _ (DoesSo-transition now passthrough _ refl)
