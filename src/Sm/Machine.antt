-- ===== src/Sm/Machine.antt =====
-- lij-sm.js: the tables, `getIntent`, the handlers with their lookups, `emit`, the timer that
-- `hold_created` sets, the census, `snapshot` and `lookup`. Time is an argument.
use lijox_lnd_adapter.Prelude.{
  ℕ, ◌+◌, ◌-◌, String, if◌then◌else◌, ◌&&◌, ◌||◌, not, is_some, Bool, false, Option, none, some,
  List, [], ◌∷◌, ◌++◌,
}
use mathlib.Core.Option
use text.Mathlib.Text.{◌==◌}
use lijox_lnd_adapter.Sm.State.{State, holding, is_terminal}
use lijox_lnd_adapter.Sm.Intent.{
  Intent, Hold, Line, created, no_watchdog, unbound_note, watchdog_note, unknown_event, new_intent,
  Update, is_in, Phase, on_htlc_intercepted, on_shard_registered, on_agg_window_short,
  on_var_flush_failed, on_hold_created, on_resumed, on_watchdog_scheduled, on_watchdog_fired,
  on_trampoline, on_inflight_parked, on_open_started, on_open_result, on_forward_result, on_settle,
  age_out,
}

-- `checks` are the timers that `hold_created` set, by hash and time; `journal` is what was logged.
pub record Machine : Type 0 where
  pub intents : List Intent
  pub secret_by_hash : List String
  pub secret_by_scid : List String
  pub checks : List (String × ℕ)
  pub journal : List Line

abbrev pub empty : Machine
empty = record { intents = []; secret_by_hash = []; secret_by_scid = []; checks = []; journal = [] }

-- The event names of `handlers` with their payloads. An empty hash is a missing one.
pub data Event : Type 0 where
  htlc_intercepted : String → Option String → Option String → Option ℕ → Event
  shard_registered agg_window_short : String → Event
  var_flush_failed : String → String → Event
  secret_registered : String → Option String → Event
  hold_created : String → ℕ → String → Event
  resumed : String → Event
  watchdog_scheduled : String → ℕ → Event
  watchdog_fired : String → Event
  replay_started : Event
  trampoline : String → Phase → Bool → Event
  inflight_parked : String → Event
  open_started : String → Option String → Option (Option ℕ) → Option (Option ℕ) → Event
  open_result : String → Bool → String → Event
  forward_result : String → Bool → String → Event
  settle : String → Event
  other : String → Event

-- intents.get(hash)
unfoldable pub find_intent : String → List Intent → Option Intent
find_intent h [] = none
find_intent h (it ∷ r) = if it.hash == h then some it else find_intent h r

unfoldable pub log : List Line → Machine → Machine
log lines m = record m { journal = m.journal ++ lines }

-- The intents after the update of the one with this hash, and the update's lines.
unfoldable pub update_intent : String → Update → List Intent → List Intent × List Line
update_intent h f [] = ([], [])
update_intent h f (it ∷ r) =
    let (rest, lines) = update_intent h f r in
    if it.hash == h then (let (it', k) = f it in (it' ∷ r, k)) else (it ∷ rest, lines)

unfoldable pub update : String → Update → Machine → Machine
update h f m =
    let (its, lines) = update_intent h f m.intents in
    record m { intents = its; journal = m.journal ++ lines }

-- getIntent: the record is made where there is none.
unfoldable pub get_intent : ℕ → String → Machine → Machine
get_intent now h m = if h == "" || is_some (find_intent h m.intents) then m else record m {
  intents = m.intents ++ new_intent h now ∷ [];
  journal = m.journal ++ created h ∷ [];
}

-- `const it = getIntent(p.hash); if (!it) return;` and the rest of the handler.
unfoldable pub with_new : ℕ → String → Update → Machine → Machine
with_new now h f m = if h == "" then m else update h f (get_intent now h m)

-- `const it = intents.get(p.hash)`: where there is none, only a line.
unfoldable pub with_old : String → Update → List Line → Machine → Machine
with_old h f missing m = if is_some (find_intent h m.intents) then update h f m else log missing m

unfoldable pub has : List String → String → Bool
has [] k = false
has (x ∷ r) k = x == k || has r k

abbrev has_scid : List String → Option String → Bool
has_scid table none = false
has_scid table (some s) = has table s

-- secretKnown
unfoldable pub secret_known : Machine → Intent → Bool
secret_known m it = has m.secret_by_hash it.hash || has_scid m.secret_by_scid it.scid

abbrev learned : Option String → List String → List String
learned none table = table
learned (some s) table = s ∷ table

-- Whether the hash has an intent with a hold already: no second timer is set.
abbrev pub held_before : Option Intent → Bool
held_before none = false
held_before (some it) = is_some it.hold

unfoldable pub set_check : ℕ → String → Bool → Machine → Machine
set_check now h held m =
    if held || h == "" then m else record m { checks = m.checks ++ (h, now + 2000) ∷ [] }

-- emit
unfoldable pub emit : ℕ → Event → Machine → Machine
emit now (htlc_intercepted h scid ck msat) m =
    with_new now h (on_htlc_intercepted now scid ck msat) m
emit now (shard_registered h) m = with_new now h (on_shard_registered now) m
emit now (agg_window_short h) m = with_old h (on_agg_window_short now) (unbound_note ∷ []) m
emit now (var_flush_failed h why) m = with_old h (on_var_flush_failed now why) (unbound_note ∷ []) m
emit now (secret_registered h scid) m = record m {
  secret_by_hash = if h == "" then m.secret_by_hash else h ∷ m.secret_by_hash;
  secret_by_scid = learned scid m.secret_by_scid;
}
emit now (hold_created h cap via) m =
    set_check now h (held_before (find_intent h m.intents))
      (with_new now h (on_hold_created now cap via) m)
emit now (resumed h) m = with_old h (on_resumed now) [] m
emit now (watchdog_scheduled h ms) m = with_old h (on_watchdog_scheduled now ms) [] m
emit now (watchdog_fired h) m = with_old h (on_watchdog_fired now) (watchdog_note h ∷ []) m
emit now replay_started m = m
emit now (trampoline h phase ok) m = with_old h (on_trampoline now phase ok) [] m
emit now (inflight_parked h) m = with_old h (on_inflight_parked now) [] m
emit now (open_started h scid total fee) m =
    with_new now h (on_open_started now (secret_known m) scid total fee) m
emit now (open_result h ok e) m = with_old h (on_open_result now ok e) [] m
emit now (forward_result h ok code) m = with_old h (on_forward_result now ok code) [] m
emit now (settle h) m = with_new now h (on_settle now) m
emit now (other name) m = log (unknown_event name ∷ []) m

-- The timer of `hold_created`: still HOLDING, and no watchdog was scheduled.
abbrev overdue : Option Hold → Bool
overdue none = false
overdue (some h) = not (is_some h.watchdog_at)

abbrev check_line : Option Intent → List Line
check_line none = []
check_line (some it) = if is_in holding it && overdue it.hold then no_watchdog it.hash ∷ [] else []

unfoldable pub fire_check : String → Machine → Machine
fire_check h m = log (check_line (find_intent h m.intents)) m

-- The census over every intent; its [SM-STATE] line is not modelled.
unfoldable pub age_out_all : ℕ → List Intent → List Intent × List Line
age_out_all now [] = ([], [])
age_out_all now (it ∷ r) =
    let (a, k) = age_out now it in let (rest, lines) = age_out_all now r in (a ∷ rest, k ++ lines)

unfoldable pub census : ℕ → Machine → Machine
census now m =
    let (its, lines) = age_out_all now m.intents in
    record m { intents = its; journal = m.journal ++ lines }

pub record Row : Type 0 where
  pub hash : String
  pub state : State
  pub age_ms : ℕ
  pub sum_msat : ℕ
  pub scid : Option String

abbrev pub row : ℕ → Intent → Row
row now it = record {
  hash = it.hash;
  state = it.state;
  age_ms = now - it.entered_at;
  sum_msat = it.shard_sum_msat;
  scid = it.scid;
}

-- snapshot: the ages stay in milliseconds.
unfoldable pub snapshot : ℕ → List Intent → List Row
snapshot now [] = []
snapshot now (it ∷ r) =
    let rest = snapshot now r in if is_terminal it.state then rest else row now it ∷ rest

abbrev found : Intent → State × ℕ × Option String
found it = (it.state, it.entered_at, it.scid)

-- lookup; `lower` is `toLowerCase`.
unfoldable pub lookup :
    (lower : String → String) → String → Machine → Option (State × ℕ × Option String)
lookup lower h m = Option.map found (find_intent (lower h) m.intents)

-- What happens to the machine: an event, a timer that fires, or the minute's census.
pub data Step : Type 0 where
  event : Event → Step
  timer : String → Step
  minute : Step

unfoldable pub step : ℕ → Step → Machine → Machine
step now (event e) m = emit now e m
step now (timer h) m = fire_check h m
step now minute m = census now m

unfoldable pub run : List (ℕ × Step) → Machine → Machine
run [] m = m
run ((now, s) ∷ r) m = run r (step now s m)
