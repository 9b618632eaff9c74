-- ===== src/Sm/Tests.antt =====
-- A payment's life: each theorem of `Sm` at it, and runs of the code.
use lijox_lnd_adapter.Prelude.{
  ℕ, ◌+◌, ◌≤◌, ◌<◌, String, ◌≡◌, ◌⊎◌, refl, true, false, ◌||◌, none, some, List, [], ◌∷◌, arith,
}
use lijox_lnd_adapter.Sm.State.{
  State, intercepted, aggregating, holding, settled, passthrough, is_terminal,
}
use lijox_lnd_adapter.Sm.Intent.{
  Intent, Line, Why, done, is_in, one_more, transition, remember, moved, when, ◌then_do◌,
  on_trampoline, on_resumed, age_out,
}
use lijox_lnd_adapter.Sm.Machine.{
  Machine, empty, Event, Step, event, minute, find_intent, emit, with_old, update, update_intent,
  census, age_out_all, step, run,
}
use lijox_lnd_adapter.Sm.Frozen.{Evolves, run-Evolves}
use lijox_lnd_adapter.Sm.Journal.{AllLawful, run-AllLawful}
use lijox_lnd_adapter.Sm.Trace.{AllTraced, run-AllTraced}
use lijox_lnd_adapter.Sm.Handlers.{intent_of, settle-ends, hold_created-sibling, census-find}

abbrev waiting : Intent
waiting = record {
  hash = "aa";
  state = holding;
  entered_at = 1000;
  shards = ("c1", some 5000) ∷ [];
  shard_sum_msat = 5000;
  total_msat_expected = none;
  scid = some "1x2x3";
  hold = some (record {
    cap_ms = 60000;
    created_at = 1000;
    watchdog_at = some 61000;
    via = "intercept";
    shards = 1;
  });
  history = [];
  promise_bound = true;
}

abbrev passing : Intent
passing = record waiting { state = intercepted; hold = none; promise_bound = false }

abbrev with_one : Intent → Machine
with_one it = record empty { intents = it ∷ [] }

abbrev delivered : List (ℕ × Step)
delivered =
    (2000, event (Event.trampoline "aa" done true))
    ∷ (2001, event (Event.resumed "aa"))
    ∷ (99999, minute)
    ∷ []

-- The trampoline's success out of HOLDING ends SETTLED, and what follows is refused.
delivered_lines :
    (run delivered (with_one waiting)).journal
    ≡ Line.illegal "aa" holding State.settling Why.trampoline_paid
      ∷ Line.trans "aa" State.settling Why.trampoline_paid
      ∷ Line.trans "aa" settled Why.inbound_settled
      ∷ Line.on_terminal "aa" settled Why.handed_back
      ∷ []
unfolding run step emit with_old update update_intent find_intent on_trampoline on_resumed ◌then_do◌
    when transition moved remember census age_out_all age_out
delivered_lines = refl

abbrev FoundAs : String → Intent → List Intent → Type 0
FoundAs h it its = find_intent h its ≡ some it

waiting_found : FoundAs "aa" waiting (with_one waiting).intents
unfolding find_intent
waiting_found = refl

passing_found : FoundAs "aa" passing (with_one passing).intents
unfolding find_intent
passing_found = refl

run-Evolves_example :
    (b : Intent) × (find_intent "aa" (run delivered (with_one waiting)).intents ≡ some b)
    × Evolves waiting b
run-Evolves_example = run-Evolves delivered (with_one waiting) "aa" waiting waiting_found

run-AllLawful_example :
    AllLawful (run delivered (with_one waiting)).journal (run delivered (with_one waiting)).intents
run-AllLawful_example =
    run-AllLawful delivered (with_one waiting)
      (record { explained = tt; bounded = omega arith; ends = tt }, tt)

-- The wallet's payment with the move that brought it to HOLDING.
abbrev moved_once : Intent
moved_once = record waiting {
  history = record { from = intercepted; to = holding; why = Why.parked; at = 1000 } ∷ [];
}

run-AllTraced_example : AllTraced (run delivered (with_one moved_once)).intents
run-AllTraced_example =
    run-AllTraced delivered (with_one moved_once) (record { linked = tt; last = (refl, refl) }, tt)

settle-ends_example :
    (b : Intent) × (find_intent "aa" (emit 3000 (Event.settle "aa") (with_one waiting)).intents
      ≡ some b)
    × (is_terminal b.state ≡ true)
    × ((is_terminal (intent_of 3000 "aa" (with_one waiting)).state ≡ false) → b.state ≡ settled)
settle-ends_example = settle-ends 3000 "aa" (with_one waiting) refl

hold_created-sibling_example :
    (b : Intent) × (find_intent "aa"
        (emit 3000 (Event.hold_created "aa" 1 "b13") (with_one waiting)).intents
      ≡ some b)
    × (b.state ≡ holding)
    × (b.history ≡ [])
    × (b.hold
        ≡ some (record {
          cap_ms = 60000;
          created_at = 1000;
          watchdog_at = some 61000;
          via = "intercept";
          shards = one_more 1;
        }))
    × ((emit 3000 (Event.hold_created "aa" 1 "b13") (with_one waiting)).checks ≡ [])
hold_created-sibling_example =
    hold_created-sibling 3000 "aa" 1 "b13" (with_one waiting) waiting
      (record {
        cap_ms = 60000;
        created_at = 1000;
        watchdog_at = some 61000;
        via = "intercept";
        shards = 1;
      })
      refl waiting_found refl

census-find_example :
    (b : Intent) × (find_intent "aa" (census 95000 (with_one passing)).intents ≡ some b)
    × (((passing.promise_bound ≡ true)
          ⊎ (95000 ≤ passing.entered_at + 90000)
          ⊎ ((is_in intercepted passing || is_in aggregating passing) ≡ false))
        → b ≡ passing)
    × ((is_in intercepted passing || is_in aggregating passing) ≡ true
        → passing.promise_bound ≡ false
        → passing.entered_at + 90000 < 95000
        → b.state ≡ passthrough)
census-find_example = census-find 95000 "aa" (with_one passing) passing passing_found
