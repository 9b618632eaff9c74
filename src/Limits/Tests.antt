-- ===== src/Limits/Tests.antt =====
-- Two hits a minute: the theorems of `Limits` at it.
use lijox_lnd_adapter.Prelude.{◌≤◌, ◌≡◌, refl, true, [], ◌∷◌, arith}
use lijox_lnd_adapter.Limits.Window.{
  Limit, Entries, none_yet, set, current, seconds_left, hit, sweep, hits,
}
use lijox_lnd_adapter.Limits.Laws.{sweep-unseen, hit-waits, accepted, hits-bounded}

abbrev two_a_minute : Limit
two_a_minute = record { max = 2; window_ms = 60000 }

abbrev used : Entries
used = set "key" (record { count = 2; reset_at = 70000 }) none_yet

sweep-unseen_example :
    (hit two_a_minute 80000 "key" (sweep 75000 used)).1 ≡ (hit two_a_minute 80000 "key" used).1
sweep-unseen_example = sweep-unseen two_a_minute 75000 80000 "key" used (omega arith)

hit-waits_example :
    (1 ≤ (hit two_a_minute 20000 "key" used).1.reset_s)
    × ((hit two_a_minute 90000 "key" (hit two_a_minute 20000 "key" used).0).1.ok ≡ true)
unfolding hit set current seconds_left
hit-waits_example = hit-waits two_a_minute 20000 90000 "key" used (omega arith) refl (omega arith)

hits-bounded_example : accepted (hits two_a_minute "key" (10000 ∷ 20000 ∷ 30000 ∷ []) none_yet) ≤ 2
hits-bounded_example =
    hits-bounded two_a_minute "key" 10000 (20000 ∷ 30000 ∷ []) none_yet refl
      (omega arith, (omega arith, tt))
