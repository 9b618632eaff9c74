-- ===== src/Limits/Laws.antt =====
-- What a window limiter of wallet-limits.js promises.
use mathlib.Core.Bool.{false≢true}
use text.Mathlib.Text.{◌==◌}
use text.Mathlib.TextPositions.{eq_refl}
use lijox_lnd_adapter.Prelude.{
  ℕ, ◌+◌, ◌*◌, ◌≤◌, ◌<◌, ◌≡◌, refl, sym, ◌∙◌, String, leb, if◌then◌else◌, true, false, Option, none,
  some, List, [], ◌∷◌, arith, Bool-cases, inl, inr,
}
use lijox_lnd_adapter.Limits.Window.{
  Entry, Limit, Entries, set, Answer, current, seconds_left, count_hit, hit, keep_open, sweep, hits,
}

-- A hit of one key leaves every other key's entry as it is.
pub hit-other :
    (l : Limit) (t : ℕ) (key other : String) (m : Entries)
    → (other == key) ≡ false
    → (hit l t key m).0 other ≡ m other
unfolding hit set
hit-other l t key other m h = ground arith

current-keep_open :
    (l : Limit) (t later : ℕ) (o : Option Entry)
    → t ≤ later
    → current l later (keep_open t o) ≡ current l later o
unfolding current
current-keep_open l t later none h = refl
current-keep_open l t later (some e) h = ground arith

-- A sweep is not seen by any later hit: the answer is the same with it and without it.
pub sweep-unseen :
    (l : Limit) (t later : ℕ) (key : String) (m : Entries)
    → t ≤ later
    → (hit l later key (sweep t m)).1 ≡ (hit l later key m).1
unfolding hit sweep
sweep-unseen l t later key m h =
    rw (current-keep_open l t later (m key) h) (answer-same (current l later (m key)))
  where
    answer-same :
        (e : Entry) → (count_hit l later key e (sweep t m)).1 ≡ (count_hit l later key e m).1
    answer-same e = ground arith

module _ (l : Limit) (t : ℕ) (key : String) (e : Entry) (m : Entries) where
  count_hit-full :
      leb l.max e.count ≡ true
      → ((count_hit l t key e m).1.ok ≡ false)
        × ((count_hit l t key e m).0 key ≡ some e)
        × ((count_hit l t key e m).1.reset_s ≡ seconds_left e.reset_at t)
  unfolding count_hit set
  count_hit-full full = rw (full, eq_refl) (refl, refl, refl)

  count_hit-free :
      leb l.max e.count ≡ false
      → ((count_hit l t key e m).1.ok ≡ true)
        × ((count_hit l t key e m).0 key ≡ some (record e { count = e.count + 1 }))
  unfolding count_hit set
  count_hit-free free = rw (free, eq_refl) (refl, refl)

current-open : (l : Limit) (t : ℕ) (e : Entry) → t < e.reset_at → current l t (some e) ≡ e
unfolding current
current-open l t e h = ground arith

seconds_left_lem : (end t : ℕ) → (1 ≤ seconds_left end t) × (end ≤ t + seconds_left end t * 1000)
unfolding seconds_left
seconds_left_lem end t = ground arith

hit-ended :
    (l : Limit) (later : ℕ) (key : String) (e : Entry) (m : Entries)
    → 0 < l.max
    → e.reset_at ≤ later
    → (count_hit l later key (current l later (some e)) m).1.ok ≡ true
unfolding current count_hit
hit-ended l later key e m p h = ground arith

-- A refusal's waiting time is at least a second, and long enough: the key is taken again that many
-- seconds later, if the limit takes any at all.
pub hit-waits :
    (l : Limit) (t later : ℕ) (key : String) (m : Entries)
    → 0 < l.max
    → (hit l t key m).1.ok ≡ false
    → t + (hit l t key m).1.reset_s * 1000 ≤ later
    → (1 ≤ (hit l t key m).1.reset_s) × ((hit l later key (hit l t key m).0).1.ok ≡ true)
unfolding hit
hit-waits l t later key m p r w = refusal-waits (current l t (m key)) r w
  where
    refusal-waits :
        (e : Entry)
        → (count_hit l t key e m).1.ok ≡ false
        → t + (count_hit l t key e m).1.reset_s * 1000 ≤ later
        → (1 ≤ (count_hit l t key e m).1.reset_s)
          × ((count_hit l later key
                (current l later ((count_hit l t key e m).0 key))
                (count_hit l t key e m).0).1.ok
              ≡ true)
    refusal-waits e r w = elim (Bool-cases (leb l.max e.count)) [
      | inl full ↦
          let (refused, kept, waits) = count_hit-full l t key e m full in
          let w' : t + seconds_left e.reset_at t * 1000 ≤ later = rw waits at w in
          let reached : e.reset_at ≤ later = omega (arith, seconds_left_lem e.reset_at t) in
          (
            rw waits (omega (arith, seconds_left_lem e.reset_at t)),
            rw kept (hit-ended l later key e (count_hit l t key e m).0 p reached),
          )
      | inr free ↦ absurd (false≢true (sym r ∙ (count_hit-free l t key e m free).0))
    ]

abbrev pub accepted : List Answer → ℕ
accepted [] = 0
accepted (a ∷ more) = let rest = accepted more in if a.ok then 1 + rest else rest

abbrev pub AllBefore : ℕ → List ℕ → Type 0
AllBefore end [] = Unit
AllBefore end (t ∷ ts) = (t < end) × AllBefore end ts

module _ (l : Limit) (key : String) where
  within :
      (e : Entry) (ts : List ℕ) (m : Entries)
      → e.count ≤ l.max
      → m key ≡ some e
      → AllBefore e.reset_at ts
      → accepted (hits l key ts m) + e.count ≤ l.max
  unfolding hits hit
  within e [] m k h b = omega arith
  within e (t ∷ ts) m k h b =
      rw (h, current-open l t e b.0)
        (elim (Bool-cases (leb l.max e.count)) [
          | inl full ↦
              let (refused, kept, waits) = count_hit-full l t key e m full in
              rw refused (within e ts (count_hit l t key e m).0 k kept b.1)
          | inr free ↦
              let (taken, counted) = count_hit-free l t key e m free in
              let room : e.count + 1 ≤ l.max = ground (arith) in
              let rest =
                within (record e { count = e.count + 1 }) ts (count_hit l t key e m).0 room counted
                  b.1 in
              rw taken (omega (arith, rest))
        ])

-- Of any hits of one key within one window, the first one included, at most `max` are accepted.
pub hits-bounded :
    (l : Limit) (key : String) (t : ℕ) (ts : List ℕ) (m : Entries)
    → m key ≡ none
    → AllBefore (t + l.window_ms) ts
    → accepted (hits l key (t ∷ ts) m) ≤ l.max
unfolding hits hit current
hits-bounded l key t ts m h b =
    let e : Entry = record { count = 0; reset_at = t + l.window_ms } in
    rw h (elim (Bool-cases (leb l.max 0)) [
      | inl full ↦
          let (refused, kept, waits) = count_hit-full l t key e m full in
          let rest = within l key e ts (count_hit l t key e m).0 (omega arith) kept b in
          rw refused (omega (arith, rest))
      | inr free ↦
          let (taken, counted) = count_hit-free l t key e m free in
          let room : 0 + 1 ≤ l.max = ground (arith) in
          let rest =
            within l key (record e { count = 0 + 1 }) ts (count_hit l t key e m).0 room counted b in
          rw taken (omega (arith, rest))
    ])
