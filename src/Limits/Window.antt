-- ===== src/Limits/Window.antt =====
-- wallet-limits.js: `hit` and `sweep` of a window limiter. The Map is a function from the keys;
-- `size`, which counts its entries, is left out. Times are milliseconds.
use lijox_lnd_adapter.Prelude.{
  ℕ, ◌+◌, ◌-◌, ◌/◌, String, leb, if◌then◌else◌, Bool, true, false, Option, none, some, List, [],
  ◌∷◌,
}
use text.Mathlib.Text.{◌==◌}

pub record Entry : Type 0 where
  pub count : ℕ
  pub reset_at : ℕ

-- `max` and `windowMs`
pub record Limit : Type 0 where
  pub max : ℕ
  pub window_ms : ℕ

abbrev pub Entries : Type 0
Entries = String → Option Entry

abbrev pub none_yet : Entries
none_yet key = none

unfoldable pub set : String → Entry → Entries → Entries
set key e m k = if k == key then some e else m k

pub record Answer : Type 0 where
  pub ok : Bool
  pub reset_s : ℕ

-- The entry that counts at time `t`: a new one if there is none or its window has ended.
unfoldable pub current : Limit → ℕ → Option Entry → Entry
current l t none = record { count = 0; reset_at = t + l.window_ms }
current l t (some e) =
    if leb e.reset_at t then record { count = 0; reset_at = t + l.window_ms } else e

-- `Math.max(1, Math.ceil((e.resetAt - t) / 1000))`
unfoldable pub seconds_left : ℕ → ℕ → ℕ
seconds_left reset_at t = if leb reset_at t then 1 else (reset_at - t + 999) / 1000

unfoldable pub count_hit : Limit → ℕ → String → Entry → Entries → Entries × Answer
count_hit l t key e m =
    if leb l.max e.count
    then (set key e m, record { ok = false; reset_s = seconds_left e.reset_at t })
    else (set key (record e { count = e.count + 1 }) m, record { ok = true; reset_s = 0 })

-- hit
unfoldable pub hit : Limit → ℕ → String → Entries → Entries × Answer
unfolding count_hit
hit l t key m = count_hit l t key (current l t (m key)) m

abbrev pub keep_open : ℕ → Option Entry → Option Entry
keep_open t none = none
keep_open t (some e) = if leb e.reset_at t then none else some e

-- sweep
unfoldable pub sweep : ℕ → Entries → Entries
sweep t m key = keep_open t (m key)

-- The answers to hits of one key, at their times.
unfoldable pub hits : Limit → String → List ℕ → Entries → List Answer
hits l key [] m = []
hits l key (t ∷ ts) m = let (after, a) = hit l t key m in a ∷ hits l key ts after
