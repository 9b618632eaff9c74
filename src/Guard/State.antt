-- ===== src/Guard/State.antt =====
-- jit-guard.js: the state, `keyOf`, `find`, `prune`, `walletFailures`, `walletBlocked`, `counts`.
-- Times are milliseconds. `at >= now - WINDOW` is written `now <= at + WINDOW`. `lower` is the
-- host's `toLowerCase`. A wallet and a code are taken as already cut to their lengths.
use lijox_lnd_adapter.Prelude.{
  ℕ, zero, suc, ◌+◌, ◌*◌, String, ltb, leb, if◌then◌else◌, ◌&&◌, ◌||◌, not, is_some, Bool, true,
  false, Option, none, List, [], ◌∷◌, length,
}
use Prim.Native.String.{◌++◌}
use text.Mathlib.Text.{◌==◌}

pub data Outcome : Type 0 where
  unknown settled failed : Outcome

abbrev pub same_outcome : Outcome → Outcome → Bool
same_outcome unknown unknown = true
same_outcome settled settled = true
same_outcome failed failed = true
same_outcome _ _ = false

-- One JIT open; `unknown` is the source's 'open', `at` 0 before its outcome.
pub record Open : Type 0 where
  pub ts : ℕ
  pub cp : String
  pub wallet : String
  pub sats : ℕ
  pub rail : String
  pub outcome : Outcome
  pub held : Bool
  pub code : String
  pub at : ℕ

pub record Halt : Type 0 where
  pub at : ℕ
  pub count : ℕ
  pub wallets : ℕ
  pub last_cp : String

pub record Release : Type 0 where
  pub at : ℕ
  pub by : String
  pub was : Halt

-- `st`; a key's latest release stands first.
pub record State : Type 0 where
  pub opens : List Open
  pub halted : Option Halt
  pub released : List Release
  pub wallet_released : List (String × ℕ)

abbrev pub empty : State
empty = record { opens = []; halted = none; released = []; wallet_released = [] }

-- The options of createJitGuard.
pub record Settings : Type 0 where
  pub arm_at : ℕ
  pub halt_at : ℕ
  pub wallet_at : ℕ
  pub keep_days : ℕ

abbrev pub window_ms : ℕ
window_ms = 86400000

abbrev pub filter : {A : Type 0} → (A → Bool) → List A → List A
filter p [] = []
filter p (x ∷ xs) = let rest = filter p xs in if p x then x ∷ rest else rest

-- keyOf
unfoldable pub key_of : (String → String) → Open → String
key_of lower o = if o.wallet == "" then "cp:" ++ o.cp else lower o.wallet

abbrev pub or_ts : ℕ → ℕ → ℕ
or_ts zero ts = ts
or_ts (suc n) ts = suc n

-- `Number(o.at || o.ts)`
unfoldable pub at_of : Open → ℕ
at_of o = or_ts o.at o.ts

-- lastRelease
unfoldable pub last_release : List Release → ℕ
last_release [] = 0
last_release (r ∷ []) = r.at
last_release (r ∷ s ∷ rs) = last_release (s ∷ rs)

-- `Number(st.wallet_released[key] || 0)`
unfoldable pub released_at : String → List (String × ℕ) → ℕ
released_at key [] = 0
released_at key ((k, at) ∷ r) = if k == key then at else released_at key r

-- `Number(o.at || o.ts) > Math.max(now - WINDOW_MS, since)`
abbrev pub is_after : ℕ → ℕ → Open → Bool
is_after now since o = ltb now (at_of o + window_ms) && ltb since (at_of o)

abbrev pub is_failed : Open → Bool
is_failed o = same_outcome o.outcome failed

-- walletFailures
unfoldable pub wallet_failures : (String → String) → ℕ → String → State → List Open
wallet_failures lower now key st =
    filter
      (λ o.
        is_failed o
        && (key_of lower o == key && is_after now (released_at key st.wallet_released) o))
      st.opens

-- walletBlocked
unfoldable pub wallet_blocked : (String → String) → Settings → ℕ → String → State → Bool
wallet_blocked lower cfg now wallet st =
    ltb 0 cfg.wallet_at
    && (not (lower wallet == "")
        && leb cfg.wallet_at (length (wallet_failures lower now (lower wallet) st)))

-- `new Set(xs).size`
unfoldable pub has : String → List String → Bool
has k [] = false
has k (x ∷ xs) = x == k || has k xs

unfoldable pub distinct : List String → List String
distinct [] = []
distinct (x ∷ xs) = let rest = distinct xs in if has x rest then rest else x ∷ rest

abbrev pub map_key : (String → String) → List Open → List String
map_key lower [] = []
map_key lower (o ∷ os) = key_of lower o ∷ map_key lower os

-- The opens of the window, `o.ts >= now - WINDOW_MS`.
unfoldable pub in_window : ℕ → List Open → List Open
in_window now opens = filter (λ o. leb now (o.ts + window_ms)) opens

-- The failures that count toward the halt: published, in the window, after the last release.
unfoldable pub published_failures : ℕ → State → List Open
published_failures now st =
    filter (λ o. is_failed o && (not o.held && is_after now (last_release st.released) o))
      (in_window now st.opens)

unfoldable pub abandoned_failures : ℕ → State → List Open
abandoned_failures now st = filter (λ o. is_failed o && o.held) (in_window now st.opens)

unfoldable pub count_wallets : (String → String) → List Open → ℕ
count_wallets lower os = length (distinct (map_key lower os))

pub record Counts : Type 0 where
  pub failed_24h : ℕ
  pub failed_wallets_24h : ℕ
  pub settled_24h : ℕ
  pub open_24h : ℕ
  pub abandoned_24h : ℕ
  pub abandoned_wallets_24h : ℕ
  pub held_settled_24h : ℕ
  pub level : ℕ
  pub armed : Bool

-- The ladder of `level` and the test of `armed`.
unfoldable pub level_of : Settings → Bool → ℕ → ℕ
level_of cfg halted nw =
    if halted
    then 3
    else if ltb 0 cfg.halt_at && leb cfg.halt_at nw
    then 3
    else if ltb 0 cfg.arm_at && leb cfg.arm_at nw
    then 2
    else if leb 1 nw
    then 1
    else 0

-- counts, less the rows that only the Console shows
unfoldable pub counts : (String → String) → Settings → ℕ → State → Counts
counts lower cfg now st =
    let w = in_window now st.opens in
    let failed = published_failures now st in
    let abandoned = abandoned_failures now st in
    let nw = count_wallets lower failed in
    record {
      failed_24h = length failed;
      failed_wallets_24h = nw;
      settled_24h = length (filter (λ o. same_outcome o.outcome settled) w);
      open_24h = length (filter (λ o. same_outcome o.outcome unknown) w);
      abandoned_24h = length abandoned;
      abandoned_wallets_24h = count_wallets lower abandoned;
      held_settled_24h = length (filter (λ o. same_outcome o.outcome settled && o.held) w);
      level = level_of cfg (is_some st.halted) nw;
      armed = not (is_some st.halted) && (ltb 0 cfg.arm_at && leb cfg.arm_at nw);
    }

-- prune
unfoldable pub prune : Settings → ℕ → State → State
prune cfg now st = record st {
  opens = filter (λ o. leb now (o.ts + cfg.keep_days * 86400000)) st.opens;
  wallet_released = filter (λ e. leb now (e.1 + cfg.keep_days * 86400000)) st.wallet_released;
}
