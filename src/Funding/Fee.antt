-- ===== src/Funding/Fee.antt =====
-- jit-funding.js: the fee dials and `feeRate`. A dial is set to what `Number(x)` gives, a finite
-- number or NaN. LND's estimate is rounded up already; `none` is an estimate that is missing, failed
-- or not above 0. The texts of the answer are left out.
use lijox_lnd_adapter.Prelude.{
  ℕ, ◌≤◌, ◌≡◌, ◌⊎◌, ltb, ◌==◌, if◌then◌else◌, ◌&&◌, not, Bool, false, Option, none, some, arith,
}

-- What `Number` gives: NaN, a number below 0, or a number by its whole part and whether there is a
-- fraction after it.
pub data Number : Type 0 where
  nan : Number
  below_zero : Number
  number : ℕ → Bool → Number

-- The dials of `settings.fee` over the defaults.
pub record Settings : Type 0 where
  pub target_conf : Number
  pub min_sat_per_vb : Number
  pub max_sat_per_vb : Number

-- The dials after the start.
pub record Dials : Type 0 where
  pub target_conf : ℕ
  pub min_sat_per_vb : ℕ
  pub max_sat_per_vb : ℕ

abbrev pub defaults : Settings
defaults = record {
  target_conf = number 144 false;
  min_sat_per_vb = number 1 false;
  max_sat_per_vb = number 0 false;
}

abbrev min : ℕ → ℕ → ℕ
min a b = if ltb a b then a else b

abbrev max : ℕ → ℕ → ℕ
max a b = if ltb a b then b else a

-- `Math.max(least, Math.floor(Number(x) || d))`: a negative number is floored below every `least`.
unfoldable pub at_least : ℕ → ℕ → Number → ℕ
at_least least d nan = max least d
at_least least d below_zero = least
at_least least d (number whole more) = max least (if whole == 0 && not more then d else whole)

-- What the start makes of the dials.
unfoldable pub clamp_dials : Settings → Dials
unfolding at_least
clamp_dials d = record {
  target_conf = min 1008 (at_least 1 144 d.target_conf);
  min_sat_per_vb = at_least 1 1 d.min_sat_per_vb;
  max_sat_per_vb = at_least 0 0 d.max_sat_per_vb;
}

abbrev pub estimate_or : ℕ → Option ℕ → ℕ
estimate_or floor none = floor
estimate_or floor (some est) = est

abbrev raise : ℕ → ℕ → ℕ
raise floor rate = if ltb rate floor then floor else rate

abbrev cap : ℕ → ℕ → ℕ
cap most rate = if ltb 0 most && ltb most rate then most else rate

-- feeRate, given the dials after the start
unfoldable pub fee_rate : Dials → Option ℕ → ℕ
fee_rate d est = cap d.max_sat_per_vb (raise d.min_sat_per_vb (estimate_or d.min_sat_per_vb est))

at_least_one : (n : Number) → 1 ≤ at_least 1 1 n
unfolding at_least
at_least_one nan = omega arith
at_least_one below_zero = omega arith
at_least_one (number whole more) = ground arith

-- Whatever is set and whatever LND estimates (at least 1), a rate is at least 1 sat/vB, is at most
-- the cap where one is set, and is at least the floor or the cap itself; without an estimate it is
-- at most the floor.
pub fee_rate_bounds :
    (settings : Settings) (est : Option ℕ)
    → 1 ≤ estimate_or 1 est
    → let d = clamp_dials settings in
      (1 ≤ fee_rate d est)
      × ((d.max_sat_per_vb ≡ 0) ⊎ (fee_rate d est ≤ d.max_sat_per_vb))
      × ((d.min_sat_per_vb ≤ fee_rate d est) ⊎ (fee_rate d est ≡ d.max_sat_per_vb))
      × (fee_rate d none ≤ d.min_sat_per_vb)
unfolding fee_rate clamp_dials
fee_rate_bounds settings est h = ground (arith, at_least_one settings.min_sat_per_vb)

-- A higher estimate never gives a lower rate.
pub fee_rate_mono :
    (d : Dials) (low high : ℕ) → low ≤ high → fee_rate d (some low) ≤ fee_rate d (some high)
unfolding fee_rate
fee_rate_mono d low high h = ground arith
