-- ===== src/Pay/Record.antt =====
-- onchain-pay.js: a payment's record, the settings, and the calls of Bitcoin Core and LND as effects.
-- Hashes, keys, scripts and transactions are their bytes, a rate is in sat per 1000 vbytes, and a
-- number that is not set is 0. The texts of errors and the journal are left out.
use lijox_lnd_adapter.Prelude.{
  String, ℕ, ◌==◌, ◌&&◌, Bool, true, false, Option, none, some, List, [], ◌∷◌, ◌++◌,
}
use lijox_lnd_adapter.Wire.Format.{Bytes}

pub data State : Type 0 where
  quoted opening locked lock_confirmed released taking_back : State
  done taken_back cancelled expired spent_unknown : State

abbrev pub same : State → State → Bool
same quoted quoted = true
same opening opening = true
same locked locked = true
same lock_confirmed lock_confirmed = true
same released released = true
same taking_back taking_back = true
same done done = true
same taken_back taken_back = true
same cancelled cancelled = true
same expired expired = true
same spent_unknown spent_unknown = true
same _ _ = false

-- OPEN_STATES
abbrev pub is_open : State → Bool
is_open quoted = true
is_open opening = true
is_open locked = true
is_open lock_confirmed = true
is_open released = true
is_open taking_back = true
is_open _ = false

-- END_STATES
abbrev pub is_end : State → Bool
is_end done = true
is_end taken_back = true
is_end cancelled = true
is_end expired = true
is_end _ = false

-- What decides anything is kept; what is only shown is left out. `watched` says whether the rail's
-- `subs` hold the watches of this payment's lock.
pub record Rec : Type 0 where
  pub hash : Bytes
  pub client : Bytes
  pub w : Bytes
  pub l : Bytes
  pub amount_sats : ℕ
  pub lock_sats : ℕ
  pub provider_fee_sats : ℕ
  pub lock_fee_sats : ℕ
  pub a_hash : Bytes
  pub a_preimage : Bytes
  pub state : State
  pub quoted_at : ℕ
  pub opened_at : ℕ
  pub lock_at : ℕ
  pub a_settled_at : ℕ
  pub ended_at : ℕ
  pub t : ℕ
  pub lock_block : ℕ
  pub lock_bump_block : ℕ
  pub lock_confirmed_block : ℕ
  pub script : Bytes
  pub lock_txids : List Bytes
  pub lock_vout : ℕ
  pub secret : Option Bytes
  pub settle_last_try : ℕ
  pub release_txid : Bytes
  pub release_block : ℕ
  pub takeback_txids : List Bytes
  pub takeback_block : ℕ
  pub watched : Bool

-- What the operations ask of Bitcoin Core, of LND and of the ledger.
pub data Effect : Type 0 where
  send_lock : Bytes → ℕ → Effect
  bump_fee : Bytes → Effect
  broadcast : Bytes → Effect
  mint : Bytes → ℕ → Effect
  settle : Bytes → Effect
  cancel : Bytes → Effect
  watch : Bytes → Effect
  unwatch : Bytes → Effect
  ledger : String → ℕ → Effect

pub record Settings : Type 0 where
  pub enabled : Bool
  pub fee_sats : ℕ
  pub fee_ppm : ℕ
  pub min_sats : ℕ
  pub max_sats : ℕ
  pub refund_blocks : ℕ
  pub daily_sats : ℕ
  pub max_open : ℕ

abbrev pub lock_bump_after_blocks : ℕ
lock_bump_after_blocks = 6

abbrev pub quote_valid_ms : ℕ
quote_valid_ms = 60000

abbrev pub open_window_ms : ℕ
open_window_ms = 600000

abbrev pub day_ms : ℕ
day_ms = 86400000

abbrev pub month_ms : ℕ
month_ms = 2592000000

abbrev pub walkaway_max : ℕ
walkaway_max = 3

abbrev pub lock_vbytes : ℕ
lock_vbytes = 153

-- The record after an operation, with its effects in order.
pub record Done : Type 0 where
  pub rec : Rec
  pub effects : List Effect

abbrev pub unchanged : Rec → Done
unchanged r = record { rec = r; effects = [] }

-- Calls in order: their effects, and nothing where one throws.
abbrev pub Call : Type 0 → Type 0
Call A = List Effect × Option A

abbrev pub after : {B : Type 0} → List Effect → Call B → Call B
after es (fs, b) = (es ++ fs, b)

infixl 5 ◌>>=◌ ◌>>◌
abbrev pub ◌>>=◌ : {A B : Type 0} → Call A → (A → Call B) → Call B
(es, none) >>= f = (es, none)
(es, some a) >>= f = after es (f a)

abbrev pub ◌>>◌ : {A B : Type 0} → Call A → Call B → Call B
m >> k = m >>= λ _. k

-- A call without effect on others that may throw, and one that is only made.
abbrev pub ask : {A : Type 0} → Option A → Call A
ask o = ([], o)

abbrev pub tell : Effect → Call (Unit {0})
tell e = (e ∷ [], some tt)

-- The last transaction of the lock.
abbrev pub last_id : List Bytes → Bytes
last_id [] = []
last_id (x ∷ []) = x
last_id (x ∷ y ∷ r) = last_id (y ∷ r)

unfoldable pub same_bytes : Bytes → Bytes → Bool
same_bytes [] [] = true
same_bytes (a ∷ r) (b ∷ s) = a == b && same_bytes r s
same_bytes _ _ = false

-- `state = s; ended_at = now()`
unfoldable pub end_as : State → ℕ → Rec → Rec
end_as s now r = record r { state = s; ended_at = now }
