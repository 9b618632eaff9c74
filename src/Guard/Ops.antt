-- ===== src/Guard/Ops.antt =====
-- jit-guard.js: `recordOpen`, `settle`, `fail`, `release`, `releaseWallet`, and the file that
-- keeps the state over a restart. The journal texts and a write that fails are not modelled.
use lijox_lnd_adapter.Prelude.{
  ℕ, ◌-◌, String, ltb, leb, ◌==◌, if◌then◌else◌, ◌&&◌, ◌||◌, not, is_some, Bool, true, false,
  Option, none, some, List, [], ◌∷◌, ◌++◌, length, drop,
}
use Prim.Native.Char.{code}
use text.Mathlib.Text.{◌==◌ as str_eq}
use lijox_lnd_adapter.Guard.State.{
  unknown, settled, failed, same_outcome, Open, Halt, Release, State, empty, Settings,
  wallet_blocked, counts, prune,
}

-- What jit-guard.json holds: it is not there, it cannot be read, or it is a state that was written.
pub data Saved : Type 0 where
  missing unreadable : Saved
  kept : State → Saved

-- The state in memory and the one last written to jit-guard.json.
pub record Guard : Type 0 where
  pub st : State
  pub file : Saved

-- persist
unfoldable pub persist : State → Guard → Guard
persist st g = record { st = st; file = kept st }

-- load: what a new process starts with
unfoldable pub load : Saved → State
load missing = empty
load unreadable = empty
load (kept st) = st

unfoldable pub restart : Guard → Guard
unfolding load
restart g = record { st = load g.file; file = g.file }

-- The first open of this channel point whose outcome is unknown, changed in place.
unfoldable pub is_pending : String → Open → Bool
is_pending cp o = str_eq o.cp cp && same_outcome o.outcome unknown

unfoldable pub find : String → List Open → Option Open
find cp [] = none
find cp (o ∷ os) = if is_pending cp o then some o else find cp os

unfoldable pub change : String → (Open → Open) → List Open → List Open
change cp f [] = []
change cp f (o ∷ os) = let rest = change cp f os in if is_pending cp o then f o ∷ os else o ∷ rest

-- The record that recordOpen pushes.
unfoldable pub new_open : ℕ → String → String → ℕ → String → Bool → Open
new_open now cp wallet sats rail held = record {
  ts = now;
  cp = cp;
  wallet = wallet;
  sats = sats;
  rail = rail;
  outcome = unknown;
  held = held;
  code = "";
  at = 0;
}

-- recordOpen
unfoldable pub record_open : Settings → ℕ → String → String → ℕ → String → Bool → Guard → Guard
record_open cfg now cp wallet sats rail held g =
    if str_eq cp ""
    then g
    else persist
        (prune cfg now
          (record g.st { opens = g.st.opens ++ new_open now cp wallet sats rail held ∷ [] }))
        g

-- settle
unfoldable pub settle : ℕ → String → Guard → Guard
settle now cp g =
    if is_some (find cp g.st.opens)
    then persist
        (record g.st {
          opens = change cp (λ o. record o { outcome = settled; at = now }) g.st.opens;
        })
        g
    else g

unfoldable pub mark_failed : ℕ → String → Open → Open
mark_failed now code o = record o { outcome = failed; code = code; at = now }

-- The halt that a published failure sets, if enough wallets have failed.
unfoldable pub halt_if_due : (String → String) → Settings → ℕ → String → State → State
halt_if_due lower cfg now cp st =
    let c = counts lower cfg now st in
    if ltb 0 cfg.halt_at && (leb cfg.halt_at c.failed_wallets_24h && not (is_some st.halted))
    then record st {
      halted =
          some (record {
            at = now;
            count = c.failed_24h;
            wallets = c.failed_wallets_24h;
            last_cp = cp;
          });
    }
    else st

unfoldable pub fail_open :
    (String → String) → Settings → ℕ → String → String → Option Open → Guard → Guard
fail_open lower cfg now cp code none g = g
fail_open lower cfg now cp code (some o) g =
    let st = record g.st { opens = change cp (mark_failed now code) g.st.opens } in
    if o.held then persist st g else persist (halt_if_due lower cfg now cp st) g

-- fail
unfoldable pub fail : (String → String) → Settings → ℕ → String → String → Guard → Guard
unfolding fail_open
fail lower cfg now cp code g = fail_open lower cfg now cp code (find cp g.st.opens) g

-- The list of releases keeps its last 50.
unfoldable pub keep_last : List Release → List Release
keep_last rs = drop (length rs - 50) rs

unfoldable pub release_halt : ℕ → String → Option Halt → Guard → Guard × Bool
release_halt now by none g = (g, false)
release_halt now by (some was) g = (
  persist
      (record g.st {
        released = keep_last (g.st.released ++ record { at = now; by = by; was = was } ∷ []);
        halted = none;
      })
      g,
  true,
)

-- release; false is the error 'JIT is not halted'
unfoldable pub release : ℕ → String → Guard → Guard × Bool
unfolding release_halt
release now by g = release_halt now by g.st.halted g

abbrev codes : String → List ℕ
codes String.[] = []
codes (String.◌∷◌ c s) = code c ∷ codes s

is_lower_hex : ℕ → Bool
is_lower_hex c = leb 48 c && leb c 57 || leb 97 c && leb c 102

all_lower_hex : List ℕ → Bool
all_lower_hex [] = true
all_lower_hex (c ∷ cs) = is_lower_hex c && all_lower_hex cs

-- What `.` does not match.
line_ends : List ℕ → Bool
line_ends [] = false
line_ends (c ∷ cs) = c == 10 || c == 13 || c == 8232 || c == 8233 || line_ends cs

key_shape : List ℕ → Bool
key_shape (a ∷ b ∷ c ∷ d ∷ rest) =
    (a == 48
      && (b == 50 || b == 51)
      && (length (c ∷ d ∷ rest) == 64)
      && all_lower_hex (c ∷ d ∷ rest))
    || (a == 99 && b == 112 && c == 58 && not (line_ends (d ∷ rest)))
key_shape _ = false

-- `/^(0[23][0-9a-f]{64}|cp:.+)$/`
unfoldable pub is_key : String → Bool
unfolding key_shape all_lower_hex is_lower_hex line_ends
is_key s = key_shape (codes s)

-- releaseWallet; false is one of its two errors
unfoldable pub release_wallet :
    (lower : String → String) → Settings → ℕ → String → Guard → Guard × Bool
release_wallet lower cfg now wallet g =
    if is_key (lower wallet) && wallet_blocked lower cfg now (lower wallet) g.st
    then (
      persist (record g.st { wallet_released = (lower wallet, now) ∷ g.st.wallet_released }) g,
      true,
    )
    else (g, false)

-- What can be asked of a guard over its life, each at a time.
pub data Op : Type 0 where
  opened : String → String → ℕ → String → Bool → Op
  paid : String → Op
  refused : String → String → Op
  let_go : String → Op
  let_wallet_go : String → Op
  restarted : Op

unfoldable pub apply : (String → String) → Settings → ℕ → Op → Guard → Guard
apply lower cfg now (opened cp wallet sats rail held) g =
    record_open cfg now cp wallet sats rail held g
apply lower cfg now (paid cp) g = settle now cp g
apply lower cfg now (refused cp code) g = fail lower cfg now cp code g
apply lower cfg now (let_go by) g = (release now by g).0
apply lower cfg now (let_wallet_go wallet) g = (release_wallet lower cfg now wallet g).0
apply lower cfg now restarted g = restart g

unfoldable pub run : (String → String) → Settings → List (ℕ × Op) → Guard → Guard
run lower cfg [] g = g
run lower cfg ((now, op) ∷ ops) g = run lower cfg ops (apply lower cfg now op g)
