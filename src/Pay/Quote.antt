-- ===== src/Pay/Quote.antt =====
-- onchain-pay.js: the bounds and the routes `quote`, `open` and `release`. A request's proof has been
-- checked, its hashes and keys decoded; `quote` is split where it waits: `check` sees the records as
-- they are when it comes, `commit` writes into them as they are after the invoices were minted.
use lijox_lnd_adapter.Prelude.{
  ℕ, ◌+◌, ◌*◌, ◌/◌, ltb, leb, ◌==◌, if◌then◌else◌, ◌&&◌, ◌||◌, not, Bool, true, false, Option, none,
  some, List, [], ◌∷◌, length,
}
use lijox_lnd_adapter.Wire.Format.{Bytes}
use lijox_lnd_adapter.Tx.Parse.{Parsed, ParsedIn, parse}
use lijox_lnd_adapter.Pay.Record.{
  quoted, opening, locked, lock_confirmed, released, taken_back, expired, same, is_open, Rec,
  Effect, mint, cancel, broadcast, Settings, quote_valid_ms, day_ms, month_ms, walkaway_max,
  lock_vbytes, Done, unchanged, same_bytes, end_as,
}
use lijox_lnd_adapter.Pay.Spent.{lock_spender}

-- `floatState`, as far as quotes read it.
pub record Float : Type 0 where
  pub ok : Bool
  pub balance_sats : ℕ

pub record Request : Type 0 where
  pub client : Bytes
  pub hash : Bytes
  pub w : Bytes
  pub amount_sats : ℕ
  pub release_fee_sats : ℕ
  pub reserve_sats : ℕ
  pub recipient : ℕ

-- The sum of a number over the records that pass a test.
unfoldable pub sum_where : (Rec → Bool) → List Rec → ℕ
sum_where p [] = 0
sum_where p (r ∷ rs) = let rest = sum_where p rs in if p r then r.lock_sats + rest else rest

unfoldable pub count_where : (Rec → Bool) → List Rec → ℕ
count_where p [] = 0
count_where p (r ∷ rs) = let rest = count_where p rs in if p r then 1 + rest else rest

-- lockedLast24h
unfoldable pub locked_last_24h : ℕ → List Rec → ℕ
unfolding sum_where
locked_last_24h now = sum_where (λ r. not (r.lock_at == 0) && leb now (r.lock_at + day_ms))

-- reservedSats
unfoldable pub reserved_sats : List Rec → ℕ
unfolding sum_where
reserved_sats = sum_where (λ r. same r.state quoted || same r.state opening)

-- walkaways
unfoldable pub walkaways : ℕ → Bytes → List Rec → ℕ
unfolding count_where
walkaways now client = count_where (λ r.
    same_bytes r.client client && (same r.state taken_back && leb now (r.ended_at + month_ms)))

unfoldable pub open_count : List Rec → ℕ
unfolding count_where
open_count = count_where (λ r. is_open r.state)

unfoldable pub find : Bytes → List Rec → Option Rec
find hash [] = none
find hash (r ∷ rs) = let rest = find hash rs in if same_bytes r.hash hash then some r else rest

-- `recs.set(hash, r)`
unfoldable pub put : Rec → List Rec → List Rec
put k [] = k ∷ []
put k (r ∷ rs) = let rest = put k rs in if same_bytes r.hash k.hash then k ∷ rs else r ∷ rest

-- quoteRefusal, by its status
unfoldable pub quote_refusal : Settings → ℕ → Bool → Float → Bytes → ℕ → List Rec → Option ℕ
unfolding open_count walkaways
quote_refusal cfg now ready f client amount recs =
    if not cfg.enabled
    then some 503
    else if not ready || not f.ok
    then some 503
    else if ltb amount cfg.min_sats || ltb cfg.max_sats amount
    then some 400
    else if leb cfg.max_open (open_count recs)
    then some 429
    else if leb walkaway_max (walkaways now client recs)
    then some 429
    else none

abbrev pub lock_sats_of : Request → ℕ
lock_sats_of q = q.amount_sats + q.release_fee_sats + q.reserve_sats

abbrev pub is_key : Bytes → Bool
is_key [] = false
is_key (b ∷ r) = length (b ∷ r) == 33 && (b == 2 || b == 3)

abbrev pub is_open_already : Option Rec → Bool
is_open_already none = false
is_open_already (some r) = is_open r.state

-- The tests of `quote` up to the daily ceiling; `none` lets it pass.
unfoldable pub check : Settings → ℕ → Bool → Float → Request → List Rec → Option ℕ
unfolding quote_refusal locked_last_24h find
check cfg now ready f q recs = elim (quote_refusal cfg now ready f q.client q.amount_sats recs) [
  | some status ↦ some status
  | none ↦
      if not (is_key q.w)
      then some 400
      else if ltb 200000 q.release_fee_sats || ltb 200000 q.reserve_sats
      then some 400
      else if q.recipient == 0 || ltb 120 q.recipient
      then some 400
      else if is_open_already (find q.hash recs)
      then some 409
      else if ltb cfg.daily_sats (locked_last_24h now recs + lock_sats_of q)
      then some 429
      else none
]

-- After the live probe of the float: `floatRemaining() < lockSats`.
unfoldable pub covers : Float → Request → List Rec → Option ℕ
unfolding reserved_sats
covers f q recs =
    if not f.ok
    then some 503
    else if ltb f.balance_sats (reserved_sats recs + lock_sats_of q)
    then some 503
    else none

-- `Math.ceil(S.lock_vbytes * rate)` and `S.fee_sats + Math.ceil(amount * S.fee_ppm / 1e6)`
unfoldable pub lock_fee : ℕ → ℕ
lock_fee rate = (lock_vbytes * rate + 999) / 1000

unfoldable pub provider_fee : Settings → ℕ → ℕ
provider_fee cfg amount = cfg.fee_sats + (amount * cfg.fee_ppm + 999999) / 1000000

-- The new record: `a` is the new preimage and `l` the take-back key.
unfoldable pub new_rec : (Bytes → Bytes) → Settings → ℕ → ℕ → Bytes → Bytes → Request → Rec
unfolding lock_fee provider_fee
new_rec sha cfg now rate a l q = record {
  hash = q.hash;
  client = q.client;
  w = q.w;
  l = l;
  amount_sats = q.amount_sats;
  lock_sats = lock_sats_of q;
  provider_fee_sats = provider_fee cfg q.amount_sats;
  lock_fee_sats = lock_fee rate;
  a_hash = sha a;
  a_preimage = a;
  state = quoted;
  quoted_at = now;
  opened_at = 0;
  lock_at = 0;
  a_settled_at = 0;
  ended_at = 0;
  t = 0;
  lock_block = 0;
  lock_bump_block = 0;
  lock_confirmed_block = 0;
  script = [];
  lock_txids = [];
  lock_vout = 0;
  secret = none;
  settle_last_try = 0;
  release_txid = [];
  release_block = 0;
  takeback_txids = [];
  takeback_block = 0;
  watched = false;
}

-- `recs.set(hash, r)` once both invoices are minted.
unfoldable pub commit :
    (Bytes → Bytes) → Settings → ℕ → ℕ → Bytes → Bytes → Request → List Rec → List Rec × List Effect
unfolding new_rec put
commit sha cfg now rate a l q recs =
    let r = new_rec sha cfg now rate a l q in
    (
      put r recs,
      mint r.a_hash ((r.provider_fee_sats + r.lock_fee_sats) * 1000)
          ∷ mint r.hash (r.lock_sats * 1000)
          ∷ [],
    )

-- The route `open`, by its status; the invoices are watched from here.
unfoldable pub open_quote : ℕ → Rec → Done × ℕ
unfolding end_as
open_quote now r =
    if not (same r.state quoted)
    then (unchanged r, 409)
    else if ltb (r.quoted_at + quote_valid_ms) now
    then (
      record { rec = end_as expired now r; effects = cancel r.a_hash ∷ cancel r.hash ∷ [] },
      410,
    )
    else (unchanged (record r { state = opening; opened_at = now }), 200)

-- The secret of a release of this payment: the witness has the hash's preimage and our script.
unfoldable pub release_secret : (Bytes → Bytes) → Rec → List Bytes → Option Bytes
release_secret sha r (a ∷ b ∷ c ∷ []) =
    if length b == 32 && (same_bytes (sha b) r.hash && same_bytes c r.script) then some b else none
release_secret sha r _ = none

unfoldable pub secret_in : (Bytes → Bytes) → (ℕ → ℕ) → Rec → Option ParsedIn → Option Bytes
unfolding release_secret
secret_in sha num r none = none
secret_in sha num r (some i) = release_secret sha r i.witness

unfoldable pub hand_over_with : Bytes → Bool → Option Bytes → Rec → Done × ℕ
hand_over_with raw allowed none r = (unchanged r, 400)
hand_over_with raw allowed (some s) r = (
  record {
    rec = record r { secret = some s };
    effects = if allowed then broadcast raw ∷ [] else [];
  },
  200,
)

unfoldable pub read_release : (Bytes → Bytes) → (ℕ → ℕ) → Rec → Option Parsed → Option Bytes
unfolding secret_in
read_release sha num r none = none
read_release sha num r (some tx) = secret_in sha num r (lock_spender sha num r tx.inputs)

-- The route `release`: the secret is kept, and the transaction sent where the mempool takes it.
unfoldable pub hand_over : (Bytes → Bytes) → (ℕ → ℕ) → Bytes → Bool → Rec → Done × ℕ
unfolding read_release hand_over_with
hand_over sha num raw allowed r =
    if same r.state locked || same r.state lock_confirmed || same r.state released
    then hand_over_with raw allowed (read_release sha num r (parse num true raw)) r
    else (unchanged r, 409)
