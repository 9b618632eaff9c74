-- ===== src/Pay/Spent.antt =====
-- onchain-pay.js: `onHandoverSpent`, the spend of the hand-over output in a block.
use lijox_lnd_adapter.Prelude.{
  ℕ, ◌*◌, ◌==◌, if◌then◌else◌, ◌&&◌, Bool, true, false, Option, none, some, List, [], ◌∷◌, length,
}
use lijox_lnd_adapter.Wire.Format.{Bytes}
use lijox_lnd_adapter.Tx.Parse.{Parsed, ParsedIn, parse}
use lijox_lnd_adapter.Pay.Record.{
  released, done, taken_back, spent_unknown, Rec, settle, cancel, unwatch, ledger, Done, last_id,
  same_bytes, end_as,
}

-- LND's notice of the spend.
pub record Spend : Type 0 where
  pub txid : Bytes
  pub height : ℕ
  pub raw : Option Bytes

-- What the spend's witness says.
pub data Seen : Type 0 where
  secret_of : Bytes → Seen
  ours : Seen
  other : Seen

module _ (sha : Bytes → Bytes) (num : ℕ → ℕ) where
  unfoldable pub read_items : Bytes → List Bytes → Seen
  read_items hash (a ∷ b ∷ c ∷ []) =
      if length b == 32 && same_bytes (sha b) hash
      then secret_of b
      else if length b == 0
      then ours
      else other
  read_items hash _ = other

  -- `tx.inputs.find(...) || tx.inputs[0]`
  unfoldable pub lock_spender : Rec → List ParsedIn → Option ParsedIn
  lock_spender r [] = none
  lock_spender r (i ∷ is) =
      let rest = lock_spender r is in
      if same_bytes i.txid (last_id r.lock_txids) && i.vout == r.lock_vout then some i else rest

  abbrev pub first_input : List ParsedIn → Option ParsedIn
  first_input [] = none
  first_input (i ∷ is) = some i

  abbrev pub or_else : {A : Type 0} → Option A → Option A → Option A
  or_else none o = o
  or_else (some a) o = some a

  unfoldable pub read_input : Rec → Option ParsedIn → Seen
  unfolding read_items
  read_input r none = other
  read_input r (some i) = read_items r.hash i.witness

  unfoldable pub read_tx : Rec → Option Parsed → Seen
  unfolding read_input lock_spender
  read_tx r none = other
  read_tx r (some tx) = read_input r (or_else (lock_spender r tx.inputs) (first_input tx.inputs))

  unfoldable pub read_spend : Rec → Option Bytes → Seen
  unfolding read_tx
  read_spend r none = other
  read_spend r (some raw) = read_tx r (parse num true raw)

  unfoldable pub has_id : Bytes → List Bytes → Bool
  has_id txid [] = false
  has_id txid (x ∷ xs) = let rest = has_id txid xs in if same_bytes x txid then true else rest

  -- The secret is known: B is settled, or the tick tries again.
  unfoldable pub paid_out : ℕ → Spend → Bool → Bytes → Rec → Done
  unfolding end_as
  paid_out now ev settled s r =
      let k = record r {
        release_txid = ev.txid;
        release_block = ev.height;
        secret = some s;
        watched = false;
      } in
      if settled
      then record {
        rec = end_as done now k;
        effects =
            settle s ∷ ledger "onchain_pay_fee" (r.provider_fee_sats * 1000) ∷ unwatch r.hash ∷ [];
      }
      else record { rec = record k { state = released }; effects = settle s ∷ unwatch r.hash ∷ [] }

  unfoldable pub came_back : ℕ → Spend → Rec → Done
  unfolding end_as
  came_back now ev r = record {
    rec = record (end_as taken_back now r) { takeback_block = ev.height; watched = false };
    effects = cancel r.hash ∷ ledger "onchain_pay_takeback" 0 ∷ unwatch r.hash ∷ [];
  }

  unfoldable pub gone : ℕ → Rec → Done
  unfolding end_as
  gone now r = record { rec = end_as spent_unknown now r; effects = [] }

  -- No secret in the witness: the one that was handed over earlier, or our own take-back.
  unfoldable pub without_secret : ℕ → Spend → Bool → Bool → Option Bytes → Rec → Done
  unfolding paid_out came_back gone has_id
  without_secret now ev settled mine (some s) r = paid_out now ev settled s r
  without_secret now ev settled mine none r =
      if mine
      then came_back now ev r
      else if has_id ev.txid r.takeback_txids
      then came_back now ev r
      else gone now r

  unfoldable pub on_seen : ℕ → Spend → Bool → Seen → Rec → Done
  unfolding without_secret
  on_seen now ev settled (secret_of s) r = paid_out now ev settled s r
  on_seen now ev settled ours r = without_secret now ev settled true r.secret r
  on_seen now ev settled other r = without_secret now ev settled false r.secret r

  -- onHandoverSpent; `settled` says whether LND took the settle
  unfoldable pub on_spent : ℕ → Spend → Bool → Rec → Done
  unfolding on_seen read_spend
  on_spent now ev settled r = on_seen now ev settled (read_spend r ev.raw) r
