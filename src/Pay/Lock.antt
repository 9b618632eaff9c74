-- ===== src/Pay/Lock.antt =====
-- onchain-pay.js: `sendLock`, `bumpLock`, the confirmation of the lock, and the tick of
-- `watchInvoices`. A transaction is read by `Tx.Parse.parse`; `num` is the host's `Number`.
use lijox_lnd_adapter.Prelude.{
  ℕ, ◌+◌, ◌*◌, ltb, ◌==◌, if◌then◌else◌, ◌&&◌, ◌||◌, Bool, true, false, Option, none, some, List,
  [], ◌∷◌, ◌++◌,
}
use lijox_lnd_adapter.Wire.Format.{Bytes}
use lijox_lnd_adapter.Tx.Script.{handover_script, p2wsh}
use lijox_lnd_adapter.Tx.Parse.{ParsedOut, parse}
use lijox_lnd_adapter.Pay.Record.{
  opening, locked, lock_confirmed, cancelled, same, Rec, Effect, send_lock, bump_fee, settle,
  cancel, watch, ledger, Settings, open_window_ms, Done, unchanged, Call, ◌>>=◌, ◌>>◌, ask, tell,
  last_id, same_bytes, end_as,
}

-- What Bitcoin Core and LND answer; `none` and `false` are calls that throw.
pub record LockReplies : Type 0 where
  pub tip : Option ℕ
  pub rate : Option ℕ
  pub sent : Option Bytes
  pub raw : Option Bytes
  pub settled : Bool

-- `parsed.outputs.findIndex(...)`
unfoldable pub find_output : Bytes → ℕ → ℕ → List ParsedOut → Option ℕ
find_output spk sats i [] = none
find_output spk sats i (o ∷ os) =
    let rest = find_output spk sats (i + 1) os in
    if same_bytes o.script spk && o.value == sats then some i else rest

unfoldable pub cancel_both : ℕ → Rec → List Effect → Done
unfolding end_as
cancel_both now r done = record {
  rec = end_as cancelled now r;
  effects = done ++ (cancel r.a_hash ∷ cancel r.hash ∷ []);
}

module _ (sha : Bytes → Bytes) (num : ℕ → ℕ) where
  unfoldable pub vout_of : Bytes → Rec → Bytes → Option ℕ
  unfolding find_output
  vout_of script r raw = elim (parse num true raw) [
    | none ↦ none
    | some tx ↦ find_output (p2wsh sha script) r.lock_sats 0 tx.outputs
  ]

  -- From the tip to the record that is persisted as locked.
  unfoldable pub place_lock : Settings → ℕ → LockReplies → Rec → Call Rec
  unfolding vout_of
  place_lock cfg now x r = do
    tip ← ask x.tip
    script ← ask (handover_script r.hash r.w r.l (tip + cfg.refund_blocks))
    rate ← ask x.rate
    tell (send_lock script r.lock_sats)
    txid ← ask x.sent
    raw ← ask x.raw
    vout ← ask (vout_of script r raw)
    ask (
        some (record r {
          t = tip + cfg.refund_blocks;
          lock_block = tip;
          script = script;
          lock_txids = txid ∷ [];
          lock_vout = vout;
          lock_at = now;
          state = locked;
        }))

  -- `await settle(r.a_preimage)` and what follows it, or the catch.
  unfoldable pub finish_lock : ℕ → LockReplies → Rec → Call Rec → Done
  unfolding cancel_both
  finish_lock now x r (es, none) = cancel_both now r es
  finish_lock now x r (es, some k) =
      let paid = es ++ settle k.a_preimage ∷ [] in
      if x.settled
      then record {
        rec = record k { a_settled_at = now; watched = true };
        effects = paid ++ (ledger "onchain_pay_lock" (k.lock_fee_sats * 1000) ∷ watch k.hash ∷ []);
      }
      else cancel_both now k paid

  -- sendLock
  unfoldable pub send : Settings → ℕ → LockReplies → Rec → Done
  unfolding place_lock finish_lock
  send cfg now x r =
      if same r.state opening then finish_lock now x r (place_lock cfg now x r) else unchanged r

  -- bumpLock: what `bumpfee` and `gettransaction` answer
  unfoldable pub bumped : ℕ → Rec → Bytes → ℕ → Rec
  bumped tip r txid vout = record r {
    lock_txids = r.lock_txids ++ txid ∷ [];
    lock_vout = vout;
    lock_bump_block = tip;
    watched = true;
  }

  unfoldable pub try_bump : ℕ → Option Bytes → Option Bytes → Rec → Call Rec
  unfolding vout_of bumped
  try_bump tip sent raw r = do
    tell (bump_fee (last_id r.lock_txids))
    txid ← ask sent
    raw ← ask raw
    vout ← ask (vout_of r.script r raw)
    tell (ledger "onchain_pay_bump" 0)
    tell (watch r.hash)
    ask (some (bumped tip r txid vout))

  -- A throw is logged, and the record stays.
  abbrev pub or_stay : Rec → Call Rec → Done
  or_stay r (es, none) = record { rec = r; effects = es }
  or_stay r (es, some k) = record { rec = k; effects = es }

  unfoldable pub bump : ℕ → Option Bytes → Option Bytes → Rec → Done
  unfolding try_bump
  bump tip sent raw r = or_stay r (try_bump tip sent raw r)

-- The watch of `watchLock` on this transaction has fired.
unfoldable pub on_confirmed : Bytes → ℕ → Rec → Rec
on_confirmed txid height r =
    if same_bytes (last_id r.lock_txids) txid && same r.state locked
    then record r { state = lock_confirmed; lock_confirmed_block = height }
    else r

-- LND's states of an invoice.
pub data Invoice : Type 0 where
  waiting accepted settled canceled unread : Invoice

abbrev pub is_canceled : Invoice → Bool
is_canceled canceled = true
is_canceled _ = false

abbrev pub is_accepted : Invoice → Bool
is_accepted accepted = true
is_accepted _ = false

-- The tick of watchInvoices, with the states of A and B as LND answers them.
unfoldable pub on_invoices :
    (Bytes → Bytes) → (ℕ → ℕ) → Settings → ℕ → LockReplies → Invoice → Invoice → Rec → Done
unfolding cancel_both
on_invoices sha num cfg now x a b r =
    if same r.state opening
    then if is_canceled a || is_canceled b || ltb (r.opened_at + open_window_ms) now
      then cancel_both now r []
      else if is_accepted a && is_accepted b
      then send sha num cfg now x r
      else unchanged r
    else unchanged r
