-- ===== src/Pay/TakeBack.antt =====
-- onchain-pay.js: `takeBack`, the coins of a lock that the wallet never released. `sign` signs by the
-- take-back key. Whether the record's HMAC holds is an argument, and so is what Bitcoin Core
-- answers; the texts of `takeback_error` are left out.
use lijox_lnd_adapter.Prelude.{
  ℕ, ◌+◌, ◌*◌, ltb, ◌==◌, if◌then◌else◌, ◌&&◌, not, Bool, true, false, Option, none, some, List, [],
  ◌∷◌, ◌++◌, length,
}
use lijox_lnd_adapter.Wire.Format.{Bytes}
use lijox_lnd_adapter.Tx.Script.{handover_script, p2wsh}
use lijox_lnd_adapter.Tx.Serialize.{Tx, tx_bytes}
use lijox_lnd_adapter.Tx.Parse.{ParsedOut, Parsed, parse}
use lijox_lnd_adapter.Tx.TakeBack.{txid, Lock, build_take_back}
use lijox_lnd_adapter.Pay.Record.{
  taking_back, Rec, broadcast, Done, unchanged, Call, ◌>>=◌, ◌>>◌, ask, tell, last_id, same_bytes,
}
use lijox_lnd_adapter.Pay.Lock.{or_stay, bump}

-- What Bitcoin Core answers a take-back and the bump that may take its place; `none` is a throw.
pub record TakeBackReplies : Type 0 where
  pub raw : Option Bytes
  pub confirmations : ℕ
  pub dest : Option Bytes
  pub is_mine : Bool
  pub rate : Option ℕ
  pub allowed : Option Bool
  pub taken : Bool
  pub bumped : Option Bytes
  pub bumped_raw : Option Bytes

-- `parsed.outputs[vout]`
unfoldable pub output_at : ℕ → List ParsedOut → Option ParsedOut
output_at n [] = none
output_at ℕ.zero (o ∷ os) = some o
output_at (ℕ.suc n) (o ∷ os) = output_at n os

unfoldable pub pays : Bytes → ℕ → Option ParsedOut → Bool
pays spk sats none = false
pays spk sats (some o) = same_bytes o.script spk && o.value == sats

-- `Math.max(1, await liveLockRate().catch(() => 1)) + takeback_txids.length * 2`
unfoldable pub take_back_rate : Option ℕ → Rec → ℕ
take_back_rate none r = 1000 + length r.takeback_txids * 2000
take_back_rate (some rate) r =
    (if ltb rate 1000 then 1000 else rate) + length r.takeback_txids * 2000

-- The arguments of buildTakeBack, with the script rebuilt.
unfoldable pub lock_of : Rec → Bytes → Bytes → Lock
lock_of r script dest = record {
  txid = last_id r.lock_txids;
  vout = r.lock_vout;
  value = r.lock_sats;
  script = script;
  t = r.t;
  dest = dest;
}

abbrev pub test : Bool → Option (Unit {0})
test true = some tt
test false = none

module _ (sha sign : Bytes → Bytes) (num : ℕ → ℕ) where
  unfoldable pub taken_by : ℕ → Tx → Rec → Rec
  taken_by tip tx r = record r {
    takeback_txids = r.takeback_txids ++ txid sha tx ∷ [];
    takeback_block = tip;
    state = taking_back;
  }

  -- The lock is confirmed: an address of the float, the transaction, the mempool's word, the send.
  unfoldable pub sweep_lock : ℕ → TakeBackReplies → Bytes → Rec → Call Rec
  unfolding take_back_rate lock_of taken_by
  sweep_lock tip x script r = do
    dest ← ask x.dest
    ask (test x.is_mine)
    built ← ask (build_take_back sha sign (lock_of r script dest) (take_back_rate x.rate r))
    allowed ← ask x.allowed
    ask (test allowed)
    tell (broadcast (tx_bytes true built.tx))
    ask (test x.taken)
    ask (some (taken_by tip built.tx r))

  unfoldable pub take_confirmed : ℕ → TakeBackReplies → Bytes → Rec → Done
  take_confirmed tip x script r =
      if ltb x.confirmations 1
      then bump sha num tip x.bumped x.bumped_raw r
      else or_stay sha num r (sweep_lock tip x script r)

  -- The lock on the chain against the record.
  unfoldable pub take_matching : ℕ → TakeBackReplies → Bytes → Option Parsed → Rec → Done
  take_matching tip x script none r = unchanged r
  take_matching tip x script (some tx) r =
      if pays (p2wsh sha script) r.lock_sats (output_at r.lock_vout tx.outputs)
      then take_confirmed tip x script r
      else unchanged r

  unfoldable pub take_script : ℕ → TakeBackReplies → Option Bytes → Option Bytes → Rec → Done
  take_script tip x none raw r = unchanged r
  take_script tip x (some script) none r = unchanged r
  take_script tip x (some script) (some raw) r = take_matching tip x script (parse num true raw) r

  -- takeBack
  unfoldable pub take_back : Bool → ℕ → TakeBackReplies → Rec → Done
  take_back verified tip x r =
      if not verified
      then unchanged r
      else if ltb tip r.t
      then unchanged r
      else take_script tip x (handover_script r.hash r.w r.l r.t) x.raw r
