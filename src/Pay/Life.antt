-- ===== src/Pay/Life.antt =====
-- onchain-pay.js: the life of one payment after its quote, as a list of what happens to it. LND tells
-- of a confirmation or a spend only while the lock is watched.
use lijox_lnd_adapter.Prelude.{ℕ, if◌then◌else◌, Bool, List, [], ◌∷◌, ◌++◌}
use lijox_lnd_adapter.Wire.Format.{Bytes}
use lijox_lnd_adapter.Pay.Record.{Rec, Settings, Done, unchanged}
use lijox_lnd_adapter.Pay.Lock.{LockReplies, Invoice, on_confirmed, on_invoices}
use lijox_lnd_adapter.Pay.Spent.{Spend, on_spent}
use lijox_lnd_adapter.Pay.Quote.{open_quote, hand_over}
use lijox_lnd_adapter.Pay.Tick.{TickReplies, tick, holds_coins}

pub data Event : Type 0 where
  opened : ℕ → Event
  invoices : ℕ → LockReplies → Invoice → Invoice → Event
  confirmed : Bytes → ℕ → Event
  spent : ℕ → Spend → Bool → Event
  handed : Bytes → Bool → Event
  ticked : ℕ → TickReplies → Event
  rebooted : Event

-- What a new process does with a record of the directory: boot's watches.
unfoldable pub reboot : Rec → Rec
reboot r = record r { watched = holds_coins r.state }

-- The rail as a payment sees it: its settings, hashes and signatures.
pub record Rail : Type 0 where
  pub cfg : Settings
  pub sha : Bytes → Bytes
  pub sign : Bytes → Bytes
  pub num : ℕ → ℕ

module _ (rail : Rail) where
  open rail use {cfg, sha, sign, num}

  unfoldable pub apply : Event → Rec → Done
  apply (opened now) r = (open_quote now r).0
  apply (invoices now x a b) r = on_invoices sha num cfg now x a b r
  apply (confirmed id height) r =
      if r.watched then unchanged (on_confirmed id height r) else unchanged r
  apply (spent now ev settled) r =
      if r.watched then on_spent sha num now ev settled r else unchanged r
  apply (handed raw allowed) r = (hand_over sha num raw allowed r).0
  apply (ticked now x) r = tick sha sign num now x r
  apply rebooted r = unchanged (reboot r)

  unfoldable pub run : List Event → Rec → Done
  unfolding apply
  run [] r = unchanged r
  run (e ∷ es) r =
      let d = apply e r in
      let rest = run es d.rec in record { rec = rest.rec; effects = d.effects ++ rest.effects }
