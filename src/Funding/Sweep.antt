-- ===== src/Funding/Sweep.antt =====
-- jit-funding.js: `reservationDead` and what `sweep` does with one record, given LND's answers.
-- The sweep goes over the records one after the other; nothing else happens between its own steps
-- on a record here. A peer's key is taken in lower case.
use lijox_lnd_adapter.Prelude.{
  ℕ, ◌-◌, ◌/◌, String, ltb, leb, ◌==◌ as eq, if◌then◌else◌, ◌&&◌, ◌||◌, not, is_some, Bool, true,
  false, Option, none, some, List, [], ◌∷◌,
}
use text.Mathlib.Text.{◌==◌}
use lijox_lnd_adapter.Funding.Record.{
  State, funding, funded, held, paid, published, confirmed, abandoning, abandoned, cancelled,
  orphan, same, is_live_state, Rec, cancel_shim, unearth, Done, unchanged, set_state, Answer,
  publish, pay_and_publish, release_inputs, or_else,
}
use lijox_lnd_adapter.Funding.Abandon.{
  Channel, Replies, is_listed, or_text, finish_abandon, abandon,
}

abbrev pub stale_ms : ℕ
stale_ms = 600000

pub record Peer : Type 0 where
  pub pub_key : String
  pub last_flap_ns : ℕ

unfoldable pub peer_of : String → List Peer → Option Peer
peer_of k [] = none
peer_of k (p ∷ ps) = if p.pub_key == k then some p else peer_of k ps

abbrev pub flapped_after : ℕ → Option Peer → Bool
flapped_after sent none = true
flapped_after sent (some p) = ltb 0 p.last_flap_ns && ltb sent (p.last_flap_ns / 1000000)

-- reservationDead, as a test: the peer is gone, or it came back after the verify.
unfoldable pub reservation_dead : List Peer → String → ℕ → Bool
reservation_dead peers client sent = flapped_after sent (peer_of client peers)

-- What LND answers the sweep; `none` is a call that throws. `later` answers the sweep's abandons.
pub record Env : Type 0 where
  pub now : ℕ
  pub channels : List Channel
  pub pending : Option (List String)
  pub peers : Option (List Peer)
  pub confirmations : ℕ
  pub publish : Answer
  pub told : Bool
  pub later : Replies

-- `now() - (rec.updated || rec.at)`
abbrev pub age : Env → Rec → ℕ
age e r = e.now - or_else r.updated r.at

unfoldable pub cancel : Env → String → Rec → Rec
unfolding set_state
cancel e why r = record (set_state cancelled e.now r) { reason = why }

unfoldable pub release_and_cancel : Env → String → Rec → Done
unfolding cancel
release_and_cancel e why r = record { rec = cancel e why r; effects = release_inputs r }

unfoldable pub sweep_published : Env → Rec → Done
unfolding set_state
sweep_published e r =
    if leb 1 e.confirmations
    then unchanged (record (set_state confirmed e.now r) { confirmations = e.confirmations })
    else if leb stale_ms (e.now - or_else r.last_publish_at r.published_at)
    then publish e.now e.publish r
    else unchanged r

unfoldable pub sweep_funding : Env → Rec → Done
unfolding release_and_cancel
sweep_funding e r =
    if leb stale_ms (age e r)
    then release_and_cancel e "the lease was taken and nothing followed" r
    else unchanged r

-- 'funded', and LND was never told the txid.
unfoldable pub sweep_untold : Env → Rec → Done
unfolding cancel
sweep_untold e r =
    if leb stale_ms (age e r)
    then record {
      rec = cancel e "no channel in LND 10 min after signing; LND was never told the txid" r;
      effects = cancel_shim ∷ release_inputs r;
    }
    else unchanged r

unfoldable pub sweep_told_with : Env → List Peer → Rec → Done
unfolding release_and_cancel
sweep_told_with e peers r =
    if reservation_dead peers r.client r.verify_sent_at
    then release_and_cancel e "no channel in LND; LND cancelled its reservations" r
    else if leb stale_ms (e.now - r.wait_noted_at)
    then unchanged (record r { wait_noted_at = e.now })
    else unchanged r

-- 'funded', and LND was told: `if (pend.unreadable) continue`, and the peers must be read.
unfoldable pub sweep_told : Env → Option (List String) → Option (List Peer) → Rec → Done
unfolding sweep_told_with
sweep_told e none peers r = unchanged r
sweep_told e (some xs) none r = unchanged r
sweep_told e (some xs) (some peers) r = sweep_told_with e peers r

unfoldable pub sweep_funded : Env → Bool → Rec → Done
unfolding sweep_untold sweep_told set_state
sweep_funded e listed r =
    if listed
    then unchanged (set_state held e.now r)
    else if is_listed r.cp e.pending
    then unchanged r
    else if eq r.verify_sent_at 0
    then sweep_untold e r
    else sweep_told e e.pending e.peers r

-- 'held', and the channel is listed: `idle` is the record's age at the start of the round.
unfoldable pub sweep_held_listed : Env → ℕ → Channel → Rec → Done
unfolding abandon
sweep_held_listed e idle c r =
    if ltb 0 c.htlcs
    then unchanged r
    else if leb stale_ms idle
    then abandon e.now e.later "sweep: empty and idle 10 min" r
    else unchanged r

unfoldable pub sweep_held : Env → Option Channel → Rec → Done
unfolding set_state sweep_held_listed
sweep_held e none r =
    if is_listed r.cp e.pending || not (is_some e.pending)
    then unchanged r
    else unchanged (record (set_state orphan e.now r) {
      reason = "the channel left LND without this adapter abandoning it";
    })
sweep_held e (some c) r = sweep_held_listed e (age e r) c r

-- 'abandoning', after a crash: listed, it is 'held' again and goes on as such in this round.
unfoldable pub sweep_abandoning : Env → Option Channel → Rec → Done
unfolding set_state sweep_held_listed finish_abandon
sweep_abandoning e none r =
    if is_listed r.cp e.pending
    then unchanged (set_state held e.now r)
    else finish_abandon e.now e.told (or_text r.reason "finished after a restart") r
sweep_abandoning e (some c) r = sweep_held_listed e (age e r) c (set_state held e.now r)

unfoldable pub sweep_orphan : Env → Bool → Rec → Done
unfolding set_state
sweep_orphan e listed r =
    if listed then unchanged (record (set_state held e.now r) { reason = "" }) else unchanged r

-- `byCp.get(cp)`: a Map built from the list, so the last of this channel point
unfoldable pub listed_channel : String → List Channel → Option Channel
listed_channel cp [] = none
listed_channel cp (c ∷ cs) =
    let later = listed_channel cp cs in
    if is_some later then later else if c.cp == cp then some c else none

-- What is left after the publishes and the live skip.
unfoldable pub sweep_rest : Env → Option Channel → State → Rec → Done
unfolding sweep_funded sweep_held sweep_abandoning sweep_orphan
sweep_rest e c funded r = sweep_funded e (is_some c) r
sweep_rest e c held r = sweep_held e c r
sweep_rest e c abandoning r = sweep_abandoning e c r
sweep_rest e c orphan r = sweep_orphan e (is_some c) r
sweep_rest e c _ r = unchanged r

abbrev pub has_claim : Option Channel → Bool
has_claim none = false
has_claim (some c) = ltb 0 c.remote

-- One record's turn; `live` says whether a flow owns it.
unfoldable pub sweep_turn : Env → Bool → Option Channel → State → Rec → Done
unfolding sweep_published sweep_funding sweep_rest
sweep_turn e live c paid r = publish e.now e.publish r
sweep_turn e live c published r = sweep_published e r
sweep_turn e live c funding r = sweep_funding e r
sweep_turn e live c confirmed r = unchanged r
sweep_turn e live c abandoned r = unchanged r
sweep_turn e live c cancelled r = unchanged r
sweep_turn e live c s r =
    if has_claim c
    then pay_and_publish e.now e.publish r
    else if live && ltb (age e r) stale_ms
    then unchanged r
    else sweep_rest e c s r

unfoldable pub sweep_record : Env → Bool → Rec → Done
unfolding sweep_turn
sweep_record e live r = sweep_turn e live (listed_channel r.cp e.channels) r.state r

-- The revive backstop: LND lists a channel whose record was closed.
unfoldable pub revive : Env → Rec → Done
unfolding set_state
revive e r =
    if is_some r.txid
      && (is_some (listed_channel r.cp e.channels)
          && (same r.state cancelled || same r.state abandoned))
    then record {
      rec = record (set_state held e.now r) { reason = "revived: LND lists the channel" };
      effects = unearth ∷ [];
    }
    else unchanged r

-- The last loop: a lease is a stray when its record, if it is one of ours, is not live any more.
unfoldable pub is_stray : Option Rec → Bool
is_stray none = false
is_stray (some r) = not (is_live_state r.state)
