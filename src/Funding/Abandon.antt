-- ===== src/Funding/Abandon.antt =====
-- jit-funding.js: `abandon` and `finishAbandon`. `abandon` waits between its two halves, and other
-- operations may change the record there: `begin` writes 'abandoning', `finish` goes on after the
-- grace with the record as it is then.
use lijox_lnd_adapter.Prelude.{
  ℕ, String, ltb, if◌then◌else◌, ◌||◌, Bool, false, Option, none, some, List, [], ◌∷◌, ◌++◌,
}
use text.Mathlib.Text.{◌==◌}
use lijox_lnd_adapter.Funding.Record.{
  held, abandoning, abandoned, orphan, same, Rec, abandon_channel, tell_wallet, entomb, leave_live,
  Done, unchanged, ◌and_then◌, set_state, Answer, pay_and_publish, release_inputs,
}

-- A channel of LND's list: what the wallet holds in it, and the HTLCs under way.
pub record Channel : Type 0 where
  pub cp : String
  pub remote : ℕ
  pub htlcs : ℕ

-- `(await lnd.listChannels()).find(...)`: the first of this channel point
unfoldable pub channel_of : String → List Channel → Option Channel
channel_of cp [] = none
channel_of cp (c ∷ cs) = if c.cp == cp then some c else channel_of cp cs

-- `pend.has(cp)`, where `pendingPoints` made the channel points of LND's pending entries
unfoldable pub lists : String → List String → Bool
lists cp [] = false
lists cp (x ∷ xs) = x == cp || lists cp xs

-- What LND and the wallet answer an abandon; `none` is a call that throws.
pub record Replies : Type 0 where
  pub channels : Option (List Channel)
  pub pending : Option (List String)
  pub abandon : Option String
  pub told : Bool
  pub publish : Answer

-- `reason || rec.reason`
abbrev pub or_text : String → String → String
or_text s t = if s == "" then t else s

-- finishAbandon; its setState writes the tombstone where the record has a txid, as all here do
unfoldable pub finish_abandon : ℕ → Bool → String → Rec → Done
unfolding set_state
finish_abandon now told reason r = record {
  rec = record (set_state abandoned now r) {
    reason = or_text reason r.reason;
    abandoned_at = now;
    wallet_told = told;
  };
  effects = release_inputs r ++ (tell_wallet ∷ entomb ∷ leave_live ∷ []);
}

-- The tests before the grace; `none` is a refusal, which changes nothing.
unfoldable pub begin : ℕ → String → Rec → Option Rec
unfolding set_state
begin now reason r =
    if same r.state held || same r.state abandoning
    then some (record (set_state abandoning now r) { reason = or_text reason r.reason })
    else none

abbrev pub is_listed : String → Option (List String) → Bool
is_listed cp none = false
is_listed cp (some xs) = lists cp xs

-- The channel is not among LND's open ones.
unfoldable pub finish_missing : ℕ → Option (List String) → Rec → Done
unfolding set_state
finish_missing now pending r =
    if is_listed r.cp pending
    then unchanged
        (record (set_state held now r) { abandon_error = "the channel is still pending in LND" })
    else unchanged (record (set_state orphan now r) {
      reason = "the channel left LND without this adapter abandoning it";
    })

unfoldable pub finish_called : ℕ → Replies → String → Rec → Done
unfolding finish_abandon set_state
finish_called now x reason r = elim x.abandon [
  | none ↦
      record { rec = r; effects = abandon_channel r.cp ∷ [] }
      and_then finish_abandon now x.told reason
  | some e ↦ record {
    rec = record (set_state held now r) { abandon_error = e };
    effects = abandon_channel r.cp ∷ [];
  }
]

unfoldable pub finish_found : ℕ → Replies → String → Channel → Rec → Done
unfolding finish_called set_state
finish_found now x reason c r =
    if ltb 0 c.remote
    then pay_and_publish now x.publish (set_state held now r)
    else if ltb 0 c.htlcs
    then unchanged (set_state held now r)
    else finish_called now x reason r

abbrev pub finish_with : ℕ → Replies → String → Option Channel → Rec → Done
finish_with now x reason none r = finish_missing now x.pending r
finish_with now x reason (some c) r = finish_found now x reason c r

-- After the grace.
unfoldable pub finish : ℕ → Replies → String → Rec → Done
unfolding set_state
finish now x reason r = elim x.channels [
  | none ↦ unchanged (record (set_state held now r) { abandon_error = "LND not read" })
  | some cs ↦ finish_with now x reason (channel_of r.cp cs) r
]

abbrev pub finish_begun : ℕ → Replies → Rec → Option Rec → Done
finish_begun now x old none = unchanged old
finish_begun now x old (some r) = finish now x r.reason r

-- abandon, with nothing else happening during the grace
unfoldable pub abandon : ℕ → Replies → String → Rec → Done
unfolding begin finish
abandon now x reason r = finish_begun now x r (begin now reason r)
