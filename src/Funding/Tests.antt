-- ===== src/Funding/Tests.antt =====
-- One held open in its states: each theorem of `Funding` at it.
use lijox_lnd_adapter.Prelude.{
  ℕ, String, ltb, ◌≡◌, ◌≤◌, ◌⊎◌, refl, inl, inr, true, false, Option, none, some, List, [], ◌∷◌,
  ◌++◌, arith,
}
use lijox_lnd_adapter.Funding.Record.{
  State, held, paid, published, abandoning, abandoned, Rec, publish_tx, tell_wallet, entomb,
  leave_live, is_blocked, mark_paid, accepted, release_inputs,
}
use lijox_lnd_adapter.Funding.Abandon.{
  Channel, channel_of, Replies, begin, finish_found, finish, abandon,
}
use lijox_lnd_adapter.Funding.Sweep.{listed_channel, stale_ms, age, Env, sweep_record}
use lijox_lnd_adapter.Funding.Emptiness.{abandon-empty}
use lijox_lnd_adapter.Funding.Claims.{sweep-claim_wins}
use lijox_lnd_adapter.Funding.Fee.{
  Settings, number, Dials, at_least, clamp_dials, fee_rate, fee_rate_bounds,
}
use lijox_lnd_adapter.Funding.Grace.{
  abandon-blocked_only_between, finish-forgets_claim, sweep-closes_unread,
}

abbrev key : String
key = "aa:0"

abbrev rec_in : State → Rec
rec_in s = record {
  cp = key;
  txid = some "aa";
  lock_id = "lock";
  client = "wallet";
  size_sats = 50000;
  tx = some "0200";
  inputs = "bb:1" ∷ "cc:0" ∷ [];
  state = s;
  at = 1000;
  updated = 1000;
  reason = "";
  verify_sent_at = 2000;
  paid_at = 0;
  published_at = 0;
  last_publish_at = 0;
  republished = 0;
  confirmations = 0;
  abandoned_at = 0;
  wallet_told = false;
  wait_noted_at = 0;
  publish_error = "";
  abandon_error = "";
}

abbrev channel : ℕ → Channel
channel sats = record { cp = key; remote = sats; htlcs = 0 }

abbrev replies : Option (List Channel) → Replies
replies cs = record {
  channels = cs;
  pending = some [];
  abandon = none;
  told = true;
  publish = accepted;
}

abbrev env : List Channel → Option (List String) → Env
env cs pending = record {
  now = 900000;
  channels = cs;
  pending = pending;
  peers = some [];
  confirmations = 0;
  publish = accepted;
  told = true;
  later = replies (some cs);
}

abbrev unlisted : Env
unlisted = env [] (some [])

abandon-empty_example :
    ((held ≡ held) ⊎ (held ≡ abandoning))
    × ((cs : List Channel) × (c : Channel) × (some (channel 0 ∷ []) ≡ some cs)
        × (channel_of key cs ≡ some c)
        × (c.remote ≡ 0)
        × (c.htlcs ≡ 0))
unfolding abandon channel_of finish_found
abandon-empty_example =
    abandon-empty 900000 (replies (some (channel 0 ∷ []))) "refused" (rec_in held) refl

sweep-claim_wins_example :
    ((sweep_record (env (channel 7 ∷ []) none) true (rec_in abandoning)).rec.state ≡ published)
    × ((sweep_record (env (channel 7 ∷ []) none) true (rec_in abandoning)).effects
        ≡ publish_tx "0200" ∷ leave_live ∷ [])
unfolding listed_channel
sweep-claim_wins_example =
    sweep-claim_wins (env (channel 7 ∷ []) none) true (rec_in abandoning) "0200"
      (inr (inr (inl refl))) refl refl refl

abbrev begun : Rec
begun = record (rec_in abandoning) { updated = 5000; reason = "refused" }

abandon-blocked_only_between_example :
    (is_blocked (some begun) ≡ true)
    × (is_blocked (some (sweep_record (env (channel 0 ∷ []) none) true begun).rec)
        ≡ ltb (age (env (channel 0 ∷ []) none) begun) stale_ms)
    × (is_blocked (some (finish 7000 (replies none) "refused" begun).rec) ≡ false)
unfolding begin listed_channel
abandon-blocked_only_between_example =
    abandon-blocked_only_between 5000 7000 (replies none) "refused" (rec_in held) begun begun
      (env (channel 0 ∷ []) none) true refl refl

finish-forgets_claim_example :
    ((mark_paid 6000 begun).0.state ≡ paid)
    × ((finish 7000 (replies none) "refused" (mark_paid 6000 begun).0).rec.state ≡ held)
unfolding begin
finish-forgets_claim_example =
    finish-forgets_claim 5000 6000 7000 (replies none) "refused" "0200" (rec_in held) begun refl
      refl refl

sweep-closes_unread_example :
    ((sweep_record (env [] none) false (rec_in abandoning)).rec.state ≡ abandoned)
    × ((sweep_record (env [] none) false (rec_in abandoning)).effects
        ≡ release_inputs (rec_in abandoning) ++ (tell_wallet ∷ entomb ∷ leave_live ∷ []))
unfolding listed_channel
sweep-closes_unread_example = sweep-closes_unread (env [] none) (rec_in abandoning) refl refl refl

-- The floor is above the cap here.
abbrev settings : Settings
settings = record {
  target_conf = number 0 true;
  min_sat_per_vb = number 5 false;
  max_sat_per_vb = number 3 true;
}

abbrev dials : Dials
dials = clamp_dials settings

-- A target between 0 and 1 is not missing: it becomes 1.
low_target : dials.target_conf ≡ 1
unfolding clamp_dials at_least
low_target = refl

fee_rate_bounds_example :
    (1 ≤ fee_rate dials (some 40))
    × ((dials.max_sat_per_vb ≡ 0) ⊎ (fee_rate dials (some 40) ≤ dials.max_sat_per_vb))
    × ((dials.min_sat_per_vb ≤ fee_rate dials (some 40))
        ⊎ (fee_rate dials (some 40) ≡ dials.max_sat_per_vb))
    × (fee_rate dials none ≤ dials.min_sat_per_vb)
fee_rate_bounds_example = fee_rate_bounds settings (some 40) (omega arith)
