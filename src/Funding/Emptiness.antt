-- ===== src/Funding/Emptiness.antt =====
-- The abandon of jit-funding.js and LND's word that the channel is empty.

use mathlib.Core.Bool.{false≢true}
use lijox_lnd_adapter.Prelude.{
  ℕ, ◌≡◌, ◌⊎◌, refl, sym, String, ltb, ◌||◌, true, false, Option, none, some, List, arith, inl, inr,
  Bool-cases, Option-cases, ◌∙◌,
}
use lijox_lnd_adapter.Funding.Record.{
  State, funding, funded, held, paid, published, confirmed, abandoning, abandoned, cancelled,
  orphan, same, Rec, set_state,
}
use lijox_lnd_adapter.Funding.Abandon.{
  Channel, channel_of, Replies, begin, finish_missing, finish_found, finish, or_text, abandon,
}
use lijox_lnd_adapter.Funding.Safety.{abandons, pay_and_publish-quiet}

found-empty :
    (now : ℕ) (x : Replies) (reason : String) (c : Channel) (r : Rec)
    → abandons (finish_found now x reason c r).effects ≡ true
    → (c.remote ≡ 0) × (c.htlcs ≡ 0)
found-empty now x reason c r h = elim (Bool-cases (ltb 0 c.remote)) [
  | inl claim ↦
      let quiet = pay_and_publish-quiet now x.publish (set_state held now r) in
      absurd (false≢true (sym (quiet.1) ∙ unfold finish_found in rw (claim) at h))
  | inr none_there ↦ elim (Bool-cases (ltb 0 c.htlcs)) [
    | inl busy ↦ absurd (false≢true (unfold finish_found in rw (none_there, busy) at h))
    | inr idle ↦ (not_ltb c.remote none_there, not_ltb c.htlcs idle)
  ]
]
  where
    not_ltb : (n : ℕ) → ltb 0 n ≡ false → n ≡ 0
    not_ltb n p = ground arith

missing-quiet :
    (now : ℕ) (p : Option (List String)) (r : Rec)
    → abandons (finish_missing now p r).effects ≡ false
unfolding finish_missing
missing-quiet now p r = ground arith

finish-empty :
    (now : ℕ) (x : Replies) (reason : String) (r : Rec)
    → abandons (finish now x reason r).effects ≡ true
    → (cs : List Channel) × (c : Channel) × (x.channels ≡ some cs)
      × (channel_of r.cp cs ≡ some c)
      × (c.remote ≡ 0)
      × (c.htlcs ≡ 0)
unfolding finish_found
finish-empty now x reason r h = elim (Option-cases x.channels) [
  | inl unread ↦ absurd (false≢true (unfold finish in rw (unread) at h))
  | inr (cs, read) ↦ elim (Option-cases (channel_of r.cp cs)) [
    | inl missing ↦
        let quiet = missing-quiet now x.pending r in
        absurd (false≢true (sym quiet ∙ unfold finish in rw (read, missing) at h))
    | inr (c, there) ↦
        let empty = found-empty now x reason c r (unfold finish in rw (read, there) at h) in
        (cs, c, read, there, empty.0, empty.1)
  ]
]

begin-allowed :
    (now : ℕ) (reason : String) (r : Rec)
    → (begin now reason r ≡ none)
      ⊎ (((r.state ≡ held) ⊎ (r.state ≡ abandoning))
          × ((b : Rec) × (begin now reason r ≡ some b) × (b.cp ≡ r.cp)))
begin-allowed now reason r = elim (Bool-cases (same r.state held || same r.state abandoning)) [
  | inl ok ↦
      let b = record (set_state abandoning now r) { reason = or_text reason r.reason } in
      inr (is_either r.state ok, (b, unfold begin in rw ok, unfold set_state in refl))
  | inr bad ↦ inl (unfold begin in rw bad)
]
  where
    is_either :
        (s : State) → (same s held || same s abandoning) ≡ true → (s ≡ held) ⊎ (s ≡ abandoning)
    is_either held p = inl refl
    is_either abandoning p = inr refl
    is_either funding p = absurd (false≢true p)
    is_either funded p = absurd (false≢true p)
    is_either paid p = absurd (false≢true p)
    is_either published p = absurd (false≢true p)
    is_either confirmed p = absurd (false≢true p)
    is_either abandoned p = absurd (false≢true p)
    is_either cancelled p = absurd (false≢true p)
    is_either orphan p = absurd (false≢true p)

-- `abandon` asks LND to abandon the channel only if the record is held or being abandoned, and LND,
-- read after the grace, shows the channel with nothing on the wallet's side and no HTLC.
pub abandon-empty :
    (now : ℕ) (x : Replies) (reason : String) (r : Rec)
    → abandons (abandon now x reason r).effects ≡ true
    → ((r.state ≡ held) ⊎ (r.state ≡ abandoning))
      × ((cs : List Channel) × (c : Channel) × (x.channels ≡ some cs)
          × (channel_of r.cp cs ≡ some c)
          × (c.remote ≡ 0)
          × (c.htlcs ≡ 0))
unfolding abandon
abandon-empty now x reason r h = elim (begin-allowed now reason r) [
  | inl bad ↦ absurd (false≢true (rw bad at h))
  | inr (ok, (b, begun, kept)) ↦ (ok, rw⁻¹ kept (finish-empty now x b.reason b (rw begun at h)))
]
