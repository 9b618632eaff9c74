-- ===== src/Funding/Safety.antt =====
-- The sweep of jit-funding.js and a record's coins.
use lijox_lnd_adapter.Prelude.{
  ℕ, ◌≡◌, refl, String, ◌||◌, Bool, true, false, some, List, [], ◌∷◌, ◌++◌, arith,
}
use lijox_lnd_adapter.Funding.Record.{
  Rec, Effect, publish_tx, abandon_channel, release_output, mark_paid, Answer, publish,
  pay_and_publish,
}
use lijox_lnd_adapter.Funding.Abandon.{lists}
use lijox_lnd_adapter.Funding.Sweep.{Env, Peer, reservation_dead}

abbrev is_release : Effect → Bool
is_release (release_output l i) = true
is_release _ = false

abbrev is_abandon : Effect → Bool
is_abandon (abandon_channel c) = true
is_abandon _ = false

abbrev is_publish : Effect → Bool
is_publish (publish_tx h) = true
is_publish _ = false

abbrev any : (Effect → Bool) → List Effect → Bool
any p [] = false
any p (x ∷ xs) = p x || any p xs

-- The effects give a coin back, ask LND to abandon the channel, or publish.
abbrev pub releases : List Effect → Bool
releases = any is_release

abbrev pub abandons : List Effect → Bool
abandons = any is_abandon

abbrev pub publishes : List Effect → Bool
publishes = any is_publish

any-append : (p : Effect → Bool) (xs ys : List Effect) → any p (xs ++ ys) ≡ (any p xs || any p ys)
any-append p [] ys = refl
any-append p (x ∷ xs) ys = ground (arith, any-append p xs ys)

pub publish-quiet :
    (now : ℕ) (a : Answer) (r : Rec)
    → (releases (publish now a r).effects ≡ false) × (abandons (publish now a r).effects ≡ false)
unfolding publish
publish-quiet now a r = ground arith

pub pay_and_publish-quiet :
    (now : ℕ) (a : Answer) (r : Rec)
    → (releases (pay_and_publish now a r).effects ≡ false)
      × (abandons (pay_and_publish now a r).effects ≡ false)
unfolding pay_and_publish
pay_and_publish-quiet now a r = publish-quiet now a (mark_paid now r).0

-- LND's proof, for the record's coins.
abbrev pub Proof : Env → Rec → Type 0
Proof e r =
    ((xs : List String) × (e.pending ≡ some xs) × (lists r.cp xs ≡ false))
    × ((ps : List Peer) × (e.peers ≡ some ps)
        × (reservation_dead ps r.client r.verify_sent_at ≡ true))
