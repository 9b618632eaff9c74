-- ===== src/Pay/Guarded.antt =====
-- What onchain-pay.js asks before it sends a take-back, and what that transaction is.
use lijox_lnd_adapter.Prelude.{
  ℕ, ◌≤◌, ◌≡◌, refl, ltb, ap, sym, ◌∙◌, Bool, true, false, Option, none, some, List, [], ◌∷◌, ◌++◌,
  Bool-cases, Option-cases, inl, inr, arith, ltb→le,
}
use lijox_lnd_adapter.Wire.Format.{Bytes}
use lijox_lnd_adapter.Tx.Serialize.{tx_bytes}
use lijox_lnd_adapter.Tx.Script.{handover_script, p2wsh}
use lijox_lnd_adapter.Tx.Parse.{Parsed, parse}
use lijox_lnd_adapter.Tx.TakeBack.{Built, build_take_back}
use lijox_lnd_adapter.Pay.Record.{Rec, Effect, broadcast, Call}
use lijox_lnd_adapter.Pay.Lock.{or_stay, bump}
use lijox_lnd_adapter.Pay.TakeBack.{
  TakeBackReplies, output_at, pays, take_back_rate, lock_of, sweep_lock, take_confirmed,
  take_matching, take_script, take_back,
}

abbrev broadcast_of : Effect → List Bytes
broadcast_of (broadcast raw) = raw ∷ []
broadcast_of _ = []

-- The transactions that are sent to the network.
abbrev pub broadcasts : List Effect → List Bytes
broadcasts [] = []
broadcasts (e ∷ es) = broadcast_of e ++ broadcasts es

not_silent : (raw : Bytes) → ◌≡◌ {A = List Bytes} [] (raw ∷ []) → ⊥
not_silent raw h = cc

module _ (sha sign : Bytes → Bytes) (num : ℕ → ℕ) where
  bump-silent :
      (tip : ℕ) (sent raw : Option Bytes) (r : Rec)
      → broadcasts (bump sha num tip sent raw r).effects ≡ []
  unfolding bump
  bump-silent tip sent raw r = ground arith

  sweep_lock-guarded :
      (tip : ℕ) (x : TakeBackReplies) (script raw : Bytes) (r : Rec)
      → broadcasts (sweep_lock sha sign num tip x script r).0 ≡ raw ∷ []
      → (dest : Bytes) × (b : Built) × (x.dest ≡ some dest)
        × (x.is_mine ≡ true)
        × (x.allowed ≡ some true)
        × (build_take_back sha sign (lock_of r script dest) (take_back_rate x.rate r) ≡ some b)
        × (raw ≡ tx_bytes true b.tx)
  sweep_lock-guarded tip x script raw r h = elim (Option-cases x.dest) [
    | inl unread ↦ absurd (not_silent raw (unfold sweep_lock in rw unread at h))
    | inr (dest, d) ↦ elim (Bool-cases x.is_mine) [
      | inr foreign ↦ absurd (not_silent raw (unfold sweep_lock in rw (d, foreign) at h))
      | inl mine ↦
          elim (Option-cases
            (build_take_back sha sign (lock_of r script dest) (take_back_rate x.rate r))) [
              | inl dust ↦ absurd (not_silent raw (unfold sweep_lock in rw (d, mine, dust) at h))
              | inr (b, built) ↦ elim (Option-cases x.allowed) [
                | inl failed ↦
                    absurd (not_silent raw (unfold sweep_lock in rw (d, mine, built, failed) at h))
                | inr (false, refused) ↦
                    absurd (not_silent raw (unfold sweep_lock in rw (d, mine, built, refused) at h))
                | inr (true, taken) ↦ elim (Bool-cases x.taken) [
                  | inl sent ↦
                      let e : ◌≡◌ {A = List Bytes} (tx_bytes true b.tx ∷ []) (raw ∷ []) =
                        unfold sweep_lock in rw (d, mine, built, taken, sent) at h in
                      (dest, b, d, mine, taken, built, cc)
                  | inr lost ↦
                      let e : ◌≡◌ {A = List Bytes} (tx_bytes true b.tx ∷ []) (raw ∷ []) =
                        unfold sweep_lock in rw (d, mine, built, taken, lost) at h in
                      (dest, b, d, mine, taken, built, cc)
                ]
              ]
            ]
    ]
  ]

  -- The lock's transaction, as Bitcoin Core gives it.
  abbrev pub read_lock : Option Bytes → Option Parsed
  read_lock none = none
  read_lock (some raw) = parse num true raw

  -- What must hold for a take-back `raw` to be sent with these answers.
  abbrev pub Guarded : Bool → ℕ → TakeBackReplies → Rec → Bytes → Type 0
  Guarded verified tip x r raw =
      (verified ≡ true)
      × (r.t ≤ tip)
      × (1 ≤ x.confirmations)
      × ((script : Bytes) × (lock : Parsed) × (dest : Bytes) × (b : Built) × (handover_script r.hash
              r.w r.l r.t
            ≡ some script)
          × (read_lock x.raw ≡ some lock)
          × (pays (p2wsh sha script) r.lock_sats (output_at r.lock_vout lock.outputs) ≡ true)
          × (x.dest ≡ some dest)
          × (x.is_mine ≡ true)
          × (x.allowed ≡ some true)
          × (build_take_back sha sign (lock_of r script dest) (take_back_rate x.rate r) ≡ some b)
          × (raw ≡ tx_bytes true b.tx))

  or_stay-effects : (r : Rec) (c : Call Rec) → (or_stay sha num r c).effects ≡ c.0
  or_stay-effects r (es, none) = refl
  or_stay-effects r (es, some k) = refl

  confirmed-guarded :
      (tip : ℕ) (x : TakeBackReplies) (script raw : Bytes) (r : Rec)
      → broadcasts (take_confirmed sha sign num tip x script r).effects ≡ raw ∷ []
      → (1 ≤ x.confirmations) × (broadcasts (sweep_lock sha sign num tip x script r).0 ≡ raw ∷ [])
  confirmed-guarded tip x script raw r h = elim (Bool-cases (ltb x.confirmations 1)) [
    | inl slow ↦ absurd (
        not_silent raw
          (sym (bump-silent tip x.bumped x.bumped_raw r) ∙ unfold take_confirmed in rw slow at h))
    | inr deep ↦ (
      ltb→le x.confirmations 1 deep,
      ap broadcasts (sym (or_stay-effects r (sweep_lock sha sign num tip x script r)))
          ∙ unfold take_confirmed in rw deep at h,
    )
  ]

  matching-guarded :
      (tip : ℕ) (x : TakeBackReplies) (script raw : Bytes) (o : Option Parsed) (r : Rec)
      → broadcasts (take_matching sha sign num tip x script o r).effects ≡ raw ∷ []
      → (lock : Parsed) × (o ≡ some lock)
        × (pays (p2wsh sha script) r.lock_sats (output_at r.lock_vout lock.outputs) ≡ true)
        × (broadcasts (take_confirmed sha sign num tip x script r).effects ≡ raw ∷ [])
  unfolding take_matching
  matching-guarded tip x script raw none r h = absurd (not_silent raw h)
  matching-guarded tip x script raw (some lock) r h =
      elim (Bool-cases (pays (p2wsh sha script) r.lock_sats (output_at r.lock_vout lock.outputs))) [
        | inl ours ↦ (lock, refl, ours, rw ours at h)
        | inr theirs ↦ absurd (not_silent raw (rw theirs at h))
      ]

  script-guarded :
      (tip : ℕ) (x : TakeBackReplies) (o read : Option Bytes) (r : Rec) (raw : Bytes)
      → broadcasts (take_script sha sign num tip x o read r).effects ≡ raw ∷ []
      → (script : Bytes) × (lock : Parsed) × (o ≡ some script)
        × (read_lock read ≡ some lock)
        × (pays (p2wsh sha script) r.lock_sats (output_at r.lock_vout lock.outputs) ≡ true)
        × (broadcasts (take_confirmed sha sign num tip x script r).effects ≡ raw ∷ [])
  unfolding take_script
  script-guarded tip x none read r raw h = absurd (not_silent raw h)
  script-guarded tip x (some script) none r raw h = absurd (not_silent raw h)
  script-guarded tip x (some script) (some read) r raw h =
      let (lock, parsed, ours, sent) =
        matching-guarded tip x script raw (parse num true read) r h in
      (script, lock, refl, parsed, ours, sent)

  -- A take-back is sent only for a record whose HMAC holds, at its block or later, with the lock read
  -- from Bitcoin Core, confirmed, and paying the rebuilt script what the record says; to an address
  -- of the float, as `buildTakeBack` makes it, and after the mempool's word that it takes it.
  pub take_back-Guarded :
      (verified : Bool) (tip : ℕ) (x : TakeBackReplies) (r : Rec) (raw : Bytes)
      → broadcasts (take_back sha sign num verified tip x r).effects ≡ raw ∷ []
      → Guarded verified tip x r raw
  take_back-Guarded verified tip x r raw h = elim (Bool-cases verified) [
    | inr forged ↦ absurd (not_silent raw (unfold take_back in rw forged at h))
    | inl genuine ↦ elim (Bool-cases (ltb tip r.t)) [
      | inl early ↦ absurd (not_silent raw (unfold take_back in rw (genuine, early) at h))
      | inr due ↦
          let (script, lock, is_script, is_lock, ours, sent) =
            script-guarded tip x (handover_script r.hash r.w r.l r.t) x.raw r raw
              (unfold take_back in rw (genuine, due) at h) in
          let (deep, swept) = confirmed-guarded tip x script raw r sent in
          let (dest, b, d, mine, taken, built, same) =
            sweep_lock-guarded tip x script raw r swept in
          (
            genuine,
            ltb→le tip r.t due,
            deep,
            (script, lock, dest, b, is_script, is_lock, ours, d, mine, taken, built, same),
          )
    ]
  ]
