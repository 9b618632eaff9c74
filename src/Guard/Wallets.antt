-- ===== src/Guard/Wallets.antt =====
-- How jit-guard.js counts wallets: held failures and one wallet's repeats never halt.
use lijox_lnd_adapter.Prelude.{
  ℕ, ◌+◌, String, ◌≡◌, refl, sym, ap, ◌∙◌, leb, if◌then◌else◌, ◌&&◌, not, Bool, true, false, some,
  List, [], ◌∷◌, arith, Bool-cases, inl, inr,
}
use lijox_lnd_adapter.Guard.State.{
  unknown, Open, State, Settings, filter, last_release, is_after, is_failed, in_window,
  published_failures, counts, window_ms,
}
use lijox_lnd_adapter.Guard.Ops.{Guard, persist, is_pending, find, change, mark_failed, fail}

-- A filter that refuses the changed open, before and after, does not see the change.
filter-change :
    (p : Open → Bool) (cp : String) (f : Open → Open) (os : List Open) (o : Open)
    → find cp os ≡ some o
    → p o ≡ false
    → p (f o) ≡ false
    → filter p (change cp f os) ≡ filter p os
unfolding find change
filter-change p cp f [] o e h k = cc
filter-change p cp f (x ∷ os) o e h k = elim (Bool-cases (is_pending cp x)) [
  | inl hit ↦ let it_is : x ≡ o = cc in rw (hit, it_is, h, k)
  | inr miss ↦
      rw miss
        (ap (λ rest. if p x then x ∷ rest else rest) (filter-change p cp f os o (rw miss at e) h k))
]

find-pending :
    (cp : String) (os : List Open) (o : Open) → find cp os ≡ some o → is_pending cp o ≡ true
unfolding find
find-pending cp [] o e = cc
find-pending cp (x ∷ os) o e = elim (Bool-cases (is_pending cp x)) [
  | inl hit ↦ let it_is : x ≡ o = cc in rw it_is at hit
  | inr miss ↦ find-pending cp os o (rw miss at e)
]

-- One filter after another.
filter-filter :
    {A : Type 0} (p q : A → Bool) (xs : List A)
    → filter p (filter q xs) ≡ filter (λ x. q x && p x) xs
filter-filter p q [] = refl
filter-filter p q (x ∷ xs) = elim (Bool-cases (q x)) [
  | inl keep ↦ rw keep (ap (λ rest. if p x then x ∷ rest else rest) (filter-filter p q xs))
  | inr out ↦ rw out (filter-filter p q xs)
]

abbrev after_failure : ℕ → String → String → State → State
after_failure now cp code st = record st { opens = change cp (mark_failed now code) st.opens }

fail-held_state :
    (lower : String → String) (cfg : Settings) (now : ℕ) (cp code : String) (g : Guard) (o : Open)
    → find cp g.st.opens ≡ some o
    → o.held ≡ true
    → (fail lower cfg now cp code g).st ≡ after_failure now cp code g.st
unfolding fail persist
fail-held_state lower cfg now cp code g o e h = rw (e, h)

pending-unknown : (cp : String) (o : Open) → is_pending cp o ≡ true → o.outcome ≡ unknown
unfolding is_pending
pending-unknown cp o h = ground arith

published-change :
    (now : ℕ) (cp code : String) (st : State) (o : Open) (later : ℕ)
    → find cp st.opens ≡ some o
    → o.held ≡ true
    → published_failures later (after_failure now cp code st) ≡ published_failures later st
unfolding published_failures in_window mark_failed
published-change now cp code st o later e h =
    let p =
      λ (x : Open). is_failed x && (not x.held && is_after later (last_release st.released) x) in
    let w = λ (x : Open). leb later (x.ts + window_ms) in
    let pending : o.outcome ≡ unknown = pending-unknown cp o (find-pending cp st.opens o e) in
    filter-filter p w (change cp (mark_failed now code) st.opens)
    ∙ filter-change (λ x. w x && p x) cp (mark_failed now code) st.opens o e (ground arith)
        (ground arith)
    ∙ sym (filter-filter p w st.opens)

module _ (lower : String → String) (cfg : Settings) where
  -- A failure of an open whose funding was held does not halt, and at no later time does it change
  -- the number of published failures, of their wallets, the level or the armed flag.
  pub fail-held :
      (now : ℕ) (cp code : String) (g : Guard) (o : Open) (later : ℕ)
      → find cp g.st.opens ≡ some o
      → o.held ≡ true
      → let after = (fail lower cfg now cp code g).st in
        (after.halted ≡ g.st.halted)
        × ((counts lower cfg later after).failed_24h ≡ (counts lower cfg later g.st).failed_24h)
        × ((counts lower cfg later after).failed_wallets_24h
            ≡ (counts lower cfg later g.st).failed_wallets_24h)
        × ((counts lower cfg later after).level ≡ (counts lower cfg later g.st).level)
        × ((counts lower cfg later after).armed ≡ (counts lower cfg later g.st).armed)
  fail-held now cp code g o later e h =
      let st = fail-held_state lower cfg now cp code g o e h in
      let same = published-change now cp code g.st o later e h in
      (
        rw st,
        unfold counts in rw (st, same),
        unfold counts in rw (st, same),
        unfold counts in rw (st, same),
        unfold counts in rw (st, same),
      )
