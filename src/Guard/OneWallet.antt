-- ===== src/Guard/OneWallet.antt =====
-- One wallet alone cannot make jit-guard.js halt.
use lijox_lnd_adapter.Prelude.{
  ℕ, ◌≤◌, String, ◌≡◌, ◌⊎◌, refl, ◌∙◌, ◌&&◌, is_some, Bool, true, false, Option, none, some, List,
  [], ◌∷◌, ◌++◌, length, arith, Bool-cases, inl, inr, lt→not_leb,
}
use text.Mathlib.Text.{◌==◌}
use text.Mathlib.TextPositions.{eq_refl}
use lijox_lnd_adapter.Guard.State.{
  Open, Halt, State, Settings, filter, key_of, wallet_blocked, has, distinct, map_key, in_window,
  published_failures, count_wallets, counts, prune,
}
use lijox_lnd_adapter.Guard.Ops.{
  Guard, persist, restart, is_pending, find, change, new_open, record_open, settle, mark_failed,
  halt_if_due, fail_open, fail, release_halt, release, is_key, release_wallet, Op, opened, paid,
  refused, let_go, let_wallet_go, restarted, apply, run,
}
use lijox_lnd_adapter.Guard.Halt.{Synced, apply-Synced}

abbrev pub All : {A : Type 0} → (A → Type 0) → List A → Type 0
All P [] = Unit
All P (x ∷ xs) = P x × All P xs

pub All-filter :
    {A : Type 0} (P Q : A → Type 0) (p : A → Bool) (xs : List A)
    → ((x : A) → P x → p x ≡ true → Q x)
    → All P xs
    → All Q (filter p xs)
All-filter P Q p [] f h = tt
All-filter P Q p (x ∷ xs) f h = elim (Bool-cases (p x)) [
  | inl keep ↦ rw keep (f x h.0 keep, All-filter P Q p xs f h.1)
  | inr out ↦ rw out (All-filter P Q p xs f h.1)
]

All-append :
    {A : Type 0} (P : A → Type 0) (xs : List A) (x : A) → All P xs → P x → All P (xs ++ x ∷ [])
All-append P [] x h k = (k, tt)
All-append P (y ∷ xs) x h k = (h.0, All-append P xs x h.1 k)

All-change :
    (P : Open → Type 0) (cp : String) (f : Open → Open) (os : List Open)
    → ((o : Open) → P o → P (f o))
    → All P os
    → All P (change cp f os)
unfolding change
All-change P cp f [] step h = tt
All-change P cp f (o ∷ os) step h = elim (Bool-cases (is_pending cp o)) [
  | inl hit ↦ rw hit (step o h.0, h.1)
  | inr miss ↦ rw miss (h.0, All-change P cp f os step h.1)
]

module _ (lower : String → String) (k : String) where
  -- An open whose failure does not count, or counts for this wallet.
  abbrev pub ForWallet : Open → Type 0
  ForWallet o = (o.held ≡ true) ⊎ (key_of lower o ≡ k)

  -- The opens that an operation records are held, or are this wallet's.
  abbrev pub AsksForWallet : Op → Type 0
  AsksForWallet (opened cp w sats rail held) = (held ≡ true) ⊎ (((w == "") ≡ false) × (lower w ≡ k))
  AsksForWallet _ = Unit

  abbrev pub AllForWallet : List (ℕ × Op) → Type 0
  AllForWallet [] = Unit
  AllForWallet ((now, op) ∷ ops) = AsksForWallet op × AllForWallet ops

  distinct_one :
      (o : Open) (os : List Open)
      → key_of lower o ≡ k
      → All (λ x. key_of lower x ≡ k) os
      → distinct (map_key lower (o ∷ os)) ≡ k ∷ []
  unfolding distinct has
  distinct_one o [] e h = rw e
  distinct_one o (p ∷ os) e h = rw (distinct_one p os h.0 h.1, e, eq_refl)

  distinct-le_one :
      (os : List Open) → All (λ o. key_of lower o ≡ k) os → length (distinct (map_key lower os)) ≤ 1
  distinct-le_one [] h = unfold distinct in omega arith
  distinct-le_one (o ∷ os) h = rw (distinct_one o os h.0 h.1) (omega arith)

  counted : (o : Open) → ForWallet o → o.held ≡ false → key_of lower o ≡ k
  counted o (inl h) e = cc
  counted o (inr h) e = h

  count_wallets-le_one :
      (now : ℕ) (st : State)
      → All ForWallet st.opens
      → count_wallets lower (published_failures now st) ≤ 1
  unfolding count_wallets published_failures in_window
  count_wallets-le_one now st h = distinct-le_one _ (
      All-filter ForWallet _ _ _ (λ o f e. counted o f (ground arith))
        (All-filter ForWallet ForWallet _ st.opens (λ o f e. f) h))

  module _ (cfg : Settings) (two : 2 ≤ cfg.halt_at) where
    not_due :
        (now : ℕ) (cp : String) (st : State)
        → All ForWallet st.opens
        → halt_if_due lower cfg now cp st ≡ st
    unfolding halt_if_due counts
    not_due now cp st h =
        rw
          (lt→not_leb cfg.halt_at (count_wallets lower (published_failures now st))
            (omega (arith, count_wallets-le_one now st h)))
          (ground arith)

    fail-OneWallet :
        (now : ℕ) (cp code : String) (g : Guard) (f : Option Open)
        → All ForWallet g.st.opens
        → g.st.halted ≡ none
        → All ForWallet (fail_open lower cfg now cp code f g).st.opens
          × ((fail_open lower cfg now cp code f g).st.halted ≡ none)
    unfolding fail_open persist
    fail-OneWallet now cp code g none h n = (h, n)
    fail-OneWallet now cp code g (some o) h n =
        let kept : All ForWallet (change cp (mark_failed now code) g.st.opens) =
          All-change ForWallet cp (mark_failed now code) g.st.opens
            (unfold mark_failed key_of in λ x p. p) h in
        elim (Bool-cases o.held) [
          | inl held ↦ rw held (kept, n)
          | inr published ↦
              rw
                (
                  published,
                  not_due now cp
                      (record g.st { opens = change cp (mark_failed now code) g.st.opens }) kept,
                )
                (kept, n)
        ]

    settle-OneWallet :
        (now : ℕ) (cp : String) (g : Guard)
        → All ForWallet g.st.opens
        → All ForWallet (settle now cp g).st.opens × ((settle now cp g).st.halted ≡ g.st.halted)
    unfolding settle persist
    settle-OneWallet now cp g h = elim (Bool-cases (is_some (find cp g.st.opens))) [
      | inl there ↦
          rw there (All-change ForWallet cp _ g.st.opens (unfold key_of in λ x p. p) h, refl)
      | inr missing ↦ rw missing (h, refl)
    ]

    for_new :
        (now : ℕ) (cp w : String) (sats : ℕ) (rail : String) (held : Bool)
        → AsksForWallet (opened cp w sats rail held)
        → ForWallet (new_open now cp w sats rail held)
    unfolding new_open key_of
    for_new now cp w sats rail held (inl x) = inl x
    for_new now cp w sats rail held (inr (given, e)) = inr (rw given e)

    record_open-OneWallet :
        (now : ℕ) (cp w : String) (sats : ℕ) (rail : String) (held : Bool) (g : Guard)
        → AsksForWallet (opened cp w sats rail held)
        → All ForWallet g.st.opens
        → All ForWallet (record_open cfg now cp w sats rail held g).st.opens
          × ((record_open cfg now cp w sats rail held g).st.halted ≡ g.st.halted)
    unfolding record_open persist prune
    record_open-OneWallet now cp w sats rail held g a h = elim (Bool-cases (cp == "")) [
      | inl missing ↦ rw missing (h, refl)
      | inr given ↦ rw given (
        All-filter ForWallet ForWallet _ _ (λ x p e. p)
            (All-append ForWallet g.st.opens _ h (for_new now cp w sats rail held a)),
        refl,
      )
    ]

    release-OneWallet :
        (now : ℕ) (by : String) (g : Guard) (x : Option Halt)
        → All ForWallet g.st.opens
        → g.st.halted ≡ none
        → All ForWallet (release_halt now by x g).0.st.opens
          × ((release_halt now by x g).0.st.halted ≡ none)
    unfolding release_halt persist
    release-OneWallet now by g none h n = (h, n)
    release-OneWallet now by g (some x) h n = (h, refl)

    wallet_release-OneWallet :
        (now : ℕ) (w : String) (g : Guard)
        → All ForWallet g.st.opens
        → g.st.halted ≡ none
        → All ForWallet (release_wallet lower cfg now w g).0.st.opens
          × ((release_wallet lower cfg now w g).0.st.halted ≡ none)
    unfolding release_wallet persist
    wallet_release-OneWallet now w g h n =
        elim (Bool-cases (is_key (lower w) && wallet_blocked lower cfg now (lower w) g.st)) [
          | inl open_it ↦ rw open_it (h, n)
          | inr refuse_it ↦ rw refuse_it (h, n)
        ]

    apply-OneWallet :
        (now : ℕ) (op : Op) (g : Guard)
        → Synced g
        → AsksForWallet op
        → All ForWallet g.st.opens
        → g.st.halted ≡ none
        → All ForWallet (apply lower cfg now op g).st.opens
          × ((apply lower cfg now op g).st.halted ≡ none)
    unfolding apply
    apply-OneWallet now (opened cp w sats rail held) g s a h n =
        let (x, y) = record_open-OneWallet now cp w sats rail held g a h in (x, y ∙ n)
    apply-OneWallet now (paid cp) g s a h n = let (x, y) = settle-OneWallet now cp g h in (x, y ∙ n)
    apply-OneWallet now (refused cp code) g s a h n =
        unfold fail in fail-OneWallet now cp code g (find cp g.st.opens) h n
    apply-OneWallet now (let_go by) g s a h n =
        unfold release in release-OneWallet now by g g.st.halted h n
    apply-OneWallet now (let_wallet_go w) g s a h n = wallet_release-OneWallet now w g h n
    apply-OneWallet now restarted g s a h n = unfold restart in rw s (h, n)

    -- With a threshold of two wallets or more, operations that record opens of one wallet only
    -- (and held ones of any wallet), whatever their outcomes, releases and restarts, never halt.
    pub run-OneWallet :
        (ops : List (ℕ × Op)) (g : Guard)
        → Synced g
        → AllForWallet ops
        → All ForWallet g.st.opens
        → g.st.halted ≡ none
        → (run lower cfg ops g).st.halted ≡ none
    unfolding run
    run-OneWallet [] g s a h n = n
    run-OneWallet ((now, op) ∷ ops) g s a h n =
        let (x, y) = apply-OneWallet now op g s a.0 h n in
        run-OneWallet ops (apply lower cfg now op g) (apply-Synced lower cfg now op g s) a.1 x y
