-- ===== src/Guard/Release.antt =====
-- What the operator's hand and the clock do to the counts of jit-guard.js.
use lijox_lnd_adapter.Prelude.{
  ℕ, zero, suc, ◌+◌, ◌-◌, ◌≤◌, String, ◌≡◌, refl, ap, ◌∙◌, ltb, leb, ◌&&◌, not, Bool, true, false,
  none, some, List, [], ◌∷◌, ◌++◌, length, drop, arith, length-append,
}
use text.Mathlib.Text.{◌==◌}
use text.Mathlib.TextPositions.{eq_refl}
use lijox_lnd_adapter.Guard.State.{
  Open, Halt, Release, State, Settings, filter, key_of, at_of, last_release, is_after, is_failed,
  wallet_failures, wallet_blocked, in_window, published_failures, counts, released_at, window_ms,
}
use lijox_lnd_adapter.Guard.Ops.{
  Guard, persist, keep_last, release_halt, release, is_key, release_wallet,
}
use lijox_lnd_adapter.Guard.OneWallet.{All, All-filter}

filter-none :
    {A : Type 0} (p : A → Bool) (xs : List A) → All (λ x. p x ≡ false) xs → filter p xs ≡ []
filter-none p [] h = refl
filter-none p (x ∷ xs) h = rw (h.0, filter-none p xs h.1)

All-map :
    {A : Type 0} (P Q : A → Type 0) (xs : List A) → ((x : A) → P x → Q x) → All P xs → All Q xs
All-map P Q [] f h = tt
All-map P Q (x ∷ xs) f h = (f x h.0, All-map P Q xs f h.1)

last_release-drop :
    (n : ℕ) (rs : List Release) (r : Release)
    → n ≤ length rs
    → last_release (drop n (rs ++ r ∷ [])) ≡ r.at
unfolding last_release
last_release-drop zero [] r h = refl
last_release-drop zero (x ∷ []) r h = refl
last_release-drop zero (x ∷ y ∷ rs) r h = last_release-drop zero (y ∷ rs) r (omega arith)
last_release-drop (suc n) [] r h = elim h [ ]
last_release-drop (suc n) (x ∷ rs) r h = last_release-drop n rs r (omega arith)

last_release-keep_last :
    (rs : List Release) (r : Release) → last_release (keep_last (rs ++ r ∷ [])) ≡ r.at
unfolding keep_last
last_release-keep_last rs r =
    last_release-drop (length (rs ++ r ∷ []) - 50) rs r
      (omega (arith, length-append {0} rs (r ∷ [])))

-- No outcome lies after this time.
abbrev pub AllBefore : ℕ → List Open → Type 0
AllBefore now os = All (λ o. at_of o ≤ now) os

none_after :
    (now later since : ℕ) (p q : Open → Bool) (os : List Open)
    → now ≤ since
    → AllBefore now os
    → filter (λ o. p o && (q o && is_after later since o)) os ≡ []
none_after now later since p q os le h = filter-none _ os (
    All-map (λ o. at_of o ≤ now) _ os
      (λ o b. too_early (p o) (q o) (ltb later (at_of o + window_ms)) (at_of o) b) h)
  where
    too_early : (a b c : Bool) (t : ℕ) → t ≤ now → (a && (b && (c && ltb since t))) ≡ false
    too_early a b c t le' = ground arith

too_old : (a b c : Bool) (now t : ℕ) → t ≤ now → (a && (b && (ltb now t && c))) ≡ false
too_old a b c now t h = ground arith

module _ (lower : String → String) (cfg : Settings) where
  not_blocked :
      (now : ℕ) (wallet : String) (st : State)
      → wallet_failures lower now (lower wallet) st ≡ []
      → wallet_blocked lower cfg now wallet st ≡ false
  unfolding wallet_blocked
  not_blocked now wallet st e = rw e (ground arith)

  -- Releasing a halt succeeds, lifts it, and starts the count afresh: at no later time does a
  -- failure from before the release count toward the next halt.
  pub release-afresh :
      (now : ℕ) (by : String) (g : Guard) (x : Halt) (later : ℕ)
      → g.st.halted ≡ some x
      → AllBefore now g.st.opens
      → ((release now by g).1 ≡ true)
        × ((release now by g).0.st.halted ≡ none)
        × ((counts lower cfg later (release now by g).0.st).failed_24h ≡ 0)
  unfolding release release_halt persist counts published_failures in_window
  release-afresh now by g x later e h =
      let kept : AllBefore now (filter (λ o. leb later (o.ts + window_ms)) g.st.opens) =
        All-filter (λ o. at_of o ≤ now) (λ o. at_of o ≤ now) _ g.st.opens (λ o b t. b) h in
      let r : Release = record { at = now; by = by; was = x } in
      (
        ap (λ o. (release_halt now by o g).1) e,
        ap (λ o. (release_halt now by o g).0.st.halted) e,
        ap (λ o. (counts lower cfg later (release_halt now by o g).0.st).failed_24h) e
            ∙ ap length (
                ap
                  (λ since.
                    filter (λ o. is_failed o && (not o.held && is_after later since o))
                      (filter (λ o. leb later (o.ts + window_ms)) g.st.opens))
                  (last_release-keep_last g.st.released r)
                ∙ none_after now later now is_failed (λ o. not o.held) _ (omega arith) kept),
      )

  -- Releasing a blocked wallet unblocks it: it stays so until a failure after the release.
  pub release_wallet-unblocks :
      (now : ℕ) (wallet : String) (g : Guard) (later : ℕ)
      → is_key (lower wallet) ≡ true
      → lower (lower wallet) ≡ lower wallet
      → wallet_blocked lower cfg now (lower wallet) g.st ≡ true
      → AllBefore now g.st.opens
      → ((release_wallet lower cfg now wallet g).1 ≡ true)
        × (wallet_blocked lower cfg later
              (lower wallet)
              (release_wallet lower cfg now wallet g).0.st
            ≡ false)
  unfolding release_wallet persist
  release_wallet-unblocks now wallet g later k ll b h =
      rw (k, b)
        (
          refl,
          not_blocked later (lower wallet) _ (
              rw ll (
                unfold wallet_failures released_at in
                rw eq_refl (
                  none_after now later now is_failed (λ o. key_of lower o == lower wallet)
                    g.st.opens (omega arith) h))),
        )

  -- The block of a wallet ends by itself: a day after the last of its failures it is not blocked.
  pub wallet_blocked-expires :
      (now : ℕ) (wallet : String) (st : State)
      → All (λ o. at_of o + window_ms ≤ now) st.opens
      → wallet_blocked lower cfg now wallet st ≡ false
  wallet_blocked-expires now wallet st h = not_blocked now wallet st (
      unfold wallet_failures in
      filter-none _ st.opens (
        All-map (λ o. at_of o + window_ms ≤ now) _ st.opens
          (λ o b.
            too_old (is_failed o) (key_of lower o == lower wallet)
              (ltb (released_at (lower wallet) st.wallet_released) (at_of o)) now
              (at_of o + window_ms) b)
          h))
