-- ===== src/Sm/Handlers.antt =====
-- What single events of lij-sm.js guarantee, and the read-only views.
use lijox_lnd_adapter.Prelude.{
  ℕ, ◌+◌, ◌≤◌, ◌<◌, String, ◌≡◌, ◌⊎◌, refl, ap, ◌∙◌, Bool, true, false, not, Option, none, some,
  List, [], ◌∷◌, ◌++◌, arith, Bool-cases, Option-cases, inl, inr, if◌then◌else◌, ◌||◌,
}
use text.Mathlib.Text.{◌==◌}
use text.Mathlib.TextPositions.{eq_refl}
use lijox_lnd_adapter.Sm.State.{
  State, intercepted, aggregating, settling, settled, passthrough, is_terminal, same, is_legal,
}
use lijox_lnd_adapter.Sm.Intent.{
  Why, Hold, Intent, Line, new_intent, moved, transition, Update, ◌then_do◌, when, is_in,
  bind_promise, on_settle, on_hold_created, hold_update, join_hold, one_more, age_out,
}
use lijox_lnd_adapter.Sm.Machine.{
  Machine, settle, hold_created, find_intent, update_intent, update, get_intent, with_new,
  set_check, emit, age_out_all, census,
}
use lijox_lnd_adapter.Sm.Does.{DoesSo, age_out-Does, on_settle-Does, on_hold_created-Does}
use lijox_lnd_adapter.Sm.Frozen.{Does-Evolves}

same-eq : (s t : State) → same s t ≡ true → s ≡ t
same-eq s t h = ground arith

-- Each branch of `transition`: nothing at the state it is in; a violation line alone on a
-- terminal intent; and otherwise the move, with a violation line exactly where it is not legal.
transition_lem :
    (now : ℕ) (to : State) (why : Why) (it : Intent)
    → ((it.state ≡ to) × (transition now to why it ≡ (it, [])))
      ⊎ ((is_terminal it.state ≡ true)
          × (transition now to why it ≡ (it, Line.on_terminal it.hash it.state why ∷ [])))
      ⊎ ((is_terminal it.state ≡ false)
          × ((transition now to why it).0.state ≡ to)
          × (((is_legal it.state to ≡ true)
                × ((transition now to why it).1 ≡ Line.trans it.hash to why ∷ []))
              ⊎ ((is_legal it.state to ≡ false)
                  × ((transition now to why it).1
                      ≡ Line.illegal it.hash it.state to why ∷ Line.trans it.hash to why ∷ []))))
unfolding transition moved
transition_lem now to why it = elim (Bool-cases (same it.state to)) [
  | inl stays ↦ inl (same-eq it.state to stays, rw stays)
  | inr goes ↦ inr (elim (Bool-cases (is_terminal it.state)) [
    | inl ended ↦ inl (ended, rw (goes, ended))
    | inr runs ↦ inr (
      runs,
      rw (goes, runs),
      elim (Bool-cases (is_legal it.state to)) [
        | inl legal ↦ inl (legal, rw (goes, runs, legal))
        | inr flagged ↦ inr (flagged, rw (goes, runs, flagged))
      ],
    )
  ])
]

-- The update of one intent is what is found under its hash afterwards.
find-update_intent :
    (h : String) (f : Update) (xs : List Intent) (a : Intent)
    → ((it : Intent) → (f it).0.hash ≡ it.hash)
    → find_intent h xs ≡ some a
    → find_intent h (update_intent h f xs).0 ≡ some (f a).0
unfolding find_intent update_intent
find-update_intent h f [] a keep e = cc
find-update_intent h f (x ∷ xs) a keep e = elim (Bool-cases (x.hash == h)) [
  | inl hit ↦
      let it_is : x ≡ a = cc in
      rw hit (
        ap (λ c. if c then some (f x).0 else find_intent h xs) (ap (λ k. k == h) (keep x) ∙ hit)
        ∙ ap (λ y. some (f y).0) it_is)
  | inr miss ↦ rw miss (rw miss (find-update_intent h f xs a keep (rw miss at e)))
]

find_appended :
    (h : String) (xs : List Intent) (b : Intent)
    → find_intent h xs ≡ none
    → b.hash ≡ h
    → find_intent h (xs ++ b ∷ []) ≡ some b
unfolding find_intent
find_appended h [] b e k = rw (k, eq_refl)
find_appended h (x ∷ xs) b e k = elim (Bool-cases (x.hash == h)) [
  | inl hit ↦ let gone : some x ≡ none = rw hit at e in cc
  | inr miss ↦ rw miss (find_appended h xs b (rw miss at e) k)
]

-- The intent that getIntent answers with.
abbrev or_new : ℕ → String → Option Intent → Intent
or_new now h none = new_intent h now
or_new now h (some a) = a

abbrev pub intent_of : ℕ → String → Machine → Intent
intent_of now h m = or_new now h (find_intent h m.intents)

-- A handler that begins with getIntent leaves its update of that intent under the hash.
find-with_new :
    (now : ℕ) (h : String) (f : Update) (m : Machine)
    → DoesSo f
    → (h == "") ≡ false
    → find_intent h (with_new now h f m).intents ≡ some (f (intent_of now h m)).0
unfolding with_new get_intent update
find-with_new now h f m d given = elim (Option-cases (find_intent h m.intents)) [
  | inl none_yet ↦
      rw (given, none_yet)
        (find-update_intent h f (m.intents ++ new_intent h now ∷ []) (new_intent h now) keep
          (find_appended h m.intents (new_intent h now) none_yet (unfold new_intent in refl)))
  | inr (a, e) ↦ rw (given, e) (find-update_intent h f m.intents a keep e)
]
  where
    keep : (it : Intent) → (f it).0.hash ≡ it.hash
    keep it = (Does-Evolves (d.at it)).hash

transition-ends :
    (now : ℕ) (to : State) (why : Why) (it : Intent)
    → is_terminal to ≡ true
    → is_terminal (transition now to why it).0.state ≡ true
transition-ends now to why it t = elim (transition_lem now to why it) [
  | inl (at, e) ↦ rw (e, at) t
  | inr (inl (ended, e)) ↦ rw e ended
  | inr (inr (runs, e, k)) ↦ rw e t
]

module _ (now : ℕ) (a : Intent) where
  on_settle-ends : is_terminal (on_settle now a).0.state ≡ true
  unfolding on_settle ◌then_do◌
  on_settle-ends =
      transition-ends now settled _
        (when (λ it. not (is_in settling it)) (transition now settling Why.preimage_observed) a).0
        refl

  on_settle-settles : is_terminal a.state ≡ false → (on_settle now a).0.state ≡ settled
  unfolding on_settle when ◌then_do◌ transition moved
  on_settle-settles runs = ground arith

-- A `settle` event for a hash leaves that intent in a terminal state: SETTLED, if it was not
-- terminal before.
pub settle-ends :
    (now : ℕ) (h : String) (m : Machine)
    → (h == "") ≡ false
    → (b : Intent) × (find_intent h (emit now (settle h) m).intents ≡ some b)
      × (is_terminal b.state ≡ true)
      × ((is_terminal (intent_of now h m).state ≡ false) → b.state ≡ settled)
unfolding emit
settle-ends now h m given =
    let a = intent_of now h m in
    (
      (on_settle now a).0,
      find-with_new now h (on_settle now) m (on_settle-Does now) given,
      on_settle-ends now a,
      on_settle-settles now a,
    )

set_check-intents :
    (now : ℕ) (h : String) (held : Bool) (m : Machine)
    → find_intent h (set_check now h held m).intents ≡ find_intent h m.intents
unfolding set_check
set_check-intents now h held m = elim (Bool-cases (held || h == "")) [
  | inl quiet ↦ rw quiet
  | inr due ↦ rw due
]

sibling :
    (now cap : ℕ) (via : String) (a : Intent) (hd : Hold)
    → a.hold ≡ some hd
    → ((on_hold_created now cap via a).0.state ≡ a.state)
      × ((on_hold_created now cap via a).0.history ≡ a.history)
      × ((on_hold_created now cap via a).0.hold ≡ some (record hd { shards = one_more hd.shards }))
unfolding on_hold_created bind_promise
sibling now cap via a hd k = unfold hold_update join_hold in rw k (refl, refl, refl)

-- A second hold event for a hash that is held: the sibling shard joins. The state, the history and
-- the watchdog stay, one more shard is counted, and no second pairing check is set.
pub hold_created-sibling :
    (now : ℕ) (h : String) (cap : ℕ) (via : String) (m : Machine) (a : Intent) (hd : Hold)
    → (h == "") ≡ false
    → find_intent h m.intents ≡ some a
    → a.hold ≡ some hd
    → (b : Intent) × (find_intent h (emit now (hold_created h cap via) m).intents ≡ some b)
      × (b.state ≡ a.state)
      × (b.history ≡ a.history)
      × (b.hold ≡ some (record hd { shards = one_more hd.shards }))
      × ((emit now (hold_created h cap via) m).checks ≡ m.checks)
unfolding emit
hold_created-sibling now h cap via m a hd given e k =
    let kept : find_intent h (with_new now h (on_hold_created now cap via) m).intents
        ≡ some (on_hold_created now cap via (intent_of now h m)).0 =
      find-with_new now h (on_hold_created now cap via) m (on_hold_created-Does now cap via)
        given in
    let known : intent_of now h m ≡ a = ap (or_new now h) e in
    (
      (on_hold_created now cap via a).0,
      set_check-intents now h _ _ ∙ kept ∙ ap (λ x. some (on_hold_created now cap via x).0) known,
      (sibling now cap via a hd k).0,
      (sibling now cap via a hd k).1,
      (sibling now cap via a hd k).2,
      unfold set_check with_new get_intent update in rw (given, e, k),
    )

find-age_out_all :
    (now : ℕ) (h : String) (xs : List Intent) (a : Intent)
    → find_intent h xs ≡ some a
    → find_intent h (age_out_all now xs).0 ≡ some (age_out now a).0
unfolding find_intent age_out_all
find-age_out_all now h [] a e = cc
find-age_out_all now h (x ∷ xs) a e =
    let kept : ((age_out now x).0.hash == h) ≡ (x.hash == h) =
      ap (λ k. k == h) (Does-Evolves ((age_out-Does now).at x)).hash in
    elim (Bool-cases (x.hash == h)) [
      | inl hit ↦
          let it_is : x ≡ a = cc in
          ap (λ c. if c then some (age_out now x).0 else find_intent h (age_out_all now xs).0)
            (kept ∙ hit)
          ∙ ap (λ y. some (age_out now y).0) it_is
      | inr miss ↦
          ap (λ c. if c then some (age_out now x).0 else find_intent h (age_out_all now xs).0)
            (kept ∙ miss)
          ∙ find-age_out_all now h xs a (rw miss at e)
    ]

module _ (now : ℕ) (a : Intent) where
  age_out-spares :
      (a.promise_bound ≡ true)
        ⊎ (now ≤ a.entered_at + 90000)
        ⊎ ((is_in intercepted a || is_in aggregating a) ≡ false)
      → (age_out now a).0 ≡ a
  unfolding age_out when
  age_out-spares h = ground arith

  age_out-closes :
      (is_in intercepted a || is_in aggregating a) ≡ true
      → a.promise_bound ≡ false
      → a.entered_at + 90000 < now
      → (age_out now a).0.state ≡ passthrough
  unfolding age_out when transition moved
  age_out-closes waits free old = ground arith

-- The census leaves every intent alone that is promised, younger than 90 seconds, or in a state
-- other than INTERCEPTED and AGGREGATING; any other it closes as PASSTHROUGH.
pub census-find :
    (now : ℕ) (h : String) (m : Machine) (a : Intent)
    → find_intent h m.intents ≡ some a
    → (b : Intent) × (find_intent h (census now m).intents ≡ some b)
      × (((a.promise_bound ≡ true)
            ⊎ (now ≤ a.entered_at + 90000)
            ⊎ ((is_in intercepted a || is_in aggregating a) ≡ false))
          → b ≡ a)
      × ((is_in intercepted a || is_in aggregating a) ≡ true
          → a.promise_bound ≡ false
          → a.entered_at + 90000 < now
          → b.state ≡ passthrough)
unfolding census
census-find now h m a e = (
  (age_out now a).0,
  find-age_out_all now h m.intents a e,
  age_out-spares now a,
  age_out-closes now a,
)
