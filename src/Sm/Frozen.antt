-- ===== src/Sm/Frozen.antt =====
-- What one intent can become over any run: a terminal state is final, a promise stays, and the
-- states that no handler asks for are never entered.
use lijox_lnd_adapter.Prelude.{
  ℕ, String, ◌≡◌, ◌⊎◌, refl, ap, ◌∙◌, true, some, List, [], ◌∷◌, arith, Bool-cases, inl, inr,
}
use text.Mathlib.Text.{◌==◌}
use lijox_lnd_adapter.Sm.State.{State, is_terminal, same}
use lijox_lnd_adapter.Sm.Intent.{Why, Intent, Line, moved, transition}
use lijox_lnd_adapter.Sm.Machine.{Machine, find_intent, Step, step, run}
use lijox_lnd_adapter.Sm.Does.{Does, edit, move, both, enterable}
use lijox_lnd_adapter.Sm.Grows.{Grows, over, fresh, each}
use lijox_lnd_adapter.Sm.Steps.{step-Stepped}

-- `b` is what `a` may have become.
pub record Evolves (a b : Intent) : Type 0 where
  pub hash : b.hash ≡ a.hash
  pub frozen : is_terminal a.state ≡ true → (b.state ≡ a.state) × (b.history ≡ a.history)
  pub entered : (b.state ≡ a.state) ⊎ (enterable b.state ≡ true)
  pub bound : a.promise_bound ≡ true → b.promise_bound ≡ true

Evolves-refl : (a : Intent) → Evolves a a
Evolves-refl a = ground arith

Evolves-trans : {a b c : Intent} → Evolves a b → Evolves b c → Evolves a c
Evolves-trans {a} {b} {c} e f = record {
  hash = f.hash ∙ e.hash;
  frozen = λ h.
      let (s, k) = e.frozen h in let (t, l) = f.frozen (ap is_terminal s ∙ h) in (t ∙ s, l ∙ k);
  entered = elim f.entered [
    | inr y ↦ inr y
    | inl x ↦ elim e.entered [ inl y ↦ inl (x ∙ y) | inr y ↦ inr (ap enterable x ∙ y) ]
  ];
  bound = λ h. f.bound (e.bound h);
}

transition-Evolves :
    (now : ℕ) (to : State) (why : Why) (a : Intent)
    → enterable to ≡ true
    → Evolves a (transition now to why a).0
unfolding transition moved
transition-Evolves now to why a h = elim (Bool-cases (same a.state to)) [
  | inl stays ↦ rw stays (Evolves-refl a)
  | inr goes ↦ elim (Bool-cases (is_terminal a.state)) [
    | inl ended ↦ rw (goes, ended) (Evolves-refl a)
    | inr runs ↦
        rw (goes, runs) (record { hash = refl; frozen = λ t. cc; entered = inr h; bound = λ b. b })
  ]
]

pub Does-Evolves : {a b : Intent} {l : List Line} → Does a l b → Evolves a b
Does-Evolves (edit lines e) = record {
  hash = e.hash;
  frozen = λ h. (e.state, e.history);
  entered = inl e.state;
  bound = e.bound;
}
Does-Evolves (move now to why a h) = transition-Evolves now to why a h
Does-Evolves (both d e) = Evolves-trans (Does-Evolves d) (Does-Evolves e)

-- An intent is found again under its hash.
Grows-find :
    (h : String) (a : Intent) {lines : List Line} {xs ys : List Intent}
    → Grows lines xs ys
    → find_intent h xs ≡ some a
    → (b : Intent) × (find_intent h ys ≡ some b) × Evolves a b
unfolding find_intent
Grows-find h a over e = cc
Grows-find h a (fresh now k d w) e = cc
Grows-find h a (each {a = x} {b = y} {xs = xs} d w g) e = elim (Bool-cases (x.hash == h)) [
  | inl hit ↦
      let v : Evolves x y = Does-Evolves d in
      let same_intent : x ≡ a = cc in (y, rw (v.hash, hit), rw same_intent at v)
  | inr miss ↦
      let v : Evolves x y = Does-Evolves d in
      let (b, f, u) = Grows-find h a g (rw miss at e) in (b, rw (v.hash, miss) f, u)
]

-- Over any run, an intent stays in the table under its hash. Once its state is terminal, the
-- state and the history never change again; a promise is never taken back; and the state is the
-- old one or one that some handler asks for, so never GATED, ABANDONED or INTERCEPTED anew.
pub run-Evolves :
    (steps : List (ℕ × Step)) (m : Machine) (h : String) (a : Intent)
    → find_intent h m.intents ≡ some a
    → (b : Intent) × (find_intent h (run steps m).intents ≡ some b) × Evolves a b
unfolding run
run-Evolves [] m h a e = (a, e, Evolves-refl a)
run-Evolves ((now, s) ∷ r) m h a e =
    let (b, f, u) = Grows-find h a (step-Stepped now s m).grows e in
    let (c, g, v) = run-Evolves r (step now s m) h b f in (c, g, Evolves-trans u v)
