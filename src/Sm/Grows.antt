-- ===== src/Sm/Grows.antt =====
-- One step of the machine: every intent does what `Does` says, in place, and at most one new
-- intent is appended. Any law of intents then holds of whole runs.
use lijox_lnd_adapter.Prelude.{ℕ, String, refl, List, [], ◌∷◌, ◌++◌, Bool-cases, inl, inr}
use text.Mathlib.Text.{◌==◌}
use lijox_lnd_adapter.Sm.Intent.{Intent, Line, new_intent, Update}
use lijox_lnd_adapter.Sm.Machine.{update_intent}
use lijox_lnd_adapter.Sm.Does.{Does, edit, DoesSo}

-- Where a line stands in a list of them.
pub data In (x : Line) : List Line → Type 0 where
  first : {xs : List Line} → In x (x ∷ xs)
  later : {y : Line} {xs : List Line} → In x xs → In x (y ∷ xs)

abbrev pub Within : List Line → List Line → Type 0
Within k l = (x : Line) → In x k → In x l

pub In-append_left : (x : Line) (k l : List Line) → In x k → In x (k ++ l)
In-append_left x [] l p = elim p [ ]
In-append_left x (y ∷ k) l first = first
In-append_left x (y ∷ k) l (later h) = later (In-append_left x k l h)

pub In-append_right : (x : Line) (k l : List Line) → In x l → In x (k ++ l)
In-append_right x [] l h = h
In-append_right x (y ∷ k) l h = later (In-append_right x k l h)

-- `ys` is `xs` after one step that wrote `lines`.
pub data Grows (lines : List Line) : List Intent → List Intent → Type 0 where
  over : Grows lines [] []
  fresh :
      (now : ℕ) (h : String) {l : List Line} {b : Intent}
      → Does (new_intent h now) l b
      → Within l lines
      → Grows lines [] (b ∷ [])
  each :
      {a b : Intent} {l : List Line} {xs ys : List Intent}
      → Does a l b
      → Within l lines
      → Grows lines xs ys
      → Grows lines (a ∷ xs) (b ∷ ys)

pub Grows-Within :
    {k l : List Line} {xs ys : List Intent} → Within k l → Grows k xs ys → Grows l xs ys
Grows-Within w over = over
Grows-Within w (fresh now h d i) = fresh now h d (λ x p. w x (i x p))
Grows-Within w (each d i g) = each d (λ x p. w x (i x p)) (Grows-Within w g)

still : (a : Intent) → Does a [] a
still a =
    edit [] (record { hash = refl; state = refl; history = refl; entered = refl; bound = λ b. b })

pub Grows-still : (lines : List Line) (xs : List Intent) → Grows lines xs xs
Grows-still lines [] = over
Grows-still lines (a ∷ xs) = each (still a) (λ x p. elim p [ ]) (Grows-still lines xs)

Grows-appended :
    (lines : List Line) (now : ℕ) (h : String) (xs : List Intent)
    → Grows lines xs (xs ++ new_intent h now ∷ [])
Grows-appended lines now h [] = fresh now h (still _) (λ x p. elim p [ ])
Grows-appended lines now h (a ∷ xs) =
    each (still a) (λ x p. elim p [ ]) (Grows-appended lines now h xs)

module _ (h : String) (f : Update) (d : DoesSo f) where
  pub Grows-update_intent :
      (xs : List Intent) → Grows (update_intent h f xs).1 xs (update_intent h f xs).0
  unfolding update_intent
  Grows-update_intent [] = over
  Grows-update_intent (a ∷ xs) = elim (Bool-cases (a.hash == h)) [
    | inl hit ↦ rw hit (each (d.at a) (λ x p. p) (Grows-still _ xs))
    | inr miss ↦ rw miss (each (still a) (λ x p. elim p [ ]) (Grows-update_intent xs))
  ]

  -- The same with a new intent at the end.
  pub Grows-update_fresh :
      (now : ℕ) (xs : List Intent)
      → Grows
          (update_intent h f (xs ++ new_intent h now ∷ [])).1
          xs
          (update_intent h f (xs ++ new_intent h now ∷ [])).0
  unfolding update_intent
  Grows-update_fresh now [] = elim (Bool-cases ((new_intent h now).hash == h)) [
    | inl hit ↦ rw hit (fresh now h (d.at (new_intent h now)) (λ x p. p))
    | inr miss ↦ rw miss (fresh now h (still _) (λ x p. elim p [ ]))
  ]
  Grows-update_fresh now (a ∷ xs) = elim (Bool-cases (a.hash == h)) [
    | inl hit ↦ rw hit (each (d.at a) (λ x p. p) (Grows-appended _ now h xs))
    | inr miss ↦ rw miss (each (still a) (λ x p. elim p [ ]) (Grows-update_fresh now xs))
  ]
