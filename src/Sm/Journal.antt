-- ===== src/Sm/Journal.antt =====
-- The journal of lij-sm.js against the moves that the intents remember: no illegal move is silent,
-- the history is bounded, and it ends in the state that the intent is in.
use lijox_lnd_adapter.Prelude.{
  ℕ, ◌≤◌, String, ◌≡◌, ◌⊎◌, refl, true, List, [], ◌∷◌, ◌++◌, arith, Bool-cases, inl, inr, length,
  length-append, drop, length-drop, ltb,
}
use lijox_lnd_adapter.Sm.State.{State, is_terminal, same, is_legal}
use lijox_lnd_adapter.Sm.Intent.{
  Why, Move, Intent, Line, trans, illegal, new_intent, remember, moved, transition,
}
use lijox_lnd_adapter.Sm.Machine.{Machine, Step, step, run}
use lijox_lnd_adapter.Sm.Does.{Does, edit, move, both}
use lijox_lnd_adapter.Sm.Grows.{
  In, first, Within, In-append_left, In-append_right, Grows, over, fresh, each,
}
use lijox_lnd_adapter.Sm.Steps.{Stepped, step-Stepped}

-- A move is legal, or the journal has its [SM-VIOLATION] line.
abbrev pub Explained : List Line → String → Move → Type 0
Explained journal h mv =
    (is_legal mv.from mv.to ≡ true) ⊎ In (illegal h mv.from mv.to mv.why) journal

abbrev pub AllExplained : List Line → String → List Move → Type 0
AllExplained journal h [] = Unit
AllExplained journal h (mv ∷ r) = Explained journal h mv × AllExplained journal h r

-- The last move ended in the present state.
abbrev pub EndsIn : List Move → State → Type 0
EndsIn [] s = Unit
EndsIn (mv ∷ []) s = mv.to ≡ s
EndsIn (mv ∷ r) s = EndsIn r s

pub record IsLawful (journal : List Line) (it : Intent) : Type 0 where
  pub explained : AllExplained journal it.hash it.history
  pub bounded : length it.history ≤ 40
  pub ends : EndsIn it.history it.state

abbrev pub AllLawful : List Line → List Intent → Type 0
AllLawful journal [] = Unit
AllLawful journal (it ∷ r) = IsLawful journal it × AllLawful journal r

AllExplained-Within :
    (k l : List Line) (h : String) (mvs : List Move)
    → Within k l
    → AllExplained k h mvs
    → AllExplained l h mvs
AllExplained-Within k l h [] w e = tt
AllExplained-Within k l h (mv ∷ r) w (inl legal, e) = (inl legal, AllExplained-Within k l h r w e)
AllExplained-Within k l h (mv ∷ r) w (inr line, e) =
    (inr (w _ line), AllExplained-Within k l h r w e)

AllExplained-append :
    (k : List Line) (h : String) (mvs : List Move) (mv : Move)
    → AllExplained k h mvs
    → Explained k h mv
    → AllExplained k h (mvs ++ mv ∷ [])
AllExplained-append k h [] mv e x = (x, tt)
AllExplained-append k h (m ∷ mvs) mv e x = (e.0, AllExplained-append k h mvs mv e.1 x)

AllExplained-drop_one :
    (k : List Line) (h : String) (mvs : List Move)
    → AllExplained k h mvs
    → AllExplained k h (drop 1 mvs)
AllExplained-drop_one k h [] e = tt
AllExplained-drop_one k h (m ∷ mvs) e = e.1

EndsIn-append : (mvs : List Move) (mv : Move) → EndsIn (mvs ++ mv ∷ []) mv.to
EndsIn-append [] mv = refl
EndsIn-append (m ∷ []) mv = refl
EndsIn-append (m ∷ n ∷ mvs) mv = EndsIn-append (n ∷ mvs) mv

EndsIn-drop_one : (mvs : List Move) (s : State) → EndsIn mvs s → EndsIn (drop 1 mvs) s
EndsIn-drop_one [] s e = tt
EndsIn-drop_one (m ∷ []) s e = tt
EndsIn-drop_one (m ∷ n ∷ mvs) s e = e

module _ (k : List Line) (h : String) (mvs : List Move) (mv : Move) where
  AllExplained-remember :
      AllExplained k h mvs → Explained k h mv → AllExplained k h (remember mvs mv)
  unfolding remember
  AllExplained-remember e x = elim (Bool-cases (ltb 40 (length (mvs ++ mv ∷ [])))) [
    | inl long ↦
        rw long (AllExplained-drop_one k h (mvs ++ mv ∷ []) (AllExplained-append k h mvs mv e x))
    | inr short ↦ rw short (AllExplained-append k h mvs mv e x)
  ]

length-remember : (mvs : List Move) (mv : Move) → length mvs ≤ 40 → length (remember mvs mv) ≤ 40
unfolding remember
length-remember mvs mv h =
    ground (arith, length-append {0} mvs (mv ∷ []), length-drop {0} 1 (mvs ++ mv ∷ []))

EndsIn-remember : (mvs : List Move) (mv : Move) → EndsIn (remember mvs mv) mv.to
unfolding remember
EndsIn-remember mvs mv = elim (Bool-cases (ltb 40 (length (mvs ++ mv ∷ [])))) [
  | inl long ↦ rw long (EndsIn-drop_one (mvs ++ mv ∷ []) mv.to (EndsIn-append mvs mv))
  | inr short ↦ rw short (EndsIn-append mvs mv)
]

IsLawful-moved :
    (k : List Line) (to : State) (why : Why) (now : ℕ) (a : Intent)
    → Explained k a.hash (record { from = a.state; to = to; why = why; at = now })
    → IsLawful k a
    → IsLawful k (moved a to why now)
unfolding moved
IsLawful-moved k to why now a x v = record {
  explained = AllExplained-remember k a.hash a.history _ v.explained x;
  bounded = length-remember a.history _ v.bounded;
  ends = EndsIn-remember a.history (record { from = a.state; to = to; why = why; at = now });
}

IsLawful-transition :
    (k : List Line) (now : ℕ) (to : State) (why : Why) (a : Intent)
    → Within (transition now to why a).1 k
    → IsLawful k a
    → IsLawful k (transition now to why a).0
unfolding transition
IsLawful-transition k now to why a w v = elim (Bool-cases (same a.state to)) [
  | inl stays ↦ rw stays v
  | inr goes ↦ elim (Bool-cases (is_terminal a.state)) [
    | inl ended ↦ rw (goes, ended) v
    | inr runs ↦ elim (Bool-cases (is_legal a.state to)) [
      | inl legal ↦ rw (goes, runs) (IsLawful-moved k to why now a (inl legal) v)
      | inr flagged ↦
          let w' : Within (illegal a.hash a.state to why ∷ trans a.hash to why ∷ []) k =
            rw (goes, runs, flagged) at w in
          rw (goes, runs) (IsLawful-moved k to why now a (inr (w' _ first)) v)
    ]
  ]
]

IsLawful-Does :
    (k : List Line) {a b : Intent} {l : List Line}
    → Does a l b
    → Within l k
    → IsLawful k a
    → IsLawful k b
IsLawful-Does k {a} {b} (edit lines e) w v = record {
  explained = rw (e.hash, e.history) v.explained;
  bounded = rw e.history v.bounded;
  ends = rw (e.history, e.state) v.ends;
}
IsLawful-Does k (move now to why a h) w v = IsLawful-transition k now to why a w v
IsLawful-Does k (both {k = p} {l = q} d e) w v =
    IsLawful-Does k e (λ x i. w x (In-append_right x p q i))
      (IsLawful-Does k d (λ x i. w x (In-append_left x p q i)) v)

AllLawful-Grows :
    (k : List Line) {l : List Line} {xs ys : List Intent}
    → Grows l xs ys
    → Within l k
    → AllLawful k xs
    → AllLawful k ys
AllLawful-Grows k over w v = tt
AllLawful-Grows k (fresh now h d i) w v = (
  IsLawful-Does k d (λ x p. w x (i x p))
      (unfold new_intent in record { explained = tt; bounded = omega arith; ends = tt }),
  tt,
)
AllLawful-Grows k (each d i g) w v =
    (IsLawful-Does k d (λ x p. w x (i x p)) v.0, AllLawful-Grows k g w v.1)

AllLawful-Within :
    (k l : List Line) (xs : List Intent) → Within k l → AllLawful k xs → AllLawful l xs
AllLawful-Within k l [] w v = tt
AllLawful-Within k l (a ∷ xs) w v = (
  record {
    explained = AllExplained-Within k l a.hash a.history w v.0.explained;
    bounded = v.0.bounded;
    ends = v.0.ends;
  },
  AllLawful-Within k l xs w v.1,
)

-- Whatever happens to a lawful machine, every intent stays lawful.
pub run-AllLawful :
    (steps : List (ℕ × Step)) (m : Machine)
    → AllLawful m.journal m.intents
    → AllLawful (run steps m).journal (run steps m).intents
unfolding run
run-AllLawful [] m v = v
run-AllLawful ((now, s) ∷ r) m v =
    let st : Stepped m (step now s m) = step-Stepped now s m in
    let old : AllLawful (m.journal ++ st.lines) m.intents =
      AllLawful-Within m.journal (m.journal ++ st.lines) m.intents
        (λ x p. In-append_left x m.journal st.lines p) v in
    let new : AllLawful (m.journal ++ st.lines) (step now s m).intents =
      AllLawful-Grows (m.journal ++ st.lines) st.grows
        (λ x p. In-append_right x m.journal st.lines p) old in
    run-AllLawful r (step now s m) (rw st.journal new)
