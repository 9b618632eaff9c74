-- ===== src/Sm/Trace.antt =====
-- The history that an intent of lij-sm.js keeps is an unbroken trace of its states: each move starts
-- where the one before it ended, and the last one gives the present state and its time.
use lijox_lnd_adapter.Prelude.{
  ℕ, ◌≡◌, refl, sym, true, List, [], ◌∷◌, ◌++◌, Bool-cases, inl, inr, length, drop, ltb,
}
use lijox_lnd_adapter.Sm.State.{State, intercepted, is_terminal, same}
use lijox_lnd_adapter.Sm.Intent.{Why, Move, Intent, Line, new_intent, remember, moved, transition}
use lijox_lnd_adapter.Sm.Machine.{Machine, Step, step, run}
use lijox_lnd_adapter.Sm.Does.{Does, edit, move, both}
use lijox_lnd_adapter.Sm.Grows.{Grows, over, fresh, each}
use lijox_lnd_adapter.Sm.Steps.{Stepped, step-Stepped}

-- Each move starts in the state where the one before it ended.
abbrev pub Linked : List Move → Type 0
Linked [] = Unit
Linked (m ∷ []) = Unit
Linked (m ∷ n ∷ r) = (n.from ≡ m.to) × Linked (n ∷ r)

-- The last move led to this state at this time; without a move it is the state of the beginning.
abbrev pub LastIs : List Move → State → ℕ → Type 0
LastIs [] s at = s ≡ intercepted
LastIs (m ∷ []) s at = (m.to ≡ s) × (m.at ≡ at)
LastIs (m ∷ n ∷ r) s at = LastIs (n ∷ r) s at

pub record IsTraced (it : Intent) : Type 0 where
  pub linked : Linked it.history
  pub last : LastIs it.history it.state it.entered_at

abbrev pub AllTraced : List Intent → Type 0
AllTraced [] = Unit
AllTraced (it ∷ r) = IsTraced it × AllTraced r

LastIs-append : (mvs : List Move) (mv : Move) → LastIs (mvs ++ mv ∷ []) mv.to mv.at
LastIs-append [] mv = (refl, refl)
LastIs-append (m ∷ []) mv = (refl, refl)
LastIs-append (m ∷ n ∷ mvs) mv = LastIs-append (n ∷ mvs) mv

-- The shift of a full history never takes the new move.
LastIs-shifted :
    (mvs : List Move) (mv : Move)
    → ltb 40 (length (mvs ++ mv ∷ [])) ≡ true
    → LastIs (drop 1 (mvs ++ mv ∷ [])) mv.to mv.at
LastIs-shifted [] mv long = cc
LastIs-shifted (m ∷ mvs) mv long = LastIs-append mvs mv

Linked-append :
    (mvs : List Move) (mv : Move) (at : ℕ)
    → Linked mvs
    → LastIs mvs mv.from at
    → Linked (mvs ++ mv ∷ [])
Linked-append [] mv at l e = tt
Linked-append (m ∷ []) mv at l e = (sym (e.0), tt)
Linked-append (m ∷ n ∷ mvs) mv at l e = (l.0, Linked-append (n ∷ mvs) mv at l.1 e)

Linked-drop_one : (mvs : List Move) → Linked mvs → Linked (drop 1 mvs)
Linked-drop_one [] l = tt
Linked-drop_one (m ∷ []) l = tt
Linked-drop_one (m ∷ n ∷ mvs) l = l.1

LastIs-remember : (mvs : List Move) (mv : Move) → LastIs (remember mvs mv) mv.to mv.at
unfolding remember
LastIs-remember mvs mv = elim (Bool-cases (ltb 40 (length (mvs ++ mv ∷ [])))) [
  | inl long ↦ rw long (LastIs-shifted mvs mv long)
  | inr short ↦ rw short (LastIs-append mvs mv)
]

Linked-remember :
    (mvs : List Move) (mv : Move) (at : ℕ)
    → Linked mvs
    → LastIs mvs mv.from at
    → Linked (remember mvs mv)
unfolding remember
Linked-remember mvs mv at l e = elim (Bool-cases (ltb 40 (length (mvs ++ mv ∷ [])))) [
  | inl long ↦ rw long (Linked-drop_one (mvs ++ mv ∷ []) (Linked-append mvs mv at l e))
  | inr short ↦ rw short (Linked-append mvs mv at l e)
]

IsTraced-moved :
    (to : State) (why : Why) (now : ℕ) (a : Intent) → IsTraced a → IsTraced (moved a to why now)
unfolding moved
IsTraced-moved to why now a v =
    let mv : Move = record { from = a.state; to = to; why = why; at = now } in
    record {
      linked = Linked-remember a.history mv a.entered_at v.linked v.last;
      last = LastIs-remember a.history mv;
    }

IsTraced-transition :
    (now : ℕ) (to : State) (why : Why) (a : Intent)
    → IsTraced a
    → IsTraced (transition now to why a).0
unfolding transition
IsTraced-transition now to why a v = elim (Bool-cases (same a.state to)) [
  | inl stays ↦ rw stays v
  | inr goes ↦ elim (Bool-cases (is_terminal a.state)) [
    | inl ended ↦ rw (goes, ended) v
    | inr runs ↦ rw (goes, runs) (IsTraced-moved to why now a v)
  ]
]

IsTraced-Does : {a b : Intent} {l : List Line} → Does a l b → IsTraced a → IsTraced b
IsTraced-Does (edit lines e) v = record {
  linked = rw e.history v.linked;
  last = rw (e.history, e.state, e.entered) v.last;
}
IsTraced-Does (move now to why a h) v = IsTraced-transition now to why a v
IsTraced-Does (both d e) v = IsTraced-Does e (IsTraced-Does d v)

AllTraced-Grows :
    {l : List Line} {xs ys : List Intent} → Grows l xs ys → AllTraced xs → AllTraced ys
AllTraced-Grows over v = tt
AllTraced-Grows (fresh now h d i) v =
    (IsTraced-Does d (unfold new_intent in record { linked = tt; last = refl }), tt)
AllTraced-Grows (each d i g) v = (IsTraced-Does d v.0, AllTraced-Grows g v.1)

-- If the histories of a machine's intents are unbroken, each move starting where the one before it
-- ended, and each ends with the move to the present state, made when `entered_at` says (one without
-- a move being INTERCEPTED), then it is so after any run, also where old moves were shifted out. The
-- clock is read once for a step.
pub run-AllTraced :
    (steps : List (ℕ × Step)) (m : Machine) → AllTraced m.intents → AllTraced (run steps m).intents
unfolding run
run-AllTraced [] m v = v
run-AllTraced ((now, s) ∷ r) m v =
    let st : Stepped m (step now s m) = step-Stepped now s m in
    run-AllTraced r (step now s m) (AllTraced-Grows st.grows v)
