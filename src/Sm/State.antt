-- ===== src/Sm/State.antt =====
-- lij-sm.js: the states, TERMINAL and LEGAL.
use lijox_lnd_adapter.Prelude.{Bool, true, false, List, [], ◌∷◌, ◌||◌}

pub data State : Type 0 where
  intercepted aggregating gated holding opening forwarding settling failing : State
  settled failed expired abandoned passthrough resumed : State

-- TERMINAL.has(s)
abbrev pub is_terminal : State → Bool
is_terminal settled = true
is_terminal failed = true
is_terminal expired = true
is_terminal abandoned = true
is_terminal passthrough = true
is_terminal resumed = true
is_terminal _ = false

-- `===` on two states.
abbrev pub same : State → State → Bool
same intercepted intercepted = true
same aggregating aggregating = true
same gated gated = true
same holding holding = true
same opening opening = true
same forwarding forwarding = true
same settling settling = true
same failing failing = true
same settled settled = true
same failed failed = true
same expired expired = true
same abandoned abandoned = true
same passthrough passthrough = true
same resumed resumed = true
same _ _ = false

-- LEGAL[s] || []
abbrev pub legal_from : State → List State
legal_from intercepted =
    aggregating ∷ gated ∷ holding ∷ opening ∷ forwarding ∷ failing ∷ passthrough ∷ []
legal_from aggregating = gated ∷ holding ∷ opening ∷ forwarding ∷ failing ∷ passthrough ∷ []
legal_from gated = holding ∷ opening ∷ forwarding ∷ failing ∷ []
legal_from holding = gated ∷ opening ∷ forwarding ∷ failing ∷ resumed ∷ []
legal_from opening = forwarding ∷ holding ∷ failing ∷ []
legal_from forwarding = settling ∷ holding ∷ failing ∷ []
legal_from settling = settled ∷ []
legal_from failing = failed ∷ expired ∷ []
legal_from _ = []

abbrev pub includes : List State → State → Bool
includes [] s = false
includes (t ∷ ts) s = same t s || includes ts s

-- (LEGAL[from] || []).includes(to)
abbrev pub is_legal : State → State → Bool
is_legal from to = includes (legal_from from) to
