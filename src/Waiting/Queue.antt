-- ===== src/Waiting/Queue.antt =====
-- tatara-list.js: `headGroup`, `eligibleFor`, `reserve`, `running`, `countFor`, `queueSize`.
use lijox_lnd_adapter.Prelude.{
  ℕ, ◌+◌, ◌-◌, leb, ◌==◌, if◌then◌else◌, ◌&&◌, ◌||◌, not, String, Bool, true, false, Option, none,
  some, List, [], ◌∷◌, length,
}
use lijox_lnd_adapter.Waiting.State.{
  online_s, Settings, is_waiting, is_signed, Seat, Start, Attempt, State, has, find, is_seat, at,
  owner_busy,
}

-- The tests of the head group's loop, but for the owners taken so far.
unfoldable pub is_free : List Seat → List String → Seat → Bool
is_free seats held s =
    is_waiting s.state && (not s.paused && (not (owner_busy s.owner seats) && not (has s.id held)))

-- The loop of headGroup: `owners` and `n` are what has been taken.
unfoldable pub pick : ℕ → List Seat → List String → List String → ℕ → List String → List String
unfolding is_free find
pick max seats held owners n [] = []
pick max seats held owners n (x ∷ q) = elim (find x seats) [
  | none ↦ pick max seats held owners n q
  | some s ↦ elim (is_free seats held s && not (has s.owner owners)) [
    | false ↦ pick max seats held owners n q
    | true ↦ elim (n + 1 == max) [
      | true ↦ x ∷ []
      | false ↦ x ∷ pick max seats held (s.owner ∷ owners) (n + 1) q
    ]
  ]
]

-- headGroup
unfoldable pub head_group : Settings → State → String → ℕ → List String
unfolding pick
head_group cfg st route size =
    pick cfg.max_people st.seats (st.reserved route size) [] 0 (st.queues route size)

-- eligibleFor
unfoldable pub pick_public : List Seat → List String → List String → List String
unfolding find
pick_public seats owners [] = []
pick_public seats owners (x ∷ q) = elim (find x seats) [
  | none ↦ pick_public seats owners q
  | some s ↦
      elim (is_waiting s.state
        && (not s.paused
            && (s.public_ok
                && (not s.room_hold
                    && (not (has s.owner owners) && not (owner_busy s.owner seats)))))) [
                      | false ↦ pick_public seats owners q
                      | true ↦ x ∷ pick_public seats (s.owner ∷ owners) q
                    ]
]

unfoldable pub eligible_for : State → String → ℕ → List String
unfolding pick_public
eligible_for st route size = pick_public st.seats [] (st.queues route size)

-- reserve
unfoldable pub reserve : String → ℕ → List String → State → State
reserve route size ids st = record st { reserved = at route size ids st.reserved }

unfoldable pub count_starts : ℕ → List Start → ℕ
count_starts size [] = 0
count_starts size (sp ∷ sps) =
    let rest = count_starts size sps in if sp.size == size then 1 + rest else rest

unfoldable pub count_live : List Attempt → ℕ
count_live [] = 0
count_live (a ∷ more) = let rest = count_live more in if is_signed a.phase then rest else 1 + rest

unfoldable pub count_attempts : ℕ → List Attempt → ℕ
count_attempts size [] = 0
count_attempts size (a ∷ more) =
    let rest = count_attempts size more in
    if not (is_signed a.phase) && a.size == size then 1 + rest else rest

-- `running` against the limits
unfoldable pub is_full : Settings → State → ℕ → Bool
unfolding count_starts count_live count_attempts
is_full cfg st size =
    leb cfg.max_pools_per_size (count_starts size st.starts + count_attempts size st.attempts)
    || leb cfg.max_pools_total (length st.starts + count_live st.attempts)

-- queueSize
unfoldable pub count_seats : List Seat → List String → ℕ
count_seats seats [] = 0
count_seats seats (x ∷ q) =
    let rest = count_seats seats q in if is_seat x seats then 1 + rest else rest

unfoldable pub queue_size : State → String → ℕ → ℕ
unfolding count_seats
queue_size st route size = count_seats st.seats (st.queues route size)

unfoldable pub count_online : ℕ → List Seat → List String → ℕ
unfolding find
count_online t seats [] = 0
count_online t seats (x ∷ g) =
    let rest = count_online t seats g in
    elim (find x seats) [
      | none ↦ rest
      | some s ↦ if leb t (s.last_checkin + online_s) then 1 + rest else rest
    ]

pub record Count : Type 0 where
  pub joined : ℕ
  pub online : ℕ
  pub starts_in_s : Option ℕ
  pub busy : Bool

abbrev pub seconds_to : ℕ → ℕ → Option ℕ → Option ℕ
seconds_to t wait none = none
seconds_to t wait (some c) = some (c + wait - t)

-- countFor
unfoldable pub count_for : Settings → ℕ → State → String → ℕ → Count
unfolding head_group count_online is_full
count_for cfg t st route size =
    let g = head_group cfg st route size in
    record {
      joined = length g;
      online = count_online t st.seats g;
      starts_in_s = seconds_to t cfg.countdown_s (st.countdowns route size);
      busy = is_full cfg st size;
    }
