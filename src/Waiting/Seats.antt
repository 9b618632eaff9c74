-- ===== src/Waiting/Seats.antt =====
-- tatara-list.js: `seat`, `checkin`, `leave`, `pause`, `endWeek`, and what a restart restores.
use text.Mathlib.Text.{◌==◌ as str_eq}
use lijox_lnd_adapter.Prelude.{
  ℕ, suc, leb, ◌==◌, if◌then◌else◌, ◌&&◌, ◌||◌, not, String, Bool, true, false, Option, none, some,
  List, [], ◌∷◌, ◌++◌, length,
}
use lijox_lnd_adapter.Waiting.State.{
  Settings, waiting, starting, in_attempt, is_waiting, is_gone, is_busy, is_signed, Notice,
  told_stopped, Seat, Start, Attempt, State, without, find, is_seat, delete, at, on_seat, send_back,
  remove_seat, erase_seat, find_start, put_start, Reply, refused, agreed, seated,
}

abbrev pub has_size : ℕ → List ℕ → Bool
has_size n [] = false
has_size n (m ∷ ms) = m == n || has_size n ms

unfoldable pub is_offered : Settings → String → ℕ → Option String
is_offered cfg route size =
    if str_eq route "chain"
    then if has_size size cfg.sizes then none else some "size_not_offered"
    else if str_eq route "channel"
    then if cfg.channel_pools && has_size size cfg.channel_sizes
      then none
      else some "route_not_offered"
    else some "route_not_offered"

unfoldable pub sits : String → String → ℕ → List Seat → Bool
sits owner route size [] = false
sits owner route size (s ∷ ss) =
    let rest = sits owner route size ss in
    if str_eq s.owner owner && (s.size == size && (str_eq s.route route && not (is_gone s.state)))
    then true
    else rest

unfoldable pub has_key : String → List Seat → Bool
has_key k [] = false
has_key k (s ∷ ss) =
    let rest = has_key k ss in if str_eq s.seat_pk k && not (is_gone s.state) then true else rest

pub record Ask : Type 0 where
  pub owner : String
  pub size : ℕ
  pub route : String
  pub seat_pk : String
  pub wakes : Bool
  pub week : Option String
  pub public_ok : Bool

abbrev pub new_seat : ℕ → String → Ask → Seat
new_seat t id q = record {
  id = id;
  owner = q.owner;
  size = q.size;
  route = q.route;
  seat_pk = q.seat_pk;
  wakes = q.wakes;
  week = q.week;
  last_checkin = t;
  paused = false;
  missed = 0;
  state = waiting;
  attempt_id = none;
  notices = [];
  public_ok = q.public_ok;
  room_hold = false;
  strike_out = false;
  gone_at = 0;
}

abbrev pub sit_with : (ℕ → String) → ℕ → Ask → State → State × Reply
sit_with fresh t q st =
    let id = fresh st.made in
    (
      record st {
        seats = st.seats ++ new_seat t id q ∷ [];
        queues = at q.route q.size (st.queues q.route q.size ++ id ∷ []) st.queues;
        made = suc st.made;
      },
      seated id,
    )

-- seat
unfoldable pub sit : Settings → (ℕ → String) → ℕ → Ask → State → State × Reply
unfolding is_offered sits has_key
sit cfg fresh t q st = elim (is_offered cfg q.route q.size) [
  | some reason ↦ (st, refused reason)
  | none ↦
      if sits q.owner q.route q.size st.seats
      then (st, refused "already_seated")
      else if has_key q.seat_pk st.seats
      then (st, refused "seat_key_used")
      else if leb cfg.max_list_per_size (length (st.queues q.route q.size))
      then (st, refused "list_full")
      else sit_with fresh t q st
]

-- checkin: the notices are handed over; a removed seat is deleted with it.
unfoldable pub check_in : ℕ → String → State → State × List (ℕ × Notice)
unfolding find
check_in t x st = elim (find x st.seats) [
  | none ↦ (st, [])
  | some s ↦ (
    if is_gone s.state
        then record st { seats = delete x st.seats }
        else on_seat x (λ k. record k { last_checkin = t; room_hold = false; notices = [] }) st,
    s.notices,
  )
]

abbrev pub start_without : String → Option Start → State → State
start_without x none st = st
start_without x (some sp) st = record st {
  starts = put_start (record sp { seats = without x sp.seats }) st.starts;
}

abbrev pub start_of : Option String → List Start → Option Start
start_of none sps = none
start_of (some a) sps = find_start a sps

-- leave
unfoldable pub leave : String → State → State × Reply
unfolding find find_start
leave x st = elim (find x st.seats) [
  | none ↦ (st, refused "no_such_seat")
  | some s ↦ elim s.state [
    | in_attempt ↦ (st, refused "in_a_pool")
    | starting ↦ (erase_seat x (start_without x (start_of s.attempt_id st.starts) st), agreed)
    | _ ↦ (erase_seat x st, agreed)
  ]
]

-- pause and resume
unfoldable pub pause : String → Bool → State → State × Reply
unfolding find
pause x on st = elim (find x st.seats) [
  | none ↦ (st, refused "no_such_seat")
  | some s ↦
      if is_waiting s.state
      then (on_seat x (λ k. record k { paused = on }) st, agreed)
      else (st, refused "not_waiting")
]

abbrev pub is_stale : String → Option String → Bool
is_stale label none = false
is_stale label (some week) = not (str_eq week label)

unfoldable pub end_each : ℕ → String → List Seat → State → State
unfolding remove_seat
end_each t label [] st = st
end_each t label (s ∷ ss) st =
    end_each t label ss (
      if is_stale label s.week && is_waiting s.state
      then remove_seat t "week_ended" s.id st
      else st)

-- endWeek
unfoldable pub end_week : ℕ → String → State → State
unfolding end_each
end_week t label st = end_each t label st.seats st

-- A seat after a restart.
unfoldable pub restored : ℕ → Seat → Seat
restored t s = if is_busy s.state then send_back t (told_stopped none "provider_restarted") s else s

unfoldable pub restore_seats : ℕ → List Seat → List Seat
unfolding restored
restore_seats t [] = []
restore_seats t (s ∷ ss) = restored t s ∷ restore_seats t ss

unfoldable pub only_signed : List Attempt → List Attempt
only_signed [] = []
only_signed (a ∷ more) = let rest = only_signed more in if is_signed a.phase then a ∷ rest else rest

unfoldable pub only_seats : List Seat → List String → List String
only_seats seats [] = []
only_seats seats (x ∷ q) =
    let rest = only_seats seats q in if is_seat x seats then x ∷ rest else rest

-- What is made of the saved state at the start.
unfoldable pub restore : ℕ → State → State
unfolding restore_seats only_signed only_seats
restore t st = record st {
  seats = restore_seats t st.seats;
  starts = [];
  attempts = only_signed st.attempts;
  queues = λ route size. only_seats st.seats (st.queues route size);
  countdowns = λ route size. none;
  reserved = λ route size. [];
}
