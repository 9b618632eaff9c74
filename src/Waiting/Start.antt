-- ===== src/Waiting/Start.antt =====
-- tatara-list.js: `startGroup`, `roomStart`, `open` and `closeStart`. A wake is the id of a seat to wake.
use text.Mathlib.Text.{◌==◌ as str_eq}
use lijox_lnd_adapter.Prelude.{
  ℕ, suc, ◌+◌, ltb, leb, ◌==◌, if◌then◌else◌, ◌&&◌, ◌||◌, not, String, Bool, true, false, Option,
  none, some, List, [], ◌∷◌, ◌++◌, length,
}
use lijox_lnd_adapter.Waiting.State.{
  missed_starts_max, Settings, starting, in_attempt, waiting, creating, running, told_stopped,
  told_start, told_room, told_missed_room, told_missed_start, told_create, told_wait, told_no_pool,
  Notice, Seat, Start, Attempt, State, has, without, find, is_seat, on_seat, tell, send_back,
  remove_seat, to_front, find_start, put_start, drop_start, Reply, refused, opened_by,
}
use lijox_lnd_adapter.Waiting.Queue.{reserve}

-- The seat is woken for an attempt.
abbrev pub woken : ℕ → String → Notice → Seat → Seat
woken t a n s = tell t n (record s { state = starting; attempt_id = some a })

unfoldable pub wake_each : ℕ → String → Notice → List String → State → State
wake_each t a n [] st = st
wake_each t a n (x ∷ xs) st = wake_each t a n xs (on_seat x (woken t a n) st)

-- The seats that a web push can wake.
unfoldable pub wakes_of : List Seat → List String → List String
unfolding find
wakes_of seats [] = []
wakes_of seats (x ∷ xs) =
    let rest = wakes_of seats xs in
    elim (find x seats) [ none ↦ rest | some s ↦ if s.wakes then x ∷ rest else rest ]

-- startGroup
unfoldable pub start_group :
    Settings → (ℕ → String) → ℕ → String → ℕ → List String → ℕ → State → State × List String
unfolding wake_each wakes_of
start_group cfg fresh t route size ids try_number st =
    let a = fresh st.made in
    let sp : Start = record {
      attempt_id = a;
      route = route;
      size = size;
      seats = ids;
      opened = [];
      deadline = t + cfg.wake_window_s;
      try_number = try_number;
      room = false;
    } in
    (
      wake_each t a (told_start a try_number) ids
          (record st { starts = st.starts ++ sp ∷ []; made = suc st.made }),
      if try_number == 1 then wakes_of st.seats ids else [],
    )

-- roomStart
unfoldable pub room_start :
    Settings → ℕ → String → ℕ → List String → String → State → State × List String
unfolding wake_each wakes_of reserve
room_start cfg t route size ids a st =
    let sp : Start = record {
      attempt_id = a;
      route = route;
      size = size;
      seats = ids;
      opened = [];
      deadline = t + cfg.wake_window_s;
      try_number = 1;
      room = true;
    } in
    let free = reserve route size [] st in
    (
      wake_each t a (told_room a) ids (record free { starts = free.starts ++ sp ∷ [] }),
      wakes_of st.seats ids,
    )

abbrev pub is_in : Option String → String → Bool
is_in none a = false
is_in (some b) a = str_eq b a

abbrev pub mark_opened : String → Start → Start
mark_opened x sp = if has x sp.opened then sp else record sp { opened = sp.opened ++ x ∷ [] }

-- open; `named` says whether the phone gave its join key
unfoldable pub open_seat : ℕ → String → String → Bool → State → State × Reply
unfolding find find_start
open_seat t x a named st = elim (find x st.seats) [
  | none ↦ (st, refused "not_in_this_start")
  | some s ↦ elim (find_start a st.starts) [
    | none ↦ (st, refused "not_in_this_start")
    | some sp ↦
        if not (is_in s.attempt_id a) || not (has x sp.seats)
        then (st, refused "not_in_this_start")
        else if ltb sp.deadline t
        then (st, refused "too_late")
        else if sp.room && not named
        then (st, refused "join_pk_needed")
        else (
          record st { starts = put_start (mark_opened x sp) st.starts },
          opened_by (length (mark_opened x sp).opened),
        )
  ]
]

unfoldable pub present : List Seat → List String → List String
present seats [] = []
present seats (x ∷ xs) = let rest = present seats xs in if is_seat x seats then x ∷ rest else rest

unfoldable pub absent : List Seat → List String → List String → List String
absent seats opened [] = []
absent seats opened (x ∷ xs) =
    let rest = absent seats opened xs in
    if is_seat x seats && not (has x opened) then x ∷ rest else rest

unfoldable pub on_each : (String → State → State) → List String → State → State
on_each f [] st = st
on_each f (x ∷ xs) st = on_each f xs (f x st)

abbrev pub missed_of : String → List Seat → ℕ
missed_of x seats = elim (find x seats) [ none ↦ 0 | some s ↦ s.missed ]

-- A first start that a seat missed is counted; the second ends the seat.
unfoldable pub count_miss : ℕ → Start → ℕ → String → State → State
unfolding tell
count_miss t sp m x st =
    let back = on_seat x (λ s. record s { state = waiting; attempt_id = none; missed = m }) st in
    if leb missed_starts_max m
    then remove_seat t "missed_two_starts" x back
    else on_seat x (tell t (told_missed_start sp.attempt_id m)) back

-- A seat that did not open.
unfoldable pub miss : ℕ → Start → String → State → State
unfolding find tell count_miss
miss t sp x st =
    if sp.room
    then on_seat x
        (λ s.
          tell t (told_missed_room sp.attempt_id)
            (record s { state = waiting; attempt_id = none; room_hold = true }))
        st
    else if sp.try_number == 1
    then count_miss t sp (suc (missed_of x st.seats)) x st
    else on_seat x (send_back t (told_stopped (some sp.attempt_id) "not_back_for_the_retry")) st

abbrev pub first_of : List String → Option String
first_of [] = none
first_of (x ∷ xs) = some x

abbrev pub attempt_of : ℕ → Start → List String → Attempt
attempt_of t sp opened = record {
  attempt_id = sp.attempt_id;
  route = sp.route;
  size = sp.size;
  seats = opened;
  creator = if sp.room then none else first_of opened;
  try_number = if sp.room then 1 else sp.try_number;
  phase = if sp.room then running else creating;
  announcement = none;
  created_at = t;
  signed_at = 0;
  room = sp.room;
}

abbrev pub key_of_seat : String → List Seat → String
key_of_seat x seats = elim (find x seats) [ none ↦ "" | some s ↦ s.seat_pk ]

unfoldable pub keys_of : List Seat → List String → List String
unfolding find
keys_of seats [] = []
keys_of seats (x ∷ xs) = key_of_seat x seats ∷ keys_of seats xs

-- What an opened seat is told when the attempt begins; a room's seats are told nothing.
unfoldable pub join : ℕ → Start → List String → List Seat → String → State → State
unfolding tell keys_of
join t sp opened seats x st =
    if sp.room
    then on_seat x (λ s. record s { state = in_attempt }) st
    else on_seat x
        (λ s.
          tell t
            (if is_in (first_of opened) x
              then told_create sp.attempt_id (length opened) (keys_of seats (without x opened))
              else told_wait sp.attempt_id (length opened))
            (record s { state = in_attempt; missed = 0 }))
        st

-- The two ids of the posting token are taken for an attempt that is not a room.
abbrev pub begin : ℕ → Start → List String → State → State
begin t sp opened st = on_each (join t sp opened st.seats) opened (record st {
  attempts = st.attempts ++ attempt_of t sp opened ∷ [];
  made = if sp.room then st.made else st.made + 2;
})

-- closeStart
unfoldable pub close_start : Settings → ℕ → Start → State → State
unfolding present absent on_each miss join
close_start cfg t sp st =
    let opened = present st.seats sp.opened in
    let missed = absent st.seats opened sp.seats in
    let rest =
      on_each (miss t sp) missed (record st { starts = drop_start sp.attempt_id st.starts }) in
    if sp.room
    then if ltb 0 (length opened) then begin t sp opened rest else rest
    else if leb cfg.min_people (length opened)
    then begin t sp opened rest
    else to_front opened (
        on_each (λ x. on_seat x (send_back t (told_no_pool sp.attempt_id (length opened)))) opened
          rest)
