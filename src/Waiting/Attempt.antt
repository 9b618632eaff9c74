-- ===== src/Waiting/Attempt.antt =====
-- tatara-list.js: `announce`, `roomOutcome` and `report`.
use text.Mathlib.Text.{◌==◌ as str_eq}
use lijox_lnd_adapter.Prelude.{
  ℕ, suc, ◌+◌, ltb, leb, if◌then◌else◌, ◌&&◌, ◌||◌, not, String, Bool, true, false, Option, none,
  some, List, [], ◌∷◌, length,
}
use lijox_lnd_adapter.Waiting.State.{
  online_s, Settings, waiting, is_waiting, creating, running, signed, is_signed, told_stopped,
  told_announcement, Seat, Attempt, Phase, State, has, find, on_seat, tell, send_back, remove_seat,
  to_front, find_attempt, put_attempt, drop_attempt, Reply, refused, agreed, in_phase,
}
use lijox_lnd_adapter.Waiting.Start.{present, on_each, is_in, start_group}

abbrev pub is_creating : Phase → Bool
is_creating creating = true
is_creating _ = false

-- announce; `fits` says that the text is at most 32768 long
unfoldable pub announce : ℕ → String → String → String → Bool → State → State × Reply
unfolding find_attempt on_each tell
announce t x a text fits st = elim (find_attempt a st.attempts) [
  | none ↦ (st, refused "not_the_creator")
  | some k ↦
      if not (is_in k.creator x) || not (is_creating k.phase)
      then (st, refused "not_the_creator")
      else if not fits
      then (st, refused "bad_announcement")
      else (
        on_each (λ y z. if str_eq y x then z else on_seat y (tell t (told_announcement a text)) z)
            k.seats
            (record st {
              attempts =
                  put_attempt (record k { announcement = some text; phase = running }) st.attempts;
            }),
        agreed,
      )
]

abbrev pub owner_of : String → List Seat → Option String
owner_of x seats = elim (find x seats) [ none ↦ none | some s ↦ some s.owner ]

abbrev pub set_strikes : Option String → (ℕ → ℕ) → State → State
set_strikes none f st = st
set_strikes (some o) f st = record st {
  strikes = λ k. if str_eq k o then f (st.strikes k) else st.strikes k;
}

-- The funding is signed: no strikes, and the seat is done.
unfoldable pub finish_seat : ℕ → String → State → State
unfolding find remove_seat
finish_seat t x st = remove_seat t "done" x (set_strikes (owner_of x st.seats) (λ n. 0) st)

unfoldable pub sign : ℕ → Attempt → State → State
unfolding finish_seat on_each
sign t k st =
    on_each (finish_seat t) k.seats (record st {
      attempts = put_attempt (record k { phase = signed; signed_at = t }) st.attempts;
    })

-- A room that stopped: its seats back to the front.
unfoldable pub stop_room : ℕ → Attempt → State → State
unfolding on_each present
stop_room t k st = to_front (present st.seats k.seats) (
    on_each (λ x. on_seat x (send_back t (told_stopped (some k.attempt_id) "room_stopped"))) k.seats
      (record st { attempts = drop_attempt k.attempt_id st.attempts }))

-- roomOutcome
unfoldable pub room_outcome : ℕ → String → Bool → State → State × Reply
unfolding find_attempt sign stop_room
room_outcome t a success st = elim (find_attempt a st.attempts) [
  | none ↦ (st, refused "no_such_room")
  | some k ↦
      if not k.room
      then (st, refused "no_such_room")
      else if is_signed k.phase
      then (st, in_phase "signed")
      else if success
      then (sign t k st, in_phase "signed")
      else (stop_room t k st, in_phase "stopped")
]

pub data Outcome : Type 0 where
  funding_signed stopped stopped_at_payouts : Outcome

abbrev pub is_success : Outcome → Bool
is_success funding_signed = true
is_success _ = false

abbrev pub at_payouts : Outcome → Bool
at_payouts stopped_at_payouts = true
at_payouts _ = false

abbrev pub strikes_of : String → State → ℕ
strikes_of x st = elim (owner_of x st.seats) [ none ↦ 0 | some o ↦ st.strikes o ]

-- A strike for a seat's wallet; the seat is out at the limit.
unfoldable pub strike : Settings → String → State → State
unfolding find
strike cfg x st =
    let k = set_strikes (owner_of x st.seats) suc st in
    if leb cfg.strikes (strikes_of x k)
    then on_seat x (λ s. record s { strike_out = true }) k
    else k

abbrev pub is_out : String → List Seat → Bool
is_out x seats = elim (find x seats) [ none ↦ false | some s ↦ s.strike_out ]

abbrev pub is_back : ℕ → Option Seat → Bool
is_back t none = false
is_back t (some s) = not s.strike_out && leb t (s.last_checkin + online_s)

unfoldable pub online_of : ℕ → List Seat → List String → List String
unfolding find
online_of t seats [] = []
online_of t seats (x ∷ xs) =
    let rest = online_of t seats xs in if is_back t (find x seats) then x ∷ rest else rest

abbrev pub waits : Option Seat → Bool
waits none = false
waits (some s) = is_waiting s.state

unfoldable pub waiting_of : List Seat → List String → List String
unfolding find
waiting_of seats [] = []
waiting_of seats (x ∷ xs) =
    let rest = waiting_of seats xs in if waits (find x seats) then x ∷ rest else rest

abbrev pub stop_reason : Settings → Attempt → String
stop_reason cfg k = if ltb cfg.max_retries k.try_number then "retries_used" else "too_few_left"

-- After a stop: a retry with the seats that still check in, or every seat back to the front.
unfoldable pub retry_or_end : Settings → (ℕ → String) → ℕ → Attempt → List String → State → State
unfolding waiting_of on_each start_group tell
retry_or_end cfg fresh t k back st =
    let left = waiting_of st.seats k.seats in
    if leb k.try_number cfg.max_retries && leb cfg.min_people (length back)
    then (start_group cfg fresh t k.route k.size back (suc k.try_number) (
        on_each
          (λ x z.
            if has x back
            then z
            else on_seat x (tell t (told_stopped (some k.attempt_id) "retry_without_you")) z)
          left st)).0
    else to_front left (
        on_each (λ x. on_seat x (tell t (told_stopped (some k.attempt_id) (stop_reason cfg k))))
          left st)

-- A stop that decides.
unfoldable pub stop_attempt : Settings → (ℕ → String) → ℕ → Attempt → Bool → State → State
unfolding on_each strike online_of find remove_seat retry_or_end
stop_attempt cfg fresh t k payouts st =
    let struck = if payouts then on_each (strike cfg) (present st.seats k.seats) st else st in
    let back = online_of t struck.seats k.seats in
    let freed =
      on_each (λ x. on_seat x (λ s. record s { state = waiting; attempt_id = none })) k.seats
        (record struck { attempts = drop_attempt k.attempt_id struck.attempts }) in
    let cleared =
      on_each (λ x z. if is_out x z.seats then remove_seat t "strikes" x z else z) k.seats freed in
    retry_or_end cfg fresh t k back cleared

-- report
unfoldable pub report :
    Settings → (ℕ → String) → ℕ → String → String → Outcome → State → State × Reply
unfolding find_attempt room_outcome sign stop_attempt
report cfg fresh t x a outcome st = elim (find_attempt a st.attempts) [
  | none ↦ (st, refused "not_in_this_attempt")
  | some k ↦
      if not (has x k.seats)
      then (st, refused "not_in_this_attempt")
      else if k.room
      then room_outcome t a (is_success outcome) st
      else if is_signed k.phase
      then (st, in_phase "signed")
      else if is_success outcome
      then (sign t k st, in_phase "signed")
      else (stop_attempt cfg fresh t k (at_payouts outcome) st, in_phase "stopped")
]
