-- ===== src/Waiting/Tick.antt =====
-- tatara-list.js: `tick`. Each of its loops goes over what was there when it began.
use lijox_lnd_adapter.Prelude.{
  ℕ, ◌+◌, ltb, leb, ◌==◌, if◌then◌else◌, ◌&&◌, ◌||◌, not, String, Bool, true, false, Option, none,
  some, List, [], ◌∷◌, ◌++◌, length,
}
use lijox_lnd_adapter.Waiting.State.{
  create_max_s, attempt_max_s, signed_keep_s, seat_idle_max_s, Settings, is_waiting, is_gone,
  in_attempt, SeatState, creating, running, signed, told_stopped, Seat, Start, Attempt, State,
  delete, at, on_seat, send_back, remove_seat, to_front, drop_attempt,
}
use lijox_lnd_adapter.Waiting.Queue.{head_group, is_full}
use lijox_lnd_adapter.Waiting.Start.{on_each, start_group, close_start}
use lijox_lnd_adapter.Waiting.Attempt.{stopped, report, waiting_of}

-- `t > sp.deadline || sp.opened.length === sp.seats.length`
unfoldable pub is_due : ℕ → Start → Bool
is_due t sp = ltb sp.deadline t || length sp.opened == length sp.seats

unfoldable pub tick_starts : Settings → ℕ → List Start → State → State
unfolding is_due close_start
tick_starts cfg t [] st = st
tick_starts cfg t (sp ∷ sps) st =
    tick_starts cfg t sps (if is_due t sp then close_start cfg t sp st else st)

abbrev pub is_in_attempt : SeatState → Bool
is_in_attempt in_attempt = true
is_in_attempt _ = false

-- An attempt that nobody reported on for an hour.
unfoldable pub end_attempt : ℕ → Attempt → State → State
unfolding on_each waiting_of
end_attempt t k st =
    let back =
      on_each
        (λ x. on_seat x (λ s.
          if is_in_attempt s.state
          then send_back t (told_stopped (some k.attempt_id) "no_outcome_in_an_hour") s
          else s))
        k.seats (record st { attempts = drop_attempt k.attempt_id st.attempts }) in
    to_front (waiting_of back.seats k.seats) back

abbrev pub stop_of : Settings → (ℕ → String) → ℕ → Attempt → Option String → State → State
stop_of cfg fresh t k none st = st
stop_of cfg fresh t k (some x) st = (report cfg fresh t x k.attempt_id stopped st).0

unfoldable pub tick_attempt : Settings → (ℕ → String) → ℕ → Attempt → State → State
unfolding report end_attempt
tick_attempt cfg fresh t k st = elim k.phase [
  | creating ↦
      if ltb (k.created_at + create_max_s) t then stop_of cfg fresh t k k.creator st else st
  | running ↦ if ltb (k.created_at + attempt_max_s) t then end_attempt t k st else st
  | signed ↦
      if ltb ((if k.signed_at == 0 then k.created_at else k.signed_at) + signed_keep_s) t
      then record st { attempts = drop_attempt k.attempt_id st.attempts }
      else st
]

unfoldable pub tick_attempts : Settings → (ℕ → String) → ℕ → List Attempt → State → State
unfolding tick_attempt
tick_attempts cfg fresh t [] st = st
tick_attempts cfg fresh t (k ∷ ks) st = tick_attempts cfg fresh t ks (tick_attempt cfg fresh t k st)

unfoldable pub tick_seats : ℕ → List Seat → State → State
unfolding remove_seat
tick_seats t [] st = st
tick_seats t (s ∷ ss) st = tick_seats t ss (
    if is_waiting s.state && ltb (s.last_checkin + seat_idle_max_s) t
    then remove_seat t "idle_a_week" s.id st
    else if is_gone s.state && (not (s.gone_at == 0) && ltb (s.gone_at + seat_idle_max_s) t)
    then record st { seats = delete s.id st.seats }
    else st)

abbrev pub or_now : ℕ → Option ℕ → ℕ
or_now t none = t
or_now t (some c) = c

-- One queue: its countdown, and the start of its head group.
unfoldable pub tick_queue : Settings → (ℕ → String) → ℕ → String → ℕ → State → State × List String
unfolding head_group is_full start_group
tick_queue cfg fresh t route size st =
    let g = head_group cfg st route size in
    let c = or_now t (st.countdowns route size) in
    let counting = record st { countdowns = at route size (some c) st.countdowns } in
    let off = record st { countdowns = at route size none st.countdowns } in
    if ltb (length g) cfg.min_people
    then (off, [])
    else if not (leb cfg.max_people (length g)) && ltb t (c + cfg.countdown_s)
    then (counting, [])
    else if is_full cfg st size
    then (counting, [])
    else start_group cfg fresh t route size g 1 off

abbrev pub each_size : String → List ℕ → List (String × ℕ)
each_size route [] = []
each_size route (n ∷ ns) = (route, n) ∷ each_size route ns

-- queues
unfoldable pub queues : Settings → List (String × ℕ)
queues cfg =
    each_size "chain" cfg.sizes
    ++ (if cfg.channel_pools then each_size "channel" cfg.channel_sizes else [])

unfoldable pub tick_queues :
    Settings → (ℕ → String) → ℕ → List (String × ℕ) → State → State × List String
unfolding tick_queue
tick_queues cfg fresh t [] st = (st, [])
tick_queues cfg fresh t ((route, size) ∷ qs) st =
    let one = tick_queue cfg fresh t route size st in
    let rest = tick_queues cfg fresh t qs one.0 in (rest.0, one.1 ++ rest.1)

-- tick, with the seats to wake
unfoldable pub tick : Settings → (ℕ → String) → ℕ → State → State × List String
unfolding tick_starts tick_attempts tick_seats queues tick_queues
tick cfg fresh t st =
    let a = tick_starts cfg t st.starts st in
    let b = tick_attempts cfg fresh t a.attempts a in
    let c = tick_seats t b.seats b in tick_queues cfg fresh t (queues cfg) c
