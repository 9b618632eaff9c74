-- ===== src/Waiting/Tests.antt =====
-- Three wallets at 100000 sats: the theorems of `Waiting` at them.
use lijox_lnd_adapter.Prelude.{
  ℕ, ◌≤◌, ◌≡◌, refl, true, false, Option, none, some, List, [], ◌∷◌, String, length, arith,
}
use lijox_lnd_adapter.Waiting.State.{
  Settings, SeatState, waiting, starting, is_busy, is_signed, Seat, Start, Attempt, State, has,
  without, find, is_seat, find_start, find_attempt,
}
use lijox_lnd_adapter.Waiting.Queue.{head_group}
use lijox_lnd_adapter.Waiting.Seats.{leave, restore}
use lijox_lnd_adapter.Waiting.Start.{start_group, present, absent}
use lijox_lnd_adapter.Waiting.Tick.{is_due}
use lijox_lnd_adapter.Waiting.Head.{OneEach, start_group-OneEach}
use lijox_lnd_adapter.Waiting.Early.{left_by, leave-closes_early}
use lijox_lnd_adapter.Waiting.Restore.{restore_lem}

abbrev settings : Settings
settings = record {
  sizes = 100000 ∷ [];
  channel_pools = false;
  channel_sizes = [];
  min_people = 2;
  max_people = 3;
  countdown_s = 60;
  wake_window_s = 120;
  max_retries = 2;
  strikes = 3;
  max_list_per_size = 100;
  max_pools_per_size = 2;
  max_pools_total = 4;
}

abbrev seat_of : String → String → SeatState → Option String → Seat
seat_of id owner state attempt = record {
  id = id;
  owner = owner;
  size = 100000;
  route = "chain";
  seat_pk = owner;
  wakes = true;
  week = none;
  last_checkin = 1000;
  paused = false;
  missed = 0;
  state = state;
  attempt_id = attempt;
  notices = [];
  public_ok = false;
  room_hold = false;
  strike_out = false;
  gone_at = 0;
}

abbrev listed : SeatState → Option String → List Start → State
listed state attempt starts = record {
  seats =
      seat_of "s1" "w1" state attempt
      ∷ seat_of "s2" "w2" state attempt
      ∷ seat_of "s3" "w3" state attempt
      ∷ [];
  queues = λ route size. "s1" ∷ "s2" ∷ "s3" ∷ [];
  strikes = λ owner. 0;
  starts = starts;
  attempts = [];
  countdowns = λ route size. none;
  reserved = λ route size. [];
  made = 0;
}

abbrev free_list : State
free_list = listed waiting none []

abbrev fresh : ℕ → String
fresh n = "a1"

free-OneEach : OneEach free_list.seats
free-OneEach o = ground arith

start_group-OneEach_example :
    (length (head_group settings free_list "chain" 100000) ≤ 3)
    × OneEach
        (start_group settings fresh 2000 "chain" 100000
          (head_group settings free_list "chain" 100000)
          1
          free_list).0.seats
start_group-OneEach_example =
    start_group-OneEach settings fresh 2000 100000 "chain" free_list (omega arith) free-OneEach

abbrev under_way : Start
under_way = record {
  attempt_id = "a1";
  route = "chain";
  size = 100000;
  seats = "s1" ∷ "s2" ∷ "s3" ∷ [];
  opened = "s1" ∷ "s2" ∷ [];
  deadline = 2120;
  try_number = 1;
  room = false;
}

abbrev started : State
started = listed starting (some "a1") (under_way ∷ [])

leave-closes_early_example :
    (find_start "a1" (leave "s1" started).0.starts ≡ some (left_by "s1" under_way))
    × (is_due 2001 (left_by "s1" under_way) ≡ true)
    × (has "s3" (
          absent
            (leave "s1" started).0.seats
            (present (leave "s1" started).0.seats under_way.opened)
            (left_by "s1" under_way).seats)
        ≡ true)
unfolding find find_start without
leave-closes_early_example =
    leave-closes_early "s1" "s3" (seat_of "s1" "w1" starting (some "a1")) under_way started 2001
      refl refl refl refl refl refl refl refl refl

restore_lem_example :
    ((x : String) (s : Seat)
      → find x (restore 3000 started).seats ≡ some s
      → is_busy s.state ≡ false)
    × ((restore 3000 started).starts ≡ [])
    × ((a : String) (k : Attempt)
        → find_attempt a (restore 3000 started).attempts ≡ some k
        → is_signed k.phase ≡ true)
    × ((x : String) → is_seat x (restore 3000 started).seats ≡ is_seat x started.seats)
    × ((x route : String) (size : ℕ)
        → has x ((restore 3000 started).queues route size) ≡ true
        → is_seat x (restore 3000 started).seats ≡ true)
restore_lem_example = restore_lem 3000 started
