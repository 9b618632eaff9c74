-- ===== src/Waiting/State/Records.antt =====
-- tatara-list.js: the settings and the state. Times are in seconds, a number or text that is not set is
-- 0 or `none`. A queue's key is its route and size; a map that is only looked up is a function, one that
-- is walked through a list in its order. The log, the file, and what is only shown or passed on to
-- the relay and the host (a fee cap, tokens, announced reports, a notice's other fields) are left out.
use lijox_lnd_adapter.Prelude.{ℕ, String, Bool, true, false, Option, List}

abbrev pub online_s : ℕ
online_s = 30

abbrev pub missed_starts_max : ℕ
missed_starts_max = 2

abbrev pub seat_idle_max_s : ℕ
seat_idle_max_s = 604800

abbrev pub notices_max : ℕ
notices_max = 20

abbrev pub create_max_s : ℕ
create_max_s = 300

abbrev pub attempt_max_s : ℕ
attempt_max_s = 3600

abbrev pub signed_keep_s : ℕ
signed_keep_s = 86400

pub record Settings : Type 0 where
  pub sizes : List ℕ
  pub channel_pools : Bool
  pub channel_sizes : List ℕ
  pub min_people : ℕ
  pub max_people : ℕ
  pub countdown_s : ℕ
  pub wake_window_s : ℕ
  pub max_retries : ℕ
  pub strikes : ℕ
  pub max_list_per_size : ℕ
  pub max_pools_per_size : ℕ
  pub max_pools_total : ℕ

pub data SeatState : Type 0 where
  waiting starting in_attempt gone : SeatState

abbrev pub is_waiting : SeatState → Bool
is_waiting waiting = true
is_waiting _ = false

abbrev pub is_gone : SeatState → Bool
is_gone gone = true
is_gone _ = false

-- Starting or in a pool.
abbrev pub is_busy : SeatState → Bool
is_busy starting = true
is_busy in_attempt = true
is_busy _ = false

-- What a seat is told; an attempt is named by its id.
pub data Notice : Type 0 where
  told_done : Option String → Notice
  told_removed : String → Notice
  told_stopped : Option String → String → Notice
  told_start : String → ℕ → Notice
  told_room : String → Notice
  told_missed_room : String → Notice
  told_missed_start : String → ℕ → Notice
  told_create : String → ℕ → List String → Notice
  told_wait : String → ℕ → Notice
  told_no_pool : String → ℕ → Notice
  told_announcement : String → String → Notice

pub record Seat : Type 0 where
  pub id : String
  pub owner : String
  pub size : ℕ
  pub route : String
  pub seat_pk : String
  pub wakes : Bool
  pub week : Option String
  pub last_checkin : ℕ
  pub paused : Bool
  pub missed : ℕ
  pub state : SeatState
  pub attempt_id : Option String
  pub notices : List (ℕ × Notice)
  pub public_ok : Bool
  pub room_hold : Bool
  pub strike_out : Bool
  pub gone_at : ℕ

-- A start: its seats have until the deadline to open.
pub record Start : Type 0 where
  pub attempt_id : String
  pub route : String
  pub size : ℕ
  pub seats : List String
  pub opened : List String
  pub deadline : ℕ
  pub try_number : ℕ
  pub room : Bool

-- `stopped` is never kept: an attempt that stops is deleted.
pub data Phase : Type 0 where
  creating running signed : Phase

abbrev pub is_signed : Phase → Bool
is_signed signed = true
is_signed _ = false

pub record Attempt : Type 0 where
  pub attempt_id : String
  pub route : String
  pub size : ℕ
  pub seats : List String
  pub creator : Option String
  pub try_number : ℕ
  pub phase : Phase
  pub announcement : Option String
  pub created_at : ℕ
  pub signed_at : ℕ
  pub room : Bool

pub record State : Type 0 where
  pub seats : List Seat
  pub queues : String → ℕ → List String
  pub strikes : String → ℕ
  pub starts : List Start
  pub attempts : List Attempt
  pub countdowns : String → ℕ → Option ℕ
  pub reserved : String → ℕ → List String
  pub made : ℕ

-- What an operation answers.
pub data Reply : Type 0 where
  refused : String → Reply
  agreed : Reply
  seated : String → Reply
  opened_by : ℕ → Reply
  in_phase : String → Reply
