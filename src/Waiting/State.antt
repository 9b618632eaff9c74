-- ===== src/Waiting/State.antt =====
-- tatara-list.js: the state, with the helpers on seats, queues, starts and attempts. New ids are made by
-- `fresh` in turn.
mod Records
pub use Records.*
use text.Mathlib.Text.{◌==◌ as str_eq}
use lijox_lnd_adapter.Prelude.{
  ℕ, ◌-◌, ◌==◌, if◌then◌else◌, ◌&&◌, ◌||◌, String, Bool, true, false, Option, none, some, List, [],
  ◌∷◌, ◌++◌, length, drop,
}

abbrev pub has : String → List String → Bool
has x [] = false
has x (y ∷ ys) = str_eq y x || has x ys

-- `q.indexOf(id)` and `q.splice(i, 1)`
unfoldable pub erase : String → List String → List String
erase x [] = []
erase x (y ∷ ys) = let rest = erase x ys in if str_eq y x then ys else y ∷ rest

unfoldable pub without : String → List String → List String
without x [] = []
without x (y ∷ ys) = let rest = without x ys in if str_eq y x then rest else y ∷ rest

-- `st.seats[id]`
unfoldable pub find : String → List Seat → Option Seat
find x [] = none
find x (s ∷ ss) = let rest = find x ss in if str_eq s.id x then some s else rest

abbrev pub is_seat : String → List Seat → Bool
is_seat x [] = false
is_seat x (s ∷ ss) = str_eq s.id x || is_seat x ss

unfoldable pub update : String → (Seat → Seat) → List Seat → List Seat
update x f [] = []
update x f (s ∷ ss) = let rest = update x f ss in if str_eq s.id x then f s ∷ ss else s ∷ rest

unfoldable pub delete : String → List Seat → List Seat
delete x [] = []
delete x (s ∷ ss) = let rest = delete x ss in if str_eq s.id x then ss else s ∷ rest

-- A map's value at one queue's key.
abbrev pub at {ℓ} : {A : Type ℓ} → String → ℕ → A → (String → ℕ → A) → String → ℕ → A
at route size v f r n = if str_eq r route && n == size then v else f r n

abbrev pub on_seat : String → (Seat → Seat) → State → State
on_seat x f st = record st { seats = update x f st.seats }

-- tell
unfoldable pub tell : ℕ → Notice → Seat → Seat
tell t n s =
    let ns = s.notices ++ (t, n) ∷ [] in record s { notices = drop (length ns - notices_max) ns }

-- A seat is `waiting` again, and is told why.
unfoldable pub send_back : ℕ → Notice → Seat → Seat
unfolding tell
send_back t n s = tell t n (record s { state = waiting; attempt_id = none })

-- ownerBusy
unfoldable pub owner_busy : String → List Seat → Bool
owner_busy o [] = false
owner_busy o (s ∷ ss) =
    let rest = owner_busy o ss in if str_eq s.owner o && is_busy s.state then true else rest

abbrev pub without_queue : Seat → State → String → ℕ → List String
without_queue s st = at s.route s.size (erase s.id (st.queues s.route s.size)) st.queues

-- removeSeat with a reason; 'done' names the attempt.
abbrev pub notice_of : String → Seat → Notice
notice_of reason s = if str_eq reason "done" then told_done s.attempt_id else told_removed reason

abbrev pub retire : ℕ → String → Option Seat → State → State
retire t reason none st = st
retire t reason (some s) st = record st {
  queues = without_queue s st;
  seats =
      update s.id
        (λ x. record (tell t (notice_of reason x) (record x { state = gone })) { gone_at = t })
        st.seats;
}

unfoldable pub remove_seat : ℕ → String → String → State → State
unfolding find
remove_seat t reason x st = retire t reason (find x st.seats) st

-- removeSeat without one
abbrev pub take_out : Option Seat → State → State
take_out none st = st
take_out (some s) st = record st { queues = without_queue s st; seats = delete s.id st.seats }

unfoldable pub erase_seat : String → State → State
unfolding find
erase_seat x st = take_out (find x st.seats) st

abbrev pub to_head : Option Seat → State → State
to_head none st = st
to_head (some s) st = record st {
  queues = at s.route s.size (s.id ∷ erase s.id (st.queues s.route s.size)) st.queues;
}

-- toFront
unfoldable pub to_front : List String → State → State
unfolding find
to_front [] st = st
to_front (x ∷ xs) st = let rest = to_front xs st in to_head (find x rest.seats) rest

unfoldable pub find_start : String → List Start → Option Start
find_start a [] = none
find_start a (sp ∷ sps) =
    let rest = find_start a sps in if str_eq sp.attempt_id a then some sp else rest

unfoldable pub put_start : Start → List Start → List Start
put_start k [] = []
put_start k (sp ∷ sps) =
    let rest = put_start k sps in if str_eq sp.attempt_id k.attempt_id then k ∷ sps else sp ∷ rest

unfoldable pub drop_start : String → List Start → List Start
drop_start a [] = []
drop_start a (sp ∷ sps) =
    let rest = drop_start a sps in if str_eq sp.attempt_id a then sps else sp ∷ rest

unfoldable pub find_attempt : String → List Attempt → Option Attempt
find_attempt x [] = none
find_attempt x (a ∷ more) =
    let rest = find_attempt x more in if str_eq a.attempt_id x then some a else rest

unfoldable pub put_attempt : Attempt → List Attempt → List Attempt
put_attempt k [] = []
put_attempt k (a ∷ more) =
    let rest = put_attempt k more in if str_eq a.attempt_id k.attempt_id then k ∷ more else a ∷ rest

unfoldable pub drop_attempt : String → List Attempt → List Attempt
drop_attempt x [] = []
drop_attempt x (a ∷ more) =
    let rest = drop_attempt x more in if str_eq a.attempt_id x then more else a ∷ rest
