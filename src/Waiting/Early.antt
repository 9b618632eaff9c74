-- ===== src/Waiting/Early.antt =====
-- tatara-list.js: a seat that opened and then leaves closes the start for the others.
use text.Mathlib.Text.{◌==◌ as str_eq}
use text.Mathlib.TextEquality.{eq_iff}
use lijox_lnd_adapter.Prelude.{
  ℕ, ◌≡◌, refl, sym, String, true, false, some, List, [], ◌∷◌, length, Bool-cases, inl, inr, arith,
}
use lijox_lnd_adapter.Waiting.State.{
  starting, Seat, Start, State, has, without, find, is_seat, delete, find_start, put_start,
  erase_seat,
}
use lijox_lnd_adapter.Waiting.Seats.{leave}
use lijox_lnd_adapter.Waiting.Start.{present, absent}
use lijox_lnd_adapter.Waiting.Tick.{is_due}

-- The start once this seat has left it.
abbrev pub left_by : String → Start → Start
left_by x sp = record sp { seats = without x sp.seats }

find-put :
    (k sp : Start) (sps : List Start)
    → find_start k.attempt_id sps ≡ some sp
    → find_start k.attempt_id (put_start k sps) ≡ some k
unfolding find_start put_start
find-put k sp [] h = cc
find-put k sp (s ∷ sps) h = elim (Bool-cases (str_eq s.attempt_id k.attempt_id)) [
  | inl here ↦
      let own : str_eq k.attempt_id k.attempt_id ≡ true =
        ground (arith, eq_iff k.attempt_id k.attempt_id) in
      rw (here, own) refl
  | inr past ↦ rw (past, past) (find-put k sp sps (rw past at h))
]

has-without :
    (x y : String) (ys : List String)
    → str_eq y x ≡ false
    → has y ys ≡ true
    → has y (without x ys) ≡ true
unfolding without
has-without x y [] n h = h
has-without x y (z ∷ zs) n h =
    ground (arith, eq_iff z x, eq_iff y x, eq_iff z y, has-without x y zs n)

seat-delete :
    (x y : String) (ss : List Seat)
    → str_eq y x ≡ false
    → is_seat y ss ≡ true
    → is_seat y (delete x ss) ≡ true
unfolding delete
seat-delete x y [] n h = h
seat-delete x y (s ∷ ss) n h =
    ground (arith, eq_iff s.id x, eq_iff y x, eq_iff s.id y, seat-delete x y ss n)

has-present :
    (y : String) (seats : List Seat) (xs : List String)
    → has y xs ≡ false
    → has y (present seats xs) ≡ false
unfolding present
has-present y seats [] h = refl
has-present y seats (x ∷ xs) h = ground (arith, has-present y seats xs)

seat_of :
    (x y : String) (seats : List Seat)
    → is_seat y seats ≡ true
    → str_eq x y ≡ true
    → is_seat x seats ≡ true
seat_of x y seats s e = let same : x ≡ y = ground (arith, eq_iff x y) in rw same s

opened_of :
    (x y : String) (opened : List String)
    → has y opened ≡ false
    → str_eq x y ≡ true
    → has x opened ≡ false
opened_of x y opened o e = let same : x ≡ y = ground (arith, eq_iff x y) in rw same o

has-absent :
    (y : String) (seats : List Seat) (opened xs : List String)
    → is_seat y seats ≡ true
    → has y opened ≡ false
    → has y xs ≡ true
    → has y (absent seats opened xs) ≡ true
unfolding absent
has-absent y seats opened [] s o h = h
has-absent y seats opened (x ∷ xs) s o h = ground (
  arith,
  eq_iff x y,
  has-absent y seats opened xs s o,
  seat_of x y seats s,
  opened_of x y opened o,
)

id-found : (x : String) (ss : List Seat) (s : Seat) → find x ss ≡ some s → s.id ≡ x
unfolding find
id-found x [] s h = cc
id-found x (k ∷ ks) s h = elim (Bool-cases (str_eq k.id x)) [
  | inl here ↦
      let e : some k ≡ some s = rw here at h in
      let same : k ≡ s = cc in let is : k.id ≡ x = ground (arith, eq_iff k.id x) in rw (sym same) is
  | inr past ↦ id-found x ks s (rw past at h)
]

-- What `leave` makes of a seat that is starting.
leave-starting :
    (x : String) (s : Seat) (sp : Start) (st : State)
    → find x st.seats ≡ some s
    → s.state ≡ starting
    → s.attempt_id ≡ some sp.attempt_id
    → find_start sp.attempt_id st.starts ≡ some sp
    → ((leave x st).0.starts ≡ put_start (left_by x sp) st.starts)
      × ((leave x st).0.seats ≡ delete x st.seats)
unfolding leave erase_seat
leave-starting x s sp st f stage named found =
    let own = id-found x st.seats s f in
    rw (leave, f, stage, named, found) (rw f (refl, rw own refl))

-- A seat leaves its start, and as many seats are left as opens were counted, its own among them if it
-- had opened: the start is due at once, however far off its deadline, and a seat that has not opened
-- yet is among those that are taken to have missed it.
pub leave-closes_early :
    (x y : String) (s : Seat) (sp : Start) (st : State) (t : ℕ)
    → find x st.seats ≡ some s
    → s.state ≡ starting
    → s.attempt_id ≡ some sp.attempt_id
    → find_start sp.attempt_id st.starts ≡ some sp
    → length (without x sp.seats) ≡ length sp.opened
    → str_eq y x ≡ false
    → has y sp.seats ≡ true
    → has y sp.opened ≡ false
    → is_seat y st.seats ≡ true
    → (find_start sp.attempt_id (leave x st).0.starts ≡ some (left_by x sp))
      × (is_due t (left_by x sp) ≡ true)
      × (has y (
            absent
              (leave x st).0.seats
              (present (leave x st).0.seats sp.opened)
              (left_by x sp).seats)
          ≡ true)
leave-closes_early x y s sp st t f stage named found even n sits late here =
    let (starts, seats) = leave-starting x s sp st f stage named found in
    (
      rw starts (find-put (left_by x sp) sp st.starts found),
      unfold is_due in ground arith,
      rw seats (
          has-absent y (delete x st.seats) (present (delete x st.seats) sp.opened)
            (without x sp.seats) (seat-delete x y st.seats n here)
            (has-present y (delete x st.seats) sp.opened late) (has-without x y sp.seats n sits)),
    )
