-- ===== src/Waiting/Restore.antt =====
-- tatara-list.js: what a restart leaves of what was in progress.
use text.Mathlib.Text.{◌==◌ as str_eq}
use text.Mathlib.TextEquality.{eq_iff}
use lijox_lnd_adapter.Prelude.{
  ℕ, ◌≡◌, refl, sym, ap, ◌∙◌, ◌||◌, String, true, false, some, List, [], ◌∷◌, Bool-cases, inl, inr,
  arith,
}
use lijox_lnd_adapter.Waiting.State.{
  is_busy, is_signed, Seat, Attempt, State, has, find, is_seat, find_attempt, tell, send_back,
}
use lijox_lnd_adapter.Waiting.Seats.{restored, restore_seats, only_signed, only_seats, restore}

id-restored :
    (t : ℕ) (s : Seat) → ((restored t s).id ≡ s.id) × (is_busy (restored t s).state ≡ false)
unfolding restored send_back tell
id-restored t s = elim (Bool-cases (is_busy s.state)) [
  | inl busy ↦ rw busy (refl, refl)
  | inr free ↦ rw free (refl, free)
]

find-restored :
    (t : ℕ) (x : String) (ss : List Seat) (k : Seat)
    → find x (restore_seats t ss) ≡ some k
    → is_busy k.state ≡ false
unfolding find restore_seats
find-restored t x [] k h = cc
find-restored t x (s ∷ ss) k h = elim (Bool-cases (str_eq (restored t s).id x)) [
  | inl here ↦
      let e : some (restored t s) ≡ some k = rw here at h in
      let same : restored t s ≡ k = cc in rw (sym same) ((id-restored t s).1)
  | inr past ↦ find-restored t x ss k (rw past at h)
]

is_seat-restored :
    (t : ℕ) (x : String) (ss : List Seat) → is_seat x (restore_seats t ss) ≡ is_seat x ss
unfolding restore_seats
is_seat-restored t x [] = refl
is_seat-restored t x (s ∷ ss) =
    rw ((id-restored t s).0) (ap (λ b. str_eq s.id x || b) (is_seat-restored t x ss))

signed-only :
    (a : String) (ks : List Attempt) (k : Attempt)
    → find_attempt a (only_signed ks) ≡ some k
    → is_signed k.phase ≡ true
unfolding find_attempt only_signed
signed-only a [] k h = cc
signed-only a (j ∷ js) k h = elim (Bool-cases (is_signed j.phase)) [
  | inr going ↦ signed-only a js k (rw going at h)
  | inl done ↦ elim (Bool-cases (str_eq j.attempt_id a)) [
    | inl here ↦
        let e : some j ≡ some k = rw (done, here) at h in
        let same : j ≡ k = cc in rw (sym same) done
    | inr past ↦ signed-only a js k (rw (done, past) at h)
  ]
]

queue-only :
    (x : String) (seats : List Seat) (q : List String)
    → has x (only_seats seats q) ≡ true
    → is_seat x seats ≡ true
unfolding only_seats
queue-only x seats [] h = cc
queue-only x seats (y ∷ q) h = ground (arith, eq_iff y x, queue-only x seats q)

-- After a restart no seat is starting or in a pool, no start is left, every attempt is signed, the seats
-- are the same, and a queue names seats only.
pub restore_lem :
    (t : ℕ) (st : State)
    → ((x : String) (s : Seat) → find x (restore t st).seats ≡ some s → is_busy s.state ≡ false)
      × ((restore t st).starts ≡ [])
      × ((a : String) (k : Attempt)
          → find_attempt a (restore t st).attempts ≡ some k
          → is_signed k.phase ≡ true)
      × ((x : String) → is_seat x (restore t st).seats ≡ is_seat x st.seats)
      × ((x route : String) (size : ℕ)
          → has x ((restore t st).queues route size) ≡ true
          → is_seat x (restore t st).seats ≡ true)
unfolding restore
restore_lem t st = (
  λ x s. find-restored t x st.seats s,
  refl,
  λ a k. signed-only a st.attempts k,
  λ x. is_seat-restored t x st.seats,
  λ x route size h. is_seat-restored t x st.seats ∙ queue-only x st.seats (st.queues route size) h,
)
