-- ===== src/Waiting/Head.antt =====
-- tatara-list.js: starting a head group, and the pools of one wallet.
use text.Mathlib.Text.{◌==◌ as str_eq}
use text.Mathlib.TextEquality.{eq_iff}
use lijox_lnd_adapter.Prelude.{
  ℕ, ◌+◌, ◌≤◌, ◌<◌, ◌≡◌, refl, sym, ◌∙◌, ◌==◌, ◌&&◌, ◌||◌, not, String, Bool, true, false, none,
  some, List, [], ◌∷◌, length, Bool-cases, Option-cases, inl, inr, arith,
}
use lijox_lnd_adapter.Waiting.State.{
  Settings, is_busy, Notice, Seat, State, has, find, update, tell, owner_busy,
}
use lijox_lnd_adapter.Waiting.Queue.{is_free, pick, head_group}
use lijox_lnd_adapter.Waiting.Start.{woken, wake_each, start_group}
use lijox_lnd_adapter.Waiting.Attempt.{owner_of}

abbrev one_if : Bool → ℕ
one_if true = 1
one_if false = 0

-- The seats of a wallet that are starting or in a pool.
abbrev pub busy_of : String → List Seat → ℕ
busy_of o [] = 0
busy_of o (s ∷ ss) = one_if (str_eq s.owner o && is_busy s.state) + busy_of o ss

-- No wallet has two of them.
abbrev pub OneEach : List Seat → Type 0
OneEach ss = (o : String) → busy_of o ss ≤ 1

free-none : (o : String) (ss : List Seat) → owner_busy o ss ≡ false → busy_of o ss ≡ 0
unfolding owner_busy
free-none o [] h = refl
free-none o (s ∷ ss) h = ground (arith, free-none o ss)

owner-woken : (t : ℕ) (a : String) (n : Notice) (s : Seat) → (woken t a n s).owner ≡ s.owner
unfolding tell
owner-woken t a n s = refl

id-woken : (t : ℕ) (a : String) (n : Notice) (s : Seat) → (woken t a n s).id ≡ s.id
unfolding tell
id-woken t a n s = refl

busy_if :
    (o : String) (s k : Seat)
    → k.owner ≡ s.owner
    → one_if (str_eq k.owner o && is_busy k.state) ≤ one_if (str_eq s.owner o)
busy_if o s k e = ground arith

busy-update :
    (t : ℕ) (a : String) (n : Notice) (x o p : String) (ss : List Seat)
    → owner_of x ss ≡ some p
    → busy_of o (update x (woken t a n) ss) ≤ busy_of o ss + one_if (str_eq p o)
unfolding update find
busy-update t a n x o p [] h = omega arith
busy-update t a n x o p (s ∷ ss) h = elim (Bool-cases (str_eq s.id x)) [
  | inl here ↦
      let e : some s.owner ≡ some p = rw (owner_of, here) at h in
      let q : s.owner ≡ p = cc in
      let w = busy_if o s (woken t a n s) (owner-woken t a n s) in rw (here, sym q) (omega arith)
  | inr past ↦
      let ih = busy-update t a n x o p ss (rw (owner_of, past) at h) in rw past (omega arith)
]

owner-update :
    (t : ℕ) (a : String) (n : Notice) (x y : String) (ss : List Seat)
    → owner_of y (update x (woken t a n) ss) ≡ owner_of y ss
unfolding update find tell
owner-update t a n x y [] = refl
owner-update t a n x y (s ∷ ss) = elim (Bool-cases (str_eq s.id x)) [
  | inl here ↦ elim (Bool-cases (str_eq s.id y)) [
    | inl same ↦ rw (owner_of, here, same) refl
    | inr other ↦ rw (owner_of, here, other) refl
  ]
  | inr past ↦ elim (Bool-cases (str_eq s.id y)) [
    | inl same ↦ rw (owner_of, past, same) refl
    | inr other ↦ rw (owner_of, past, other) (owner-update t a n x y ss)
  ]
]

-- The seats once these have been woken.
abbrev wake_seats : ℕ → String → Notice → List String → List Seat → List Seat
wake_seats t a n [] ss = ss
wake_seats t a n (x ∷ xs) ss = wake_seats t a n xs (update x (woken t a n) ss)

seats-wake_each :
    (t : ℕ) (a : String) (n : Notice) (xs : List String) (st : State)
    → (wake_each t a n xs st).seats ≡ wake_seats t a n xs st.seats
unfolding wake_each
seats-wake_each t a n [] st = refl
seats-wake_each t a n (x ∷ xs) st =
    seats-wake_each t a n xs (record st { seats = update x (woken t a n) st.seats })

-- Of the wallets that are not taken yet, none has got busier.
abbrev Kept : List Seat → List String → List Seat → Type 0
Kept before owners now =
    ((o : String) → busy_of o now ≤ 1)
    × ((o : String) → has o owners ≡ false → busy_of o now ≤ busy_of o before)
    × ((y : String) → owner_of y now ≡ owner_of y before)

owner-found :
    (x : String) (ss : List Seat) (s : Seat) → find x ss ≡ some s → owner_of x ss ≡ some s.owner
owner-found x ss s f = rw (owner_of, f) refl

mine-one :
    (p o : String) (next now : List Seat)
    → str_eq p o ≡ true
    → busy_of o next ≤ busy_of o now + one_if (str_eq p o)
    → busy_of p now ≤ 0
    → busy_of o next ≤ 1
mine-one p o next now e h z =
    let same : p ≡ o = ground (arith, eq_iff p o) in
    let w = rw e at h in let u = rw same at z in omega arith

neither : (a b : Bool) → (a || b) ≡ false → (a ≡ false) × (b ≡ false)
neither a b h = ground arith

idle_owner :
    (before : List Seat) (held : List String) (s : Seat) (taken : Bool)
    → (is_free before held s && not taken) ≡ true
    → (owner_busy s.owner before ≡ false) × (taken ≡ false)
unfolding is_free
idle_owner before held s taken h = ground arith

keep-Kept :
    (t : ℕ) (a : String) (n : Notice) (before now : List Seat) (owners : List String) (x : String)
    (s : Seat)
    → find x before ≡ some s
    → owner_busy s.owner before ≡ false
    → has s.owner owners ≡ false
    → Kept before owners now
    → Kept before (s.owner ∷ owners) (update x (woken t a n) now)
keep-Kept t a n before now owners x s f b h (one, same, owner) =
    let own : owner_of x now ≡ some s.owner = owner x ∙ owner-found x before s f in
    let idle = free-none s.owner before b in
    let step : (o : String)
        → busy_of o (update x (woken t a n) now) ≤ busy_of o now + one_if (str_eq s.owner o) =
      λ o. busy-update t a n x o s.owner now own in
    let quiet = same s.owner h in
    (
      λ o. elim (Bool-cases (str_eq s.owner o)) [
        | inl mine ↦ mine-one s.owner o (update x (woken t a n) now) now mine (step o) (omega arith)
        | inr theirs ↦ let w = rw theirs at (step o) in let u = one o in omega arith
      ],
      λ o u.
          let (theirs, free) = neither (str_eq s.owner o) (has o owners) u in
          let w = rw theirs at (step o) in let v = same o free in omega arith,
      λ y. owner-update t a n x y now ∙ owner y,
    )

module _ (max : ℕ) (seats : List Seat) (held owners : List String) (n : ℕ) (x : String)
    (q : List String) where
  pick-missing :
      find x seats ≡ none → pick max seats held owners n (x ∷ q) ≡ pick max seats held owners n q
  unfolding pick
  pick-missing f = rw (pick, f) refl

  pick-passed :
      (s : Seat)
      → find x seats ≡ some s
      → (is_free seats held s && not (has s.owner owners)) ≡ false
      → pick max seats held owners n (x ∷ q) ≡ pick max seats held owners n q
  unfolding pick
  pick-passed s f p = rw (pick, f, p) refl

  pick-last :
      (s : Seat)
      → find x seats ≡ some s
      → (is_free seats held s && not (has s.owner owners)) ≡ true
      → (n + 1 == max) ≡ true
      → pick max seats held owners n (x ∷ q) ≡ x ∷ []
  unfolding pick
  pick-last s f p l = rw (pick, f, p, l) refl

  pick-more :
      (s : Seat)
      → find x seats ≡ some s
      → (is_free seats held s && not (has s.owner owners)) ≡ true
      → (n + 1 == max) ≡ false
      → pick max seats held owners n (x ∷ q) ≡ x ∷ pick max seats held (s.owner ∷ owners) (n + 1) q
  unfolding pick
  pick-more s f p l = rw (pick, f, p, l) refl

pick-OneEach :
    (t : ℕ) (a : String) (m : Notice) (max : ℕ) (before : List Seat) (held owners : List String)
    (n : ℕ) (q : List String) (now : List Seat)
    → Kept before owners now
    → OneEach (wake_seats t a m (pick max before held owners n q) now)
unfolding pick
pick-OneEach t a m max before held owners n [] now k = k.0
pick-OneEach t a m max before held owners n (x ∷ q) now k = elim (Option-cases (find x before)) [
  | inl missing ↦
      rw (pick-missing max before held owners n x q missing)
        (pick-OneEach t a m max before held owners n q now k)
  | inr (s, f) ↦ elim (Bool-cases (is_free before held s && not (has s.owner owners))) [
    | inr passed ↦
        rw (pick-passed max before held owners n x q s f passed)
          (pick-OneEach t a m max before held owners n q now k)
    | inl taken ↦
        let (idle, fresh) = idle_owner before held s (has s.owner owners) taken in
        let kept = keep-Kept t a m before now owners x s f idle fresh k in
        elim (Bool-cases (n + 1 == max)) [
          | inl last ↦ rw (pick-last max before held owners n x q s f taken last) (kept.0)
          | inr more ↦ rw (pick-more max before held owners n x q s f taken more) (
              pick-OneEach t a m max before held (s.owner ∷ owners) (n + 1) q
                (update x (woken t a m) now) kept)
        ]
  ]
]

length-pick :
    (max : ℕ) (seats : List Seat) (held owners : List String) (n : ℕ) (q : List String)
    → n < max
    → n + length (pick max seats held owners n q) ≤ max
unfolding pick
length-pick max seats held owners n [] h = omega arith
length-pick max seats held owners n (x ∷ q) h = elim (Option-cases (find x seats)) [
  | inl missing ↦
      rw (pick-missing max seats held owners n x q missing)
        (length-pick max seats held owners n q h)
  | inr (s, f) ↦ elim (Bool-cases (is_free seats held s && not (has s.owner owners))) [
    | inr passed ↦
        rw (pick-passed max seats held owners n x q s f passed)
          (length-pick max seats held owners n q h)
    | inl taken ↦ elim (Bool-cases (n + 1 == max)) [
      | inl last ↦ rw (pick-last max seats held owners n x q s f taken last) (omega arith)
      | inr more ↦
          let ih = length-pick max seats held (s.owner ∷ owners) (n + 1) q (ground arith) in
          rw (pick-more max seats held owners n x q s f taken more) (omega arith)
    ]
  ]
]

-- The start of a head group takes at most as many seats as a pool may have, and leaves no wallet with
-- two seats that are starting or in a pool, if none had two before.
pub start_group-OneEach :
    (cfg : Settings) (fresh : ℕ → String) (t size : ℕ) (route : String) (st : State)
    → 0 < cfg.max_people
    → OneEach st.seats
    → (length (head_group cfg st route size) ≤ cfg.max_people)
      × OneEach (start_group cfg fresh t route size (head_group cfg st route size) 1 st).0.seats
start_group-OneEach cfg fresh t size route st h one = (
  unfold head_group in
      let l =
        length-pick cfg.max_people st.seats (st.reserved route size) [] 0 (st.queues route size)
          h in
      omega arith,
  unfold start_group head_group in
      λ o. rw (seats-wake_each t (fresh st.made) _ _ _) (
        pick-OneEach t (fresh st.made) _ cfg.max_people st.seats (st.reserved route size) [] 0
          (st.queues route size) st.seats (one, (λ p u. omega arith), (λ y. refl)) o),
)
