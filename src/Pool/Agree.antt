-- ===== src/Pool/Agree.antt =====
-- tatara-channels.js against btc-tx.js: two readers of a transaction's inputs.
use mathlib.Core.List.{map, reverse}
use lijox_lnd_adapter.Prelude.{
  ℕ, zero, suc, ◌+◌, ◌≡◌, refl, sym, ap, ◌∙◌, Bool, true, false, some, List, [], ◌∷◌, drop, inl,
  inr, arith, ◌⊎◌,
}
use lijox_lnd_adapter.Wire.Format.{Bytes, Result, ok, err}
use lijox_lnd_adapter.Wire.Get.{Get, ◌>>=◌, pure, get_bytes, read_many, continue, get_u8}
use lijox_lnd_adapter.Tx.Parse.{
  ParsedIn, Parsed, get_le32, get_varint, get_sized, get_input, get_output, get_witness,
  add_witnesses, get_witnesses, get_body, get_marker, get_tx, all_read, parse,
}
use lijox_lnd_adapter.Pool.Inputs.{Point, skip, skip_marker, get_point, get_points, inputs_of}

abbrev pub point_of : ParsedIn → Point
point_of i = record { txid = i.txid; vout = i.vout }

-- What a bind has read, it has read in two steps.
bind-ok :
    {A B : Type 0} (m : Get A) (f : A → Get B) (r s : Bytes) (b : B)
    → (m >>= f) r ≡ ok (b, s)
    → (a : A) × (t : Bytes) × (m r ≡ ok (a, t)) × (f a t ≡ ok (b, s))
unfolding ◌>>=◌
bind-ok {A} {B} m f r s b h = go (m r) refl h
  where
    go :
        (x : Result (A × Bytes))
        → m r ≡ x
        → continue x f ≡ ok (b, s)
        → (a : A) × (t : Bytes) × (m r ≡ ok (a, t)) × (f a t ≡ ok (b, s))
    go (ok (a, t)) e k = (a, t, e, k)
    go (err x) e k = cc

bind-then :
    {A B : Type 0} {P : Type 0} (m : Get A) (f : A → Get B) (r s : Bytes) (b : B)
    → (m >>= f) r ≡ ok (b, s)
    → ((a : A) (t : Bytes) → m r ≡ ok (a, t) → f a t ≡ ok (b, s) → P)
    → P
bind-then m f r s b h k = let (a, t, e, g) = bind-ok m f r s b h in k a t e g

le32-drop : (r s : Bytes) (v : ℕ) → get_le32 r ≡ ok (v, s) → s ≡ drop 4 r
unfolding get_le32
le32-drop r s v h = ground arith

bytes-drop : (n : ℕ) (r s b : Bytes) → get_bytes n r ≡ ok (b, s) → s ≡ drop n r
unfolding get_bytes
bytes-drop n r s b h = ground arith

drop_nil : (n : ℕ) → ◌≡◌ {A = Bytes} (drop n []) []
drop_nil zero = refl
drop_nil (suc n) = refl

drop-drop : (n : ℕ) (r : Bytes) → drop 4 (drop n r) ≡ drop (n + 4) r
drop-drop zero r = refl
drop-drop (suc n) [] = sym (drop_nil (suc n + 4))
drop-drop (suc n) (x ∷ r) = let e : suc n + 4 ≡ suc (n + 4) = omega arith in rw e (drop-drop n r)

abbrev point_result : Result (ParsedIn × Bytes) → Result (Point × Bytes)
point_result (ok (i, s)) = ok (point_of i, s)
point_result (err e) = err e

abbrev points_result : Result (List ParsedIn × Bytes) → Result (List Point × Bytes)
points_result (ok (is, s)) = ok (map point_of is, s)
points_result (err e) = err e

abbrev points_in : Result (List ParsedIn × Bytes) → List Point
points_in (ok (is, s)) = map point_of is
points_in (err e) = []

abbrev tx_points : Result (Parsed × Bytes) → List Point
tx_points (ok (tx, s)) = map point_of tx.inputs
tx_points (err e) = []

module _ (num : ℕ → ℕ) where
  point-read :
      (r r1 r2 r3 r4 s id script : Bytes) (index l seq : ℕ)
      → get_bytes 32 r ≡ ok (id, r1)
      → get_le32 r1 ≡ ok (index, r2)
      → get_varint num r2 ≡ ok (l, r4)
      → get_bytes l r4 ≡ ok (script, r3)
      → get_le32 r3 ≡ ok (seq, s)
      → get_point num r ≡ ok (record { txid = reverse id; vout = index }, s)
  unfolding get_point skip pure ◌>>=◌
  point-read r r1 r2 r3 r4 s id script index l seq e1 e2 e3 e4 e5 =
      let stop : drop (l + 4) r4 ≡ s =
        sym (drop-drop l r4)
        ∙ ap (drop 4) (sym (bytes-drop l r4 r3 script e4))
        ∙ sym (le32-drop r3 s seq e5) in
      rw (e1, e2, e3) (ap (λ z. ok (record { txid = reverse id; vout = index }, z)) stop)

  -- An input that btc-tx.js reads, the watch reads as its point, and stops at the same byte.
  get_input-point :
      (r s : Bytes) (i : ParsedIn)
      → get_input num r ≡ ok (i, s)
      → get_point num r ≡ ok (point_of i, s)
  unfolding get_input get_sized pure
  get_input-point r s i h = bind-then (get_bytes 32) _ r s i h (λ id r1 e1 h1.
      bind-then get_le32 _ r1 s i h1 (λ index r2 e2 h2.
        bind-then (get_sized num) _ r2 s i h2 (λ script r3 e3 h3.
          bind-then (get_varint num) get_bytes r2 r3 script e3 (λ l r4 e4 h4.
            bind-then get_le32 _ r3 s i h3 (λ seq r5 e5 h5.
              finish id index script seq r5
                (point-read r r1 r2 r3 r4 r5 id script index l seq e1 e2 e4 h4 e5) h5)))))
    where
      finish :
          (id : Bytes) (index : ℕ) (script : Bytes) (seq : ℕ) (t : Bytes)
          → get_point num r ≡ ok (record { txid = reverse id; vout = index }, t)
          → ◌≡◌ {A = Result (ParsedIn × Bytes)}
              (ok (
                record {
                  txid = reverse id;
                  vout = index;
                  script_sig = script;
                  sequence = seq;
                  witness = [];
                },
                t,
              ))
              (ok (i, s))
          → get_point num r ≡ ok (point_of i, s)
      finish id index script seq t e g = e ∙ ap point_result g

  many-points :
      (n : ℕ) (r s : Bytes) (is : List ParsedIn)
      → read_many n (get_input num) r ≡ ok (is, s)
      → read_many n (get_point num) r ≡ ok (map point_of is, s)
  unfolding read_many pure
  many-points zero r s is h = ap points_result h
  many-points (suc n) r s is h = bind-then (get_input num) _ r s is h (λ i t e g.
      bind-then (read_many n (get_input num)) _ t s is g (λ js u f k.
        more r t u i js (get_input-point r t i e) (many-points n t u js f) ∙ ap points_result k))
    where
      more :
          (r t u : Bytes) (i : ParsedIn) (js : List ParsedIn)
          → get_point num r ≡ ok (point_of i, t)
          → read_many n (get_point num) t ≡ ok (map point_of js, u)
          → read_many (suc n) (get_point num) r ≡ ok (point_of i ∷ map point_of js, u)
      more r t u i js e f = unfold ◌>>=◌ in rw (e, f) refl

  witnesses-points :
      (is js : List ParsedIn) (r s : Bytes)
      → add_witnesses num is r ≡ ok (js, s)
      → map point_of js ≡ map point_of is
  unfolding add_witnesses pure
  witnesses-points [] js r s h = ap points_in (sym h)
  witnesses-points (i ∷ is) js r s h = bind-then (get_witness num) _ r s js h (λ w t e g.
      bind-then (add_witnesses num is) _ t s js g (λ ks u f k.
        ap points_in (sym k) ∙ ap (λ z. point_of i ∷ z) (witnesses-points is ks t u f)))

  either-points :
      (segwit : Bool) (is js : List ParsedIn) (r s : Bytes)
      → get_witnesses num segwit is r ≡ ok (js, s)
      → map point_of js ≡ map point_of is
  unfolding get_witnesses pure
  either-points true is js r s h = witnesses-points is js r s h
  either-points false is js r s h = ap points_in (sym h)

  marker-skip :
      (r t : Bytes) (segwit : Bool)
      → get_marker true r ≡ ok (segwit, t)
      → (t ≡ skip_marker r) ⊎ (t ≡ [])
  unfolding get_marker skip_marker
  marker-skip r t segwit h = ground arith

  points-read :
      (r r1 r2 : Bytes) (n : ℕ) (is js : List ParsedIn) (tx : Parsed)
      → get_varint num r ≡ ok (n, r1)
      → read_many n (get_input num) r1 ≡ ok (is, r2)
      → map point_of js ≡ map point_of is
      → map point_of tx.inputs ≡ map point_of js
      → get_points num r ≡ ok (map point_of tx.inputs, r2)
  unfolding get_points ◌>>=◌
  points-read r r1 r2 n is js tx e f w v =
      rw e (many-points n r1 r2 is f ∙ ap (λ z. ok (z, r2)) (sym w ∙ sym v))

  body-points :
      (version : ℕ) (segwit : Bool) (r s : Bytes) (tx : Parsed)
      → get_body num version segwit r ≡ ok (tx, s)
      → (t : Bytes) × (get_points num r ≡ ok (map point_of tx.inputs, t))
  unfolding get_body get_points pure
  body-points version segwit r s tx h = bind-then (get_varint num) _ r s tx h (λ n r1 e1 h1.
      bind-then (read_many n (get_input num)) _ r1 s tx h1 (λ is r2 e2 h2.
        bind-then (get_varint num) _ r2 s tx h2 (λ m r3 e3 h3.
          bind-then (read_many m (get_output num)) _ r3 s tx h3 (λ os r4 e4 h4.
            bind-then (get_witnesses num segwit is) _ r4 s tx h4 (λ js r5 e5 h5.
              bind-then get_le32 _ r5 s tx h5 (λ lock r6 e6 h6. (
                r2,
                points-read r r1 r2 n is js tx e1 e2 (either-points segwit is js r4 r5 e5)
                    (ap tx_points (sym h6)),
              )))))))

  no_body :
      (version : ℕ) (segwit : Bool) (s : Bytes) (tx : Parsed)
      → get_body num version segwit [] ≡ ok (tx, s)
      → ⊥
  unfolding get_body get_varint get_u8 ◌>>=◌
  no_body version segwit s tx h = cc

  all_read-ok :
      (x : Result (Parsed × Bytes)) (tx : Parsed) → all_read num x ≡ some tx → x ≡ ok (tx, [])
  all_read-ok (ok (k, [])) tx h = let e : k ≡ tx = cc in rw e refl
  all_read-ok (ok (k, c ∷ r)) tx h = cc
  all_read-ok (err e) tx h = cc

  -- The points behind the version and the marker.
  tail-points :
      (version : ℕ) (segwit : Bool) (r t s : Bytes) (tx : Parsed)
      → get_marker true r ≡ ok (segwit, t)
      → get_body num version segwit t ≡ ok (tx, s)
      → (u : Bytes) × (get_points num (skip_marker r) ≡ ok (map point_of tx.inputs, u))
  tail-points version segwit r t s tx m h = elim (marker-skip r t segwit m) [
    | inl e ↦ let (u, p) = body-points version segwit t s tx h in (u, rw (sym e) p)
    | inr e ↦ absurd (no_body version segwit s tx (rw e at h))
  ]

  -- Whatever transaction btc-tx.js reads out of some bytes, the watch reads its inputs' outpoints, in
  -- their order, out of the same bytes.
  pub inputs_of-parse :
      (b : Bytes) (tx : Parsed)
      → parse num true b ≡ some tx
      → inputs_of num b ≡ some (map point_of tx.inputs)
  inputs_of-parse b tx h =
      let read = all_read-ok (get_tx num true b) tx (unfold parse in h) in
      let parts : (get_le32 >>= λ v. get_marker true >>= get_body num v) b ≡ ok (tx, []) =
        unfold get_tx in read in
      bind-then get_le32 _ b [] tx parts (λ v r e g.
        bind-then (get_marker true) (get_body num v) r [] tx g (λ segwit t m k.
          let (u, p) = tail-points v segwit r t [] tx m k in
          let same = le32-drop b r v e in unfold inputs_of in rw (sym same, p) refl))
