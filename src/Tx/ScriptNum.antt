-- ===== src/Tx/ScriptNum.antt =====
-- btc-tx.js: what a script interpreter reads of `scriptNum`'s bytes.
use lijox_lnd_adapter.Prelude.{
  ℕ, zero, suc, ◌+◌, ◌-◌, ◌*◌, ◌/◌, ◌≤◌, ◌<◌, ◌≡◌, refl, ap, ◌∙◌, ltb, leb, ◌==◌, if◌then◌else◌,
  ◌&&◌, Option, none, some, [], ◌∷◌, ◌++◌, length, length-append, Bool-cases, inl, inr, arith,
}
use lijox_lnd_adapter.Wire.Format.{Bytes}
use lijox_lnd_adapter.Tx.Script.{push_data, digits, last_byte, with_sign, script_num}

-- The number of little-endian bytes.
abbrev pub value : Bytes → ℕ
value [] = 0
value (b ∷ r) = b + 256 * value r

-- A number as the interpreter reads it: a small number's opcode, or a short push that is not
-- negative.
unfoldable pub read_num : Bytes → Option ℕ
read_num [] = none
read_num (op ∷ pushed) =
    if length pushed == 0
    then if op == 0 then some 0 else if leb 81 op && leb op 96 then some (op - 80) else none
    else if op == length pushed && (ltb op 76 && ltb (last_byte pushed) 128)
    then some (value pushed)
    else none

-- Fuel of the number itself is enough.
value-digits : (fuel v : ℕ) → v ≤ fuel → value (digits fuel v) ≡ v
unfolding digits
value-digits zero v h = omega arith
value-digits (suc fuel) v h = elim (Bool-cases (v == 0)) [
  | inl none_left ↦ ground arith
  | inr some_left ↦
      let ih = value-digits fuel (v / 256) (ground arith) in rw some_left (omega arith)
]

length-step :
    (n w : ℕ)
    → ((fuel v : ℕ) → v < w → length (digits fuel v) ≤ n)
    → (fuel v : ℕ) → v < 256 * w
    → length (digits fuel v) ≤ suc n
unfolding digits
length-step n w k zero v h = omega arith
length-step n w k (suc fuel) v h = let ih = k fuel (v / 256) (omega arith) in ground arith

length-zero : (fuel v : ℕ) → v < 1 → length (digits fuel v) ≤ 0
unfolding digits
length-zero zero v h = omega arith
length-zero (suc fuel) v h = ground arith

length-digits : (fuel v : ℕ) → v < 4294967296 → length (digits fuel v) ≤ 4
length-digits fuel v h =
    length-step 3 16777216 (length-step 2 65536 (length-step 1 256 (length-step 0 1 length-zero)))
      fuel v h

value-append : (b : Bytes) → value (b ++ 0 ∷ []) ≡ value b
value-append [] = refl
value-append (c ∷ r) = let ih = value-append r in omega arith

last-append : (b : Bytes) → last_byte (b ++ 0 ∷ []) ≡ 0
last-append [] = refl
last-append (c ∷ []) = refl
last-append (c ∷ d ∷ r) = last-append (d ∷ r)

value-with_sign : (b : Bytes) → value (with_sign b) ≡ value b
unfolding with_sign
value-with_sign b = let e = value-append b in ground arith

last-with_sign : (b : Bytes) → last_byte (with_sign b) < 128
unfolding with_sign
last-with_sign b = let e = last-append b in ground arith

length-with_sign : (b : Bytes) → length (with_sign b) ≤ suc (length b)
unfolding with_sign
length-with_sign b = let e = length-append b (0 ∷ []) in ground arith

read-push :
    (d : Bytes)
    → 1 ≤ length d
    → length d < 76
    → last_byte d < 128
    → read_num (push_data d) ≡ some (value d)
unfolding read_num push_data
read-push d l u s = ground arith

value-empty : (d : Bytes) → 1 ≤ value d → 1 ≤ length d
value-empty [] h = h
value-empty (b ∷ r) h = omega arith

-- A number below 2^32 is read back from what `scriptNum` writes.
pub read_num-script_num : (n : ℕ) → n < 4294967296 → read_num (script_num n) ≡ some n
unfolding script_num
read_num-script_num n h = elim (Bool-cases (n == 0)) [
  | inl is_zero ↦ rw is_zero (unfold read_num in ground arith)
  | inr positive ↦ elim (Bool-cases (leb n 16)) [
    | inl small ↦ rw (positive, small) (unfold read_num in ground arith)
    | inr large ↦
        let d = digits n n in
        let v = value-with_sign d ∙ value-digits n n (omega arith) in
        let l = length-with_sign d in
        let m = length-digits n n h in
        rw (positive, large)
          (read-push (with_sign d) (value-empty (with_sign d) (ground arith)) (omega arith)
              (last-with_sign d)
            ∙ ap some v)
  ]
]
