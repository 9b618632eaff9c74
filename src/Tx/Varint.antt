-- ===== src/Tx/Varint.antt =====
-- The numbers of btc-tx.js, read back: fixed widths and compact sizes.
use mathlib.Core.Path.{subst}
use lijox_lnd_adapter.Prelude.{
  ℕ, ◌+◌, ◌*◌, ◌/◌, ◌%◌, ◌≤◌, ◌<◌, ◌≡◌, refl, ap, ltb, leb, Bool-cases, inl, inr, length, arith,
}
use lijox_lnd_adapter.Wire.Format.{Bytes, ok}
use lijox_lnd_adapter.Wire.Get.{Get, ◌>>=◌, pure}
use lijox_lnd_adapter.Wire.Laws.{
  Reads, Reads-bind, Reads-last, Reads-pure, get_u8-Reads, get_bytes-Reads,
}
use lijox_lnd_adapter.Tx.Serialize.{le16, le32, le64, varint, u32, bytes_of}
use lijox_lnd_adapter.Tx.Parse.{get_le16, get_le32, get_le64, varint_of, get_varint, get_sized}

pub get_le16-Reads : (v : ℕ) → Reads get_le16 (le16 v) v
unfolding get_le16
get_le16-Reads v = record { at = λ rest. ap (λ n. ok (n, rest)) (omega arith) }

pub get_le32-Reads : (v : ℕ) → Reads get_le32 (le32 v) v
unfolding get_le32
get_le32-Reads v = record { at = λ rest. ap (λ n. ok (n, rest)) (omega arith) }

pub u32-Reads : (v : ℕ) → v < 4294967296 → Reads get_le32 (u32 v) v
unfolding u32
u32-Reads v h = rw (small v h) (get_le32-Reads v)
  where
    small : (n : ℕ) → n < 4294967296 → n % 4294967296 ≡ n
    small n p = omega arith

pub Reads-is : {A : Type 0} {g : Get A} {xs : Bytes} {a b : A} → a ≡ b → Reads g xs a → Reads g xs b
Reads-is {g = g} {xs = xs} e h = subst (λ x. Reads g xs x) e h

pub get_le64-Reads : (v : ℕ) → Reads get_le64 (le64 v) v
unfolding get_le64
get_le64-Reads v = Reads-is (back v) (
    Reads-bind _ _ (get_le32-Reads (v % 4294967296))
      (Reads-last _ (λ high. v % 4294967296 + high * 4294967296) (get_le32-Reads (v / 4294967296))))
  where
    back : (n : ℕ) → n % 4294967296 + n / 4294967296 * 4294967296 ≡ n
    back n = omega arith

-- The numbers that a double holds exactly.
abbrev pub IsSafe : ℕ → Type 0
IsSafe n = n ≤ 9007199254740992

module _ (num : ℕ → ℕ) (exact : (n : ℕ) → IsSafe n → num n ≡ n) where
  pub num64-Reads : (v : ℕ) → IsSafe v → Reads (get_le64 >>= λ n. pure (num n)) (le64 v) v
  num64-Reads v h = Reads-is (exact v h) (Reads-last _ num (get_le64-Reads v))

  pub get_varint-Reads : (n : ℕ) → IsSafe n → Reads (get_varint num) (varint n) n
  unfolding get_varint varint varint_of
  get_varint-Reads n h = elim (Bool-cases (ltb n 253)) [
    | inl one ↦ rw one (Reads-bind _ _ (get_u8-Reads n) (rw one (Reads-pure n)))
    | inr more ↦ elim (Bool-cases (leb n 65535)) [
      | inl two ↦ rw (more, two) (Reads-bind _ _ (get_u8-Reads 253) (get_le16-Reads n))
      | inr above ↦ elim (Bool-cases (leb n 4294967295)) [
        | inl four ↦ rw (more, above, four) (Reads-bind _ _ (get_u8-Reads 254) (get_le32-Reads n))
        | inr eight ↦ rw (more, above, eight) (Reads-bind _ _ (get_u8-Reads 255) (num64-Reads n h))
      ]
    ]
  ]

  pub get_sized-Reads : (b : Bytes) → IsSafe (length b) → Reads (get_sized num) (bytes_of b) b
  unfolding get_sized bytes_of
  get_sized-Reads b h =
      Reads-bind _ _ (get_varint-Reads (length b) h) (get_bytes-Reads (length b) b refl)
