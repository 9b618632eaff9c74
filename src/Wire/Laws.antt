-- ===== src/Wire/Laws.antt =====
-- What each writer of `Wire.Put` appends, what each reader of `Wire.Get` takes, and the two rules
-- that chain them. `search` proves a message's round trip from these.
use lijox_lnd_adapter.Prelude.{
  ℕ, ◌/◌, ◌%◌, ◌≤◌, ◌<◌, ◌≡◌, refl, sym, ap, ◌∙◌, le→ltb, le→leb, Option, none, some, List, [], ◌∷◌,
  ◌++◌, append-nil, append_assoc, arith, length, take-append_self, drop-append_self, length-append,
}
use lijox_lnd_adapter.Wire.Format.{
  Bytes, ok, be16, be32, be64, of_be16_lem, of_be32_lem, of_be64_lem,
}
use lijox_lnd_adapter.Wire.Put.{
  Put, ◌>>◌, put_bytes, put_u8, put_u16, put_u32, put_u64, write_version, write_bytes_u16,
  write_bytes_u32, write_hash32, write_pubkey, write_option, write_each,
}
use lijox_lnd_adapter.Wire.Get.{
  Get, ◌>>=◌, pure, get_bytes, get_u8, get_u16, get_u32, get_u64, check_version, read_version,
  read_bytes_u16, read_bytes_u32, read_hash32, read_pubkey, of_tag, read_option, read_many,
}

-- `p` succeeds and appends `bs`.
pub record Writes (p : Put) (bs : Bytes) : Type 0 where
  pub at : (w : Bytes) → p w ≡ ok (w ++ bs)

-- `g` takes `bs` off the front, whatever follows, and answers `a`.
pub record Reads {A : Type 0} (g : Get A) (bs : Bytes) (a : A) : Type 0 where
  pub at : (rest : Bytes) → g (bs ++ rest) ≡ ok (a, rest)

pub Writes-seq :
    {p q : Put} {xs ys : Bytes} → Writes p xs → Writes q ys → Writes (p >> q) (xs ++ ys)
unfolding ◌>>◌
Writes-seq {xs = xs} {ys = ys} hp hq = record {
  at = λ w. rw (hp.at w) (hq.at (w ++ xs) ∙ ap ok (append_assoc w xs ys));
}

pub Reads-bind :
    {A B : Type 0} (g : Get A) (f : A → Get B) {xs ys : Bytes} {a : A} {b : B}
    → Reads g xs a
    → Reads (f a) ys b
    → Reads (g >>= f) (xs ++ ys) b
unfolding ◌>>=◌
Reads-bind g f {xs} {ys} hg hf = record {
  at = λ rest. rw (append_assoc xs ys rest, hg.at (ys ++ rest)) (hf.at rest);
}

pub Reads-pure : {A : Type 0} (a : A) → Reads (pure a) [] a
unfolding pure
Reads-pure a = record { at = λ rest. refl }

pub put_u8-Writes : (v : ℕ) → v < 256 → Writes (put_u8 v) (v ∷ [])
unfolding put_u8
put_u8-Writes v h = record { at = λ w. ground arith }

pub put_u16-Writes : (v : ℕ) → v < 65536 → Writes (put_u16 v) (be16 v)
unfolding put_u16
put_u16-Writes v h = record { at = λ w. ground arith }

pub put_u32-Writes : (v : ℕ) → v < 4294967296 → Writes (put_u32 v) (be32 v)
unfolding put_u32
put_u32-Writes v h = record { at = λ w. rw (le→ltb 4294967295 v (omega arith)) }

pub put_u64-Writes : (v : ℕ) → v < 18446744073709551616 → Writes (put_u64 v) (be64 v)
unfolding put_u64
put_u64-Writes v h = record { at = λ w. rw (le→ltb 18446744073709551615 v (omega arith)) }

pub get_u8-Reads : (v : ℕ) → Reads get_u8 (v ∷ []) v
unfolding get_u8
get_u8-Reads v = record { at = λ rest. refl }

pub get_u16-Reads : (v : ℕ) → Reads get_u16 (be16 v) v
unfolding get_u16
get_u16-Reads v = record { at = λ rest. ap (λ n. ok (n, rest)) (of_be16_lem v) }

pub get_u32-Reads : (v : ℕ) → Reads get_u32 (be32 v) v
unfolding get_u32
get_u32-Reads v = record { at = λ rest. ap (λ n. ok (n, rest)) (of_be32_lem v) }

pub get_u64-Reads : (v : ℕ) → Reads get_u64 (be64 v) v
unfolding get_u64
get_u64-Reads v = record {
  at = λ rest.
      ap (λ n. ok (n, rest))
        (omega (arith, of_be32_lem (v / 4294967296), of_be32_lem (v % 4294967296), of_be64_lem v));
}

pub put_bytes-Writes : (b : Bytes) → Writes (put_bytes b) b
unfolding put_bytes
put_bytes-Writes b = record { at = λ w. refl }

pub get_bytes-Reads : (n : ℕ) (b : Bytes) → length b ≡ n → Reads (get_bytes n) b b
unfolding get_bytes
get_bytes-Reads n b e = record {
  at = λ rest.
      rw (← e, le→leb (length b) (length (b ++ rest)) (omega (arith, length-append {0} b rest)))
        (rw (take-append_self b rest, drop-append_self b rest));
}

pub write_version-Writes : Writes write_version (2 ∷ [])
unfolding write_version
write_version-Writes = put_u8-Writes 2 (omega arith)

pub read_version-Reads : Reads read_version (2 ∷ []) tt
unfolding read_version get_u8 check_version ◌>>=◌
read_version-Reads = record { at = λ rest. refl }

pub write_hash32-Writes : (h : Bytes) → length h ≡ 32 → Writes (write_hash32 h) h
unfolding write_hash32
write_hash32-Writes h e = rw e (put_bytes-Writes h)

pub read_hash32-Reads : (h : Bytes) → length h ≡ 32 → Reads read_hash32 h h
unfolding read_hash32
read_hash32-Reads h e = get_bytes-Reads 32 h e

pub write_pubkey-Writes : (k : Bytes) → length k ≡ 33 → Writes (write_pubkey k) k
unfolding write_pubkey
write_pubkey-Writes k e = rw e (put_bytes-Writes k)

pub read_pubkey-Reads : (k : Bytes) → length k ≡ 33 → Reads read_pubkey k k
unfolding read_pubkey
read_pubkey-Reads k e = get_bytes-Reads 33 k e

-- The last field of a layout that `join` builds.
pub Writes-last : {p : Put} {xs : Bytes} → Writes p xs → Writes p (xs ++ [])
Writes-last {xs} h = rw (append-nil xs) h

-- A value read and passed on.
pub Reads-last :
    {A B : Type 0} (g : Get A) (f : A → B) {xs : Bytes} {a : A}
    → Reads g xs a
    → Reads (g >>= λ x. pure (f x)) xs (f a)
unfolding ◌>>=◌ pure
Reads-last g f h = record { at = λ rest. rw (h.at rest) }

abbrev pub framed_u16 : Bytes → Bytes
framed_u16 b = be16 (length b) ++ b

abbrev pub framed_u32 : Bytes → Bytes
framed_u32 b = be32 (length b) ++ b

pub write_bytes_u16-Writes :
    (b : Bytes) → length b < 65536 → Writes (write_bytes_u16 b) (framed_u16 b)
unfolding write_bytes_u16
write_bytes_u16-Writes b h =
    rw (le→ltb 65535 (length b) (omega arith))
      (Writes-seq (put_u16-Writes (length b) h) (put_bytes-Writes b))

pub read_bytes_u16-Reads : (b : Bytes) → Reads read_bytes_u16 (framed_u16 b) b
unfolding read_bytes_u16
read_bytes_u16-Reads b =
    Reads-bind _ _ (get_u16-Reads (length b)) (get_bytes-Reads (length b) b refl)

pub write_bytes_u32-Writes :
    (b : Bytes) (max : ℕ)
    → length b ≤ max
    → max < 4294967296
    → Writes (write_bytes_u32 b max) (framed_u32 b)
unfolding write_bytes_u32
write_bytes_u32-Writes b max h k =
    rw (le→ltb max (length b) h)
      (Writes-seq (put_u32-Writes (length b) (omega arith)) (put_bytes-Writes b))

pub read_bytes_u32-Reads :
    (b : Bytes) (max : ℕ) → length b ≤ max → Reads (read_bytes_u32 max) (framed_u32 b) b
unfolding read_bytes_u32
read_bytes_u32-Reads b max h =
    Reads-bind _ _ (get_u32-Reads (length b))
      (rw (le→ltb max (length b) h) (get_bytes-Reads (length b) b refl))

-- One tag byte, then the value.
abbrev pub option_layout : {A : Type 0} → (A → Bytes) → Option A → Bytes
option_layout layout none = 0 ∷ []
option_layout layout (some a) = (1 ∷ []) ++ layout a

abbrev pub AllSome : {A : Type 0} → (A → Type 0) → Option A → Type 0
AllSome P none = Unit
AllSome P (some a) = P a

abbrev pub All : {A : Type 0} → (A → Type 0) → List A → Type 0
All P [] = Unit
All P (x ∷ xs) = P x × All P xs

abbrev pub concat : {A : Type 0} → (A → Bytes) → List A → Bytes
concat layout [] = []
concat layout (x ∷ xs) = layout x ++ concat layout xs

module _ {A : Type 0} (P : A → Type 0) (layout : A → Bytes) where
  module _ (inner : A → Put) (step : (a : A) → P a → Writes (inner a) (layout a)) where
    pub write_option-Writes :
        (o : Option A) → AllSome P o → Writes (write_option o inner) (option_layout layout o)
    unfolding write_option
    write_option-Writes none h = put_u8-Writes 0 (omega arith)
    write_option-Writes (some a) h = Writes-seq (put_u8-Writes 1 (omega arith)) (step a h)

    pub write_each-Writes :
        (xs : List A) → All P xs → Writes (write_each xs inner) (concat layout xs)
    unfolding write_each
    write_each-Writes [] h = record { at = λ w. ap ok (sym (append-nil w)) }
    write_each-Writes (x ∷ xs) h = record {
      at = λ w. rw ((step x h.0).at w) (
          (write_each-Writes xs h.1).at (w ++ layout x)
          ∙ ap ok (append_assoc w (layout x) (concat layout xs)));
    }

  module _ (inner : Get A) (step : (a : A) → P a → Reads inner (layout a) a) where
    pub read_option-Reads :
        (o : Option A) → AllSome P o → Reads (read_option inner) (option_layout layout o) o
    unfolding read_option get_u8 of_tag ◌>>=◌ pure
    read_option-Reads none h = record { at = λ rest. refl }
    read_option-Reads (some a) h = record { at = λ rest. rw ((step a h).at rest) }

    pub read_many-Reads :
        (xs : List A) → All P xs → Reads (read_many (length xs) inner) (concat layout xs) xs
    unfolding read_many
    read_many-Reads [] h = Reads-pure []
    read_many-Reads (x ∷ xs) h =
        Reads-bind _ _ (step x h.0) (Reads-last _ (λ rest. x ∷ rest) (read_many-Reads xs h.1))

-- The fields of a message one after the other.
abbrev pub join : List Bytes → Bytes
join [] = []
join (x ∷ xs) = x ++ join xs
