-- ===== src/Wire/RoundTrip/Fields.antt =====
-- The field helpers that only some messages use: lists, tags, rates and display hashes.
use lijox_lnd_adapter.Prelude.{
  ℕ, String, ◌<◌, ◌≡◌, ap, ◌∙◌, le→ltb, Option, some, List, arith, length, length-reverse,
}
use text.Mathlib.TextEquality.{eq_iff}
use mathlib.Core.List.{reverse, reverse-reverse}
use lijox_lnd_adapter.Hex.{hex, unhex}
use lijox_lnd_adapter.Hex.Laws.{AllLowerHex, hex-unhex, length-unhex, all_hex-AllLowerHex}
use lijox_lnd_adapter.Wire.Format.{Bytes, ok, be32}
use lijox_lnd_adapter.Wire.Put.{Put}
use lijox_lnd_adapter.Wire.Get.{Get, ◌>>=◌, pure, get_u8, read_hash32}
use lijox_lnd_adapter.Wire.Messages.{
  Tag, byte, name, channel_state, channel_state_name, broadcast_result, broadcast_result_name,
}
use lijox_lnd_adapter.Wire.Encode.{write_list, put_rate, put_display_txid, put_named, put_tag}
use lijox_lnd_adapter.Wire.Decode.{read_list, named, get_tag}
use lijox_lnd_adapter.Wire.Laws.{
  Writes, Reads, Writes-seq, Reads-bind, put_u8-Writes, put_u16-Writes, get_u16-Reads,
  put_u32-Writes, write_hash32-Writes, read_hash32-Reads, write_each-Writes, read_many-Reads,
}
use lijox_lnd_adapter.Wire.Layout.{IsU32, IsList, list_layout, tag_layout, IsTag, named_tag}

module _ (P : Bytes → Type 0) (layout : Bytes → Bytes) where
  pub write_list-Writes :
      (inner : Bytes → Put)
      → ((b : Bytes) → P b → Writes (inner b) (layout b))
      → (xs : List Bytes) → IsList P xs
      → Writes (write_list xs inner) (list_layout layout xs)
  unfolding write_list
  write_list-Writes inner step xs h =
      rw (le→ltb 65535 (length xs) (omega arith))
        (Writes-seq (put_u16-Writes (length xs) h.0) (write_each-Writes P layout inner step xs h.1))

  pub read_list-Reads :
      (inner : Get Bytes)
      → ((b : Bytes) → P b → Reads inner (layout b) b)
      → (xs : List Bytes) → IsList P xs
      → Reads (read_list inner) (list_layout layout xs) xs
  unfolding read_list
  read_list-Reads inner step xs h =
      Reads-bind _ _ (get_u16-Reads (length xs)) (read_many-Reads P layout inner step xs h.1)

pub put_rate-Writes : (v : ℕ) → IsU32 v → Writes (put_rate v) (be32 v)
unfolding put_rate
put_rate-Writes v h = rw (le→ltb 4294967295 v (omega arith)) (put_u32-Writes v h)

pub put_display_txid-Writes :
    (disp : List ℕ)
    → AllLowerHex disp
    → length disp ≡ 64
    → Writes (put_display_txid disp) (reverse (unhex disp))
unfolding put_display_txid
put_display_txid-Writes disp h e =
    rw (e, all_hex-AllLowerHex disp h)
      (write_hash32-Writes (reverse (unhex disp))
        (length-reverse (unhex disp) ∙ length-unhex 32 disp e h))

pub read_display_txid-Reads :
    (disp : List ℕ)
    → AllLowerHex disp
    → length disp ≡ 64
    → Reads read_hash32 (reverse (unhex disp)) (reverse (unhex disp))
read_display_txid-Reads disp h e =
    read_hash32-Reads (reverse (unhex disp))
      (length-reverse (unhex disp) ∙ length-unhex 32 disp e h)

pub hex-reverse_back :
    (disp : List ℕ)
    → AllLowerHex disp
    → length disp ≡ 64
    → hex (reverse (reverse (unhex disp))) ≡ disp
hex-reverse_back disp h e = rw reverse-reverse (hex-unhex 32 disp e h)

module _ (table : String → Option ℕ) (names : ℕ → Option String)
    (coherent : (s : String) (b : ℕ) → table s ≡ some b → names b ≡ some s)
    (small : (b : ℕ) (s : String) → names b ≡ some s → b < 256) where
  pub put_tag-Writes :
      (t : Tag) → IsTag table names t → Writes (put_tag table t) (tag_layout table t)
  unfolding put_tag put_named
  put_tag-Writes (byte b) (c, s, e, f) =
      let known : b ≡ c = cc in
      let named_by : names b ≡ some s = rw known f in put_u8-Writes b (small b s named_by)
  put_tag-Writes (name n) (c, s, e, f) = rw e (put_u8-Writes c (small c s f))

  pub get_tag-Reads :
      (t : Tag)
      → IsTag table names t
      → Reads (get_tag names) (tag_layout table t) (named_tag names t)
  unfolding get_tag get_u8 named pure ◌>>=◌
  get_tag-Reads (byte b) (c, s, e, f) =
      let same : b ≡ c = cc in
      let known : names b ≡ some s = rw same f in record { at = λ rest. rw known }
  get_tag-Reads (name n) (c, s, e, f) =
      let same : s ≡ n = cc (coherent n c e) in
      record { at = λ rest. rw (e, f) (ap (λ x. ok (name x, rest)) same) }

channel_state-coherent :
    (s : String) (b : ℕ) → channel_state s ≡ some b → channel_state_name b ≡ some s
unfolding channel_state channel_state_name
channel_state-coherent s b h = ground (
  arith,
  eq_iff s "Pending",
  eq_iff s "Active",
  eq_iff s "Inactive",
  eq_iff s "CooperativeCloseInitiated",
  eq_iff s "ForceCloseInitiated",
  eq_iff s "ClosedOnChain",
)

channel_state_name-small : (b : ℕ) (s : String) → channel_state_name b ≡ some s → b < 256
unfolding channel_state_name
channel_state_name-small b s h = ground arith

broadcast_result-coherent :
    (s : String) (b : ℕ) → broadcast_result s ≡ some b → broadcast_result_name b ≡ some s
unfolding broadcast_result broadcast_result_name
broadcast_result-coherent s b h =
    ground (arith, eq_iff s "Relayed", eq_iff s "Rejected", eq_iff s "Unavailable")

broadcast_result_name-small : (b : ℕ) (s : String) → broadcast_result_name b ≡ some s → b < 256
unfolding broadcast_result_name
broadcast_result_name-small b s h = ground arith

module _ (t : Tag) where
  pub put_state-Writes :
      IsTag channel_state channel_state_name t
      → Writes (put_tag channel_state t) (tag_layout channel_state t)
  put_state-Writes =
      put_tag-Writes channel_state channel_state_name channel_state-coherent
        channel_state_name-small t

  pub get_state-Reads :
      IsTag channel_state channel_state_name t
      → Reads
          (get_tag channel_state_name)
          (tag_layout channel_state t)
          (named_tag channel_state_name t)
  get_state-Reads =
      get_tag-Reads channel_state channel_state_name channel_state-coherent channel_state_name-small
        t

  pub put_result-Writes :
      IsTag broadcast_result broadcast_result_name t
      → Writes (put_tag broadcast_result t) (tag_layout broadcast_result t)
  put_result-Writes =
      put_tag-Writes broadcast_result broadcast_result_name broadcast_result-coherent
        broadcast_result_name-small t

  pub get_result-Reads :
      IsTag broadcast_result broadcast_result_name t
      → Reads
          (get_tag broadcast_result_name)
          (tag_layout broadcast_result t)
          (named_tag broadcast_result_name t)
  get_result-Reads =
      get_tag-Reads broadcast_result broadcast_result_name broadcast_result-coherent
        broadcast_result_name-small t
