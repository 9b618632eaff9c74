-- ===== src/Pool/Inputs.antt =====
-- tatara-channels.js: `inputsOf`, the inputs of a raw transaction. The reader is the unread rest of the
-- buffer, and `num` the host's `Number` of a BigInt. A script and a sequence are skipped unread.
use lijox_lnd_adapter.Prelude.{
  ℕ, ◌+◌, ◌==◌, if◌then◌else◌, ◌&&◌, Option, none, some, List, ◌∷◌, drop,
}
use mathlib.Core.List.{reverse}
use lijox_lnd_adapter.Wire.Format.{Bytes, Result, ok, err}
use lijox_lnd_adapter.Wire.Get.{Get, ◌>>=◌, pure, get_bytes, read_many}
use lijox_lnd_adapter.Tx.Parse.{get_le32, get_varint}

pub record Point : Type 0 where
  pub txid : Bytes
  pub vout : ℕ

-- `o += n`
unfoldable pub skip : ℕ → Get (Unit {0})
skip n r = ok (tt, drop n r)

-- `if (b.length > 6 && b[4] === 0x00 && b[5] === 0x01) o = 6`, from the fifth byte on
unfoldable pub skip_marker : Bytes → Bytes
skip_marker (a ∷ b ∷ c ∷ r) = if a == 0 && b == 1 then c ∷ r else a ∷ b ∷ c ∷ r
skip_marker r = r

module _ (num : ℕ → ℕ) where
  unfoldable pub get_point : Get Point
  unfolding skip
  get_point = get_bytes 32 >>= λ id. get_le32 >>= λ index. get_varint num >>= λ l.
      skip (l + 4) >>= λ _. pure (record { txid = reverse id; vout = index })

  unfoldable pub get_points : Get (List Point)
  unfolding get_point
  get_points = get_varint num >>= λ n. read_many n get_point

  abbrev pub result_of : {A : Type 0} → Result (A × Bytes) → Option A
  result_of (ok (a, r)) = some a
  result_of (err e) = none

  -- inputsOf; `none` is a throw
  unfoldable pub inputs_of : Bytes → Option (List Point)
  unfolding get_points skip_marker
  inputs_of b = result_of (get_points (skip_marker (drop 4 b)))
