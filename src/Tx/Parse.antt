-- ===== src/Tx/Parse.antt =====
-- btc-tx.js: `parse`. The reader is the unread rest of the buffer. A read past the end is refused at
-- once, where the source goes on with what there is and throws at the next number. `num` is the
-- host's `Number` of a BigInt, which rounds above 2 ^ 53.
use lijox_lnd_adapter.Prelude.{
  ℕ, ◌+◌, ◌*◌, ltb, ◌==◌, if◌then◌else◌, ◌&&◌, Bool, true, false, Option, none, some, List, [], ◌∷◌,
}
use mathlib.Core.List.{reverse}
use lijox_lnd_adapter.Wire.Format.{Bytes, Result, ok, err, short_read}
use lijox_lnd_adapter.Wire.Get.{Get, ◌>>=◌, pure, get_u8, get_bytes, read_many}

unfoldable pub get_le16 : Get ℕ
get_le16 (a ∷ b ∷ r) = ok (a + b * 256, r)
get_le16 _ = err short_read

unfoldable pub get_le32 : Get ℕ
get_le32 (a ∷ b ∷ c ∷ d ∷ r) = ok (a + b * 256 + c * 65536 + d * 16777216, r)
get_le32 _ = err short_read

unfoldable pub get_le64 : Get ℕ
get_le64 = get_le32 >>= λ low. get_le32 >>= λ high. pure (low + high * 4294967296)

pub record ParsedIn : Type 0 where
  pub txid : Bytes
  pub vout : ℕ
  pub script_sig : Bytes
  pub sequence : ℕ
  pub witness : List Bytes

pub record ParsedOut : Type 0 where
  pub value : ℕ
  pub script : Bytes

pub record Parsed : Type 0 where
  pub version : ℕ
  pub locktime : ℕ
  pub inputs : List ParsedIn
  pub outputs : List ParsedOut

-- The marker of a transaction with witnesses, taken if it is there and allowed.
unfoldable pub get_marker : Bool → Get Bool
get_marker allow (a ∷ b ∷ r) =
    if allow && a == 0 && b == 1 then ok (true, r) else ok (false, a ∷ b ∷ r)
get_marker allow r = ok (false, r)

module _ (num : ℕ → ℕ) where
  unfoldable pub varint_of : ℕ → Get ℕ
  varint_of f =
      if ltb f 253
      then pure f
      else if f == 253
      then get_le16
      else if f == 254
      then get_le32
      else get_le64 >>= λ v. pure (num v)

  -- rdVar
  unfoldable pub get_varint : Get ℕ
  get_varint = get_u8 >>= varint_of

  unfoldable pub get_sized : Get Bytes
  get_sized = get_varint >>= get_bytes

  unfoldable pub get_input : Get ParsedIn
  get_input = do
    id ← get_bytes 32
    index ← get_le32
    script ← get_sized
    seq ← get_le32
    pure (record {
      txid = reverse id;
      vout = index;
      script_sig = script;
      sequence = seq;
      witness = [];
    })

  unfoldable pub get_output : Get ParsedOut
  get_output = get_le64 >>= λ v. get_sized >>= λ s. pure (record { value = num v; script = s })

  unfoldable pub get_witness : Get (List Bytes)
  get_witness = get_varint >>= λ n. read_many n get_sized

  -- Each input's witness, pushed into it.
  unfoldable pub add_witnesses : List ParsedIn → Get (List ParsedIn)
  add_witnesses [] = pure []
  add_witnesses (i ∷ is) =
      get_witness >>= λ w. add_witnesses is >>= λ rest. pure (record i { witness = w } ∷ rest)

  unfoldable pub get_witnesses : Bool → List ParsedIn → Get (List ParsedIn)
  unfolding add_witnesses
  get_witnesses true is = add_witnesses is
  get_witnesses false is = pure is

  unfoldable pub get_body : ℕ → Bool → Get Parsed
  get_body version segwit = do
    nin ← get_varint
    read ← read_many nin get_input
    nout ← get_varint
    outs ← read_many nout get_output
    ins ← get_witnesses segwit read
    lock ← get_le32
    pure (record { version = version; locktime = lock; inputs = ins; outputs = outs })

  unfoldable pub get_tx : Bool → Get Parsed
  get_tx allow = get_le32 >>= λ v. get_marker allow >>= get_body v

  abbrev pub all_read : Result (Parsed × Bytes) → Option Parsed
  all_read (ok (tx, [])) = some tx
  all_read (ok (tx, b ∷ r)) = none
  all_read (err e) = none

  -- parse; `none` is a throw
  unfoldable pub parse : Bool → Bytes → Option Parsed
  unfolding get_tx
  parse allow b = all_read (get_tx allow b)
