-- ===== src/Tx/Pieces.antt =====
-- `serialize` and `parse` of btc-tx.js against map other.
use mathlib.Core.List.{map, reverse, reverse-reverse}
use lijox_lnd_adapter.Prelude.{
  ℕ, ◌<◌, ◌≡◌, ap, ◌∙◌, Bool, true, false, List, [], ◌∷◌, ◌++◌, append-nil, length, length-reverse,
  arith,
}
use lijox_lnd_adapter.Wire.Format.{Bytes}
use lijox_lnd_adapter.Wire.Get.{Get, read_many}
use lijox_lnd_adapter.Wire.Laws.{
  Reads, Reads-bind, Reads-last, Reads-pure, get_bytes-Reads, read_many-Reads, All, concat, join,
}
use lijox_lnd_adapter.Tx.Serialize.{
  varint, u32, bytes_of, TxIn, TxOut, Tx, or_default, final_sequence, input_bytes, output_bytes,
  witness_bytes, witnesses_bytes,
}
use lijox_lnd_adapter.Tx.Parse.{
  ParsedIn, ParsedOut, Parsed, get_sized, get_input, get_output, get_witness, add_witnesses,
  get_witnesses, get_body,
}
use lijox_lnd_adapter.Tx.Varint.{
  get_le64-Reads, u32-Reads, Reads-is, IsSafe, get_varint-Reads, get_sized-Reads,
}

abbrev pub IsU32 : ℕ → Type 0
IsU32 n = n < 4294967296

abbrev pub IsSized : Bytes → Type 0
IsSized b = IsSafe (length b)

-- An input, an output and a transaction that fit their formats.
abbrev pub IsIn : TxIn → Type 0
IsIn i =
    (length i.txid ≡ 32)
    × IsU32 i.vout
    × IsU32 (or_default final_sequence i.sequence)
    × IsSafe (length i.witness)
    × All IsSized i.witness

abbrev pub IsOut : TxOut → Type 0
IsOut o = IsSafe o.value × IsSized o.script

abbrev pub IsTx : Tx → Type 0
IsTx tx =
    IsU32 (or_default 2 tx.version)
    × IsU32 tx.locktime
    × IsSafe (length tx.inputs)
    × All IsIn tx.inputs
    × IsSafe (length tx.outputs)
    × All IsOut tx.outputs

-- What a reader should see of an input: the script is empty, an absent sequence is final.
abbrev pub bare_input : TxIn → ParsedIn
bare_input i = record {
  txid = i.txid;
  vout = i.vout;
  script_sig = [];
  sequence = or_default final_sequence i.sequence;
  witness = [];
}

abbrev pub signed_input : TxIn → ParsedIn
signed_input i = record (bare_input i) { witness = i.witness }

abbrev pub seen_output : TxOut → ParsedOut
seen_output o = record { value = o.value; script = o.script }

-- The transaction that a reader should see, with its witnesses or without them.
abbrev pub seen : Bool → Tx → Parsed
seen with_witness tx = record {
  version = or_default 2 tx.version;
  locktime = tx.locktime;
  inputs = map (elim with_witness [ true ↦ signed_input | false ↦ bare_input ]) tx.inputs;
  outputs = map seen_output tx.outputs;
}

many-Reads :
    {A B : Type 0} (P : A → Type 0) (layout : A → Bytes) (f : A → B) (inner : Get B)
    → ((a : A) → P a → Reads inner (layout a) (f a))
    → (xs : List A) → All P xs
    → Reads (read_many (length xs) inner) (concat layout xs) (map f xs)
unfolding read_many
many-Reads P layout f inner step [] h = Reads-pure []
many-Reads P layout f inner step (x ∷ xs) h =
    Reads-bind _ _ (step x h.0)
      (Reads-last _ (λ rest. f x ∷ rest) (many-Reads P layout f inner step xs h.1))

Reads-nil : {A : Type 0} {g : Get A} {xs : Bytes} {a : A} → Reads g xs a → Reads g (xs ++ []) a
Reads-nil {xs = xs} h = rw (append-nil xs) h

-- What stands between the marker and the end.
abbrev pub rest_bytes : Bool → Tx → Bytes
rest_bytes has_witness tx = join (
    varint (length tx.inputs)
    ∷ concat input_bytes tx.inputs
    ∷ varint (length tx.outputs)
    ∷ concat output_bytes tx.outputs
    ∷ witnesses_bytes has_witness tx.inputs
    ∷ u32 tx.locktime
    ∷ [])

module _ (num : ℕ → ℕ) (exact : (n : ℕ) → IsSafe n → num n ≡ n) where
  input-Reads : (i : TxIn) → IsIn i → Reads (get_input num) (input_bytes i) (bare_input i)
  unfolding get_input input_bytes bytes_of varint
  input-Reads i (t, v, s, n, w) =
      Reads-is (ap (λ id. record (bare_input i) { txid = id }) (reverse-reverse i.txid)) (
        Reads-bind _ _ (get_bytes-Reads 32 (reverse i.txid) (length-reverse i.txid ∙ t)) (
          Reads-bind _ _ (u32-Reads i.vout v) (
            Reads-bind _ _ (get_sized-Reads num exact [] (omega arith))
              (Reads-nil (Reads-last _ _ (u32-Reads (or_default final_sequence i.sequence) s))))))

  output-Reads : (o : TxOut) → IsOut o → Reads (get_output num) (output_bytes o) (seen_output o)
  unfolding get_output output_bytes
  output-Reads o (v, s) = Reads-bind _ _ (get_le64-Reads o.value) (
      Reads-is (ap (λ n. record { value = n; script = o.script }) (exact o.value v))
        (Reads-last _ _ (get_sized-Reads num exact o.script s)))

  witness-Reads : (i : TxIn) → IsIn i → Reads (get_witness num) (witness_bytes i) i.witness
  unfolding get_witness witness_bytes
  witness-Reads i (t, v, s, n, w) =
      Reads-bind _ _ (get_varint-Reads num exact (length i.witness) n)
        (read_many-Reads IsSized bytes_of (get_sized num) (get_sized-Reads num exact) i.witness w)

  witnesses-Reads :
      (is : List TxIn)
      → All IsIn is
      → Reads
          (add_witnesses num (map bare_input is))
          (concat witness_bytes is)
          (map signed_input is)
  unfolding add_witnesses
  witnesses-Reads [] h = Reads-pure []
  witnesses-Reads (i ∷ is) h =
      Reads-bind _ _ (witness-Reads i h.0)
        (Reads-last _ (λ rest. signed_input i ∷ rest) (witnesses-Reads is h.1))

  witnesses_part :
      (has_witness : Bool) (is : List TxIn)
      → All IsIn is
      → Reads
          (get_witnesses num has_witness (map bare_input is))
          (witnesses_bytes has_witness is)
          (map (elim has_witness [ true ↦ signed_input | false ↦ bare_input ]) is)
  unfolding get_witnesses witnesses_bytes
  witnesses_part true is h = witnesses-Reads is h
  witnesses_part false is h = Reads-pure (map bare_input is)

  pub body-Reads :
      (has_witness : Bool) (tx : Tx)
      → IsTx tx
      → Reads
          (get_body num (or_default 2 tx.version) has_witness)
          (rest_bytes has_witness tx)
          (seen has_witness tx)
  unfolding get_body
  body-Reads w tx (v, l, ni, is, nout, os) =
      Reads-bind _ _ (get_varint-Reads num exact (length tx.inputs) ni) (
        Reads-bind _ _ (many-Reads IsIn input_bytes bare_input _ input-Reads tx.inputs is) (
          Reads-bind _ _ (get_varint-Reads num exact (length tx.outputs) nout) (
            Reads-bind _ _ (many-Reads IsOut output_bytes seen_output _ output-Reads tx.outputs os)
              (Reads-bind _ _ (witnesses_part w tx.inputs is)
                (Reads-nil (Reads-last _ _ (u32-Reads tx.locktime l)))))))
