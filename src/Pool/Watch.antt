-- ===== src/Pool/Watch.antt =====
-- tatara-channels.js: the watched channels with their streams, `onSpend`, `ensureStream`, `forget` and
-- the parts of `tick`. A stream is LND's notice for one outpoint, bound to the channel it was opened
-- for. The file that keeps the watch over a restart and the journal are left out.
use lijox_lnd_adapter.Prelude.{
  ℕ, ◌+◌, String, ltb, leb, ◌==◌, if◌then◌else◌, ◌&&◌, not, Bool, true, false, Option, none, some,
  List, [], ◌∷◌, ◌++◌,
}
use text.Mathlib.Text.{◌==◌ as str_eq}

abbrev pub settle_depth : ℕ
settle_depth = 6

abbrev pub alert_blocks : ℕ
alert_blocks = 144

pub record Input : Type 0 where
  pub txid : String
  pub vout : ℕ
  pub spent_by : String
  pub height : ℕ

pub record Watch : Type 0 where
  pub cp : String
  pub attempt_id : String
  pub funding_txid : String
  pub inputs : List Input
  pub funded_at : ℕ
  pub elsewhere_at : ℕ
  pub alerted : Bool
  pub since : ℕ

-- A stream of `streams`: its outpoint, and the channel that its closure names.
pub record Stream : Type 0 where
  pub txid : String
  pub vout : ℕ
  pub cp : String

pub record Pool : Type 0 where
  pub watched : List Watch
  pub streams : List Stream

-- What LND tells of a spend; its id in lower case.
pub record Spend : Type 0 where
  pub txid : String
  pub height : ℕ

unfoldable pub find : String → List Watch → Option Watch
find cp [] = none
find cp (w ∷ ws) = let rest = find cp ws in if str_eq w.cp cp then some w else rest

unfoldable pub is_at : String → ℕ → Input → Bool
is_at txid vout i = str_eq i.txid txid && i.vout == vout

-- The input's own fields, on the first that fits.
unfoldable pub mark : String → ℕ → Spend → List Input → List Input
mark txid vout ev [] = []
mark txid vout ev (i ∷ is) =
    let rest = mark txid vout ev is in
    if is_at txid vout i then record i { spent_by = ev.txid; height = ev.height } ∷ is else i ∷ rest

unfoldable pub has_input : String → ℕ → List Input → Bool
has_input txid vout [] = false
has_input txid vout (i ∷ is) =
    let rest = has_input txid vout is in if is_at txid vout i then true else rest

abbrev min : ℕ → ℕ → ℕ
min a b = if ltb a b then a else b

-- What a spend makes of a watch: by the pool's funding, or by another transaction.
unfoldable pub spend_watch : String → ℕ → Spend → Watch → Watch
spend_watch txid vout ev w =
    if not (has_input txid vout w.inputs)
    then w
    else if str_eq ev.txid w.funding_txid
    then record w {
      inputs = mark txid vout ev w.inputs;
      funded_at = if w.funded_at == 0 then ev.height else w.funded_at;
    }
    else record w {
      inputs = mark txid vout ev w.inputs;
      elsewhere_at = if w.elsewhere_at == 0 then ev.height else min w.elsewhere_at ev.height;
    }

unfoldable pub update : String → (Watch → Watch) → List Watch → List Watch
update cp f [] = []
update cp f (w ∷ ws) = let rest = update cp f ws in if str_eq w.cp cp then f w ∷ ws else w ∷ rest

-- onSpend
unfoldable pub on_spend : String → String → ℕ → Spend → Pool → Pool
on_spend cp txid vout ev p = record p { watched = update cp (spend_watch txid vout ev) p.watched }

unfoldable pub stream_at : String → ℕ → List Stream → Option Stream
stream_at txid vout [] = none
stream_at txid vout (s ∷ ss) =
    let rest = stream_at txid vout ss in
    if str_eq s.txid txid && s.vout == vout then some s else rest

-- The callback of a stream, where it is at the outpoint.
unfoldable pub call : String → ℕ → Spend → Stream → Pool → Pool
unfolding on_spend
call txid vout ev s p =
    if str_eq s.txid txid && s.vout == vout then on_spend s.cp s.txid s.vout ev p else p

-- The callbacks of these streams, in the order they were opened.
unfoldable pub call_all : String → ℕ → Spend → List Stream → Pool → Pool
unfolding call
call_all txid vout ev [] p = p
call_all txid vout ev (s ∷ ss) p = call_all txid vout ev ss (call txid vout ev s p)

-- LND tells of a spend of this outpoint: every stream there calls back.
unfoldable pub notify : String → ℕ → Spend → Pool → Pool
unfolding call_all
notify txid vout ev p = call_all txid vout ev p.streams p

abbrev pub open_at : Option Stream → Stream → List Stream → List Stream
open_at (some old) s ss = ss
open_at none s ss = ss ++ s ∷ []

-- ensureStream, where LND gives a handle
unfoldable pub ensure_stream : String → List Stream → Input → List Stream
ensure_stream cp ss i =
    open_at (stream_at i.txid i.vout ss) (record { txid = i.txid; vout = i.vout; cp = cp }) ss

unfoldable pub ensure_streams : String → List Input → List Stream → List Stream
unfolding ensure_stream
ensure_streams cp [] ss = ss
ensure_streams cp (i ∷ is) ss = ensure_streams cp is (ensure_stream cp ss i)

-- `watched[cp] = { ... }` of the tick, and its streams
unfoldable pub add : Watch → Pool → Pool
unfolding ensure_streams
add w p = record { watched = p.watched ++ w ∷ []; streams = ensure_streams w.cp w.inputs p.streams }

unfoldable pub without : String → List Watch → List Watch
without cp [] = []
without cp (w ∷ ws) = let rest = without cp ws in if str_eq w.cp cp then rest else w ∷ rest

unfoldable pub close_stream : String → ℕ → List Stream → List Stream
close_stream txid vout [] = []
close_stream txid vout (s ∷ ss) =
    let rest = close_stream txid vout ss in
    if str_eq s.txid txid && s.vout == vout then rest else s ∷ rest

unfoldable pub close_all : List Input → List Stream → List Stream
close_all [] ss = ss
close_all (i ∷ is) ss = close_all is (close_stream i.txid i.vout ss)

abbrev pub forget_found : String → Option Watch → Pool → Pool
forget_found cp none p = p
forget_found cp (some w) p = record {
  watched = without cp p.watched;
  streams = close_all w.inputs p.streams;
}

-- forget
unfoldable pub forget : String → Pool → Pool
unfolding find
forget cp p = forget_found cp (find cp p.watched) p

-- The verdict of the tick on one watch; a tip of 0 is one that was not read.
pub data Verdict : Type 0 where
  abandon alert leave : Verdict

-- `tip - w.elsewhere_at + 1 >= SETTLE_DEPTH` and `tip - w.funded_at >= ALERT_BLOCKS`
unfoldable pub judge : ℕ → Watch → Verdict
judge tip w =
    if not (w.elsewhere_at == 0)
      && (not (tip == 0) && (leb (w.elsewhere_at + settle_depth) (tip + 1) && w.funded_at == 0))
    then abandon
    else if not (w.funded_at == 0)
        && (not (tip == 0) && (leb (w.funded_at + alert_blocks) tip && not w.alerted))
    then alert
    else leave

-- What the tick does with it, `done` being LND's word on the abandon.
unfoldable pub carry_out : Verdict → Bool → String → Pool → Pool
unfolding forget
carry_out abandon true cp p = forget cp p
carry_out abandon false cp p = p
carry_out alert done cp p = record p {
  watched = update cp (λ w. record w { alerted = true }) p.watched;
}
carry_out leave done cp p = p
