-- ===== src/Pool/Deaf.antt =====
-- Two channels of one pool in tatara-channels.js: their funding has the same inputs.
use text.Mathlib.Text.{◌==◌ as str_eq}
use text.Mathlib.TextEquality.{eq_iff}
use lijox_lnd_adapter.Prelude.{
  ℕ, ◌≡◌, refl, ◌∙◌, String, false, none, some, List, [], ◌∷◌, ◌++◌, Bool-cases, inl, inr, arith,
}
use lijox_lnd_adapter.Pool.Watch.{
  Input, Watch, Stream, Pool, Spend, find, spend_watch, update, on_spend, stream_at, call, call_all,
  notify, ensure_streams, add, leave, judge,
}

-- Every input has a stream, opened for another channel.
abbrev pub AllTaken : String → List Stream → List Input → Type 0
AllTaken cp ss [] = Unit
AllTaken cp ss (i ∷ is) = ((s : Stream) × (stream_at i.txid i.vout ss ≡ some s)) × AllTaken cp ss is

-- No stream tells this channel.
abbrev pub NoneFor : String → List Stream → Type 0
NoneFor cp [] = Unit
NoneFor cp (s ∷ ss) = (str_eq s.cp cp ≡ false) × NoneFor cp ss

ensure_streams-taken :
    (cp : String) (is : List Input) (ss : List Stream)
    → AllTaken cp ss is
    → ensure_streams cp is ss ≡ ss
unfolding ensure_streams
ensure_streams-taken cp [] ss h = refl
ensure_streams-taken cp (i ∷ is) ss h = rw (h.0.1) (ensure_streams-taken cp is ss h.1)

find-update :
    (cp other : String) (f : Watch → Watch) (ws : List Watch)
    → ((w : Watch) → (f w).cp ≡ w.cp)
    → str_eq other cp ≡ false
    → find cp (update other f ws) ≡ find cp ws
unfolding find update
find-update cp other f [] k h = refl
find-update cp other f (w ∷ ws) k h =
    ground (
      arith,
      k w,
      eq_iff w.cp cp,
      eq_iff w.cp other,
      eq_iff other cp,
      find-update cp other f ws k h,
    )

spend_watch-cp :
    (txid : String) (vout : ℕ) (ev : Spend) (w : Watch) → (spend_watch txid vout ev w).cp ≡ w.cp
unfolding spend_watch
spend_watch-cp txid vout ev w = ground arith

call-deaf :
    (cp txid : String) (vout : ℕ) (ev : Spend) (s : Stream) (p : Pool)
    → str_eq s.cp cp ≡ false
    → find cp (call txid vout ev s p).watched ≡ find cp p.watched
unfolding call on_spend
call-deaf cp txid vout ev s p other = ground (
  arith,
  find-update cp s.cp (spend_watch s.txid s.vout ev) p.watched (spend_watch-cp s.txid s.vout ev)
      other,
)

call-streams :
    (txid : String) (vout : ℕ) (ev : Spend) (s : Stream) (p : Pool)
    → (call txid vout ev s p).streams ≡ p.streams
unfolding call on_spend
call-streams txid vout ev s p = ground arith

call_all-deaf :
    (cp txid : String) (vout : ℕ) (ev : Spend) (ss : List Stream) (p : Pool)
    → NoneFor cp ss
    → (find cp (call_all txid vout ev ss p).watched ≡ find cp p.watched)
      × ((call_all txid vout ev ss p).streams ≡ p.streams)
unfolding call_all
call_all-deaf cp txid vout ev [] p n = (refl, refl)
call_all-deaf cp txid vout ev (s ∷ ss) p n =
    let (same, streams) = call_all-deaf cp txid vout ev ss (call txid vout ev s p) n.1 in
    (same ∙ call-deaf cp txid vout ev s p n.0, streams ∙ call-streams txid vout ev s p)

notify-deaf :
    (cp txid : String) (vout : ℕ) (ev : Spend) (p : Pool)
    → NoneFor cp p.streams
    → (find cp (notify txid vout ev p).watched ≡ find cp p.watched)
      × ((notify txid vout ev p).streams ≡ p.streams)
unfolding notify
notify-deaf cp txid vout ev p n = call_all-deaf cp txid vout ev p.streams p n

find-append :
    (w : Watch) (ws : List Watch) → find w.cp ws ≡ none → find w.cp (ws ++ w ∷ []) ≡ some w
unfolding find
find-append w [] h = ground (arith, eq_iff w.cp w.cp)
find-append w (v ∷ ws) h = elim (Bool-cases (str_eq v.cp w.cp)) [
  | inl found ↦ let e : some v ≡ none = rw found at h in cc
  | inr past ↦ rw past (find-append w ws (rw past at h))
]

-- The notices of LND, in their order.
abbrev pub notify_all : List (String × ℕ × Spend) → Pool → Pool
notify_all [] p = p
notify_all ((txid, vout, ev) ∷ evs) p = notify_all evs (notify txid vout ev p)

notify_all-deaf :
    (cp : String) (evs : List (String × ℕ × Spend)) (p : Pool)
    → NoneFor cp p.streams
    → find cp (notify_all evs p).watched ≡ find cp p.watched
notify_all-deaf cp [] p n = refl
notify_all-deaf cp ((txid, vout, ev) ∷ evs) p n =
    let (same, streams) = notify-deaf cp txid vout ev p n in
    notify_all-deaf cp evs (notify txid vout ev p) (rw streams n) ∙ same

-- A channel that is not watched yet, whose inputs are all streamed but by no stream of its own, as
-- those of a pool's second channel are, and no spend of which is known when it is added: adding it
-- opens no stream, no notices of spends, to every stream at their outpoints, change its watch, and
-- so the tick leaves it where it is at every tip.
pub second_channel-deaf :
    (w : Watch) (p : Pool) (evs : List (String × ℕ × Spend)) (tip : ℕ)
    → find w.cp p.watched ≡ none
    → AllTaken w.cp p.streams w.inputs
    → NoneFor w.cp p.streams
    → w.funded_at ≡ 0
    → w.elsewhere_at ≡ 0
    → ((add w p).streams ≡ p.streams)
      × (find w.cp (notify_all evs (add w p)).watched ≡ some w)
      × (judge tip w ≡ leave)
second_channel-deaf w p evs tip f t n funded elsewhere =
    let streams : (add w p).streams ≡ p.streams =
      unfold add in ensure_streams-taken w.cp w.inputs p.streams t in
    (
      streams,
      notify_all-deaf w.cp evs (add w p) (rw streams n) ∙ unfold add in find-append w p.watched f,
      unfold judge in rw (funded, elsewhere) refl,
    )
