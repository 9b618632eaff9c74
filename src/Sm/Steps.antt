-- ===== src/Sm/Steps.antt =====
-- Every step of the machine of lij-sm.js, seen from its intents and its journal.
use lijox_lnd_adapter.Prelude.{
  ℕ, String, ◌≡◌, refl, sym, ◌∙◌, Bool, List, [], ◌∷◌, ◌++◌, Bool-cases, inl, inr, append_assoc,
  append-nil, is_some, ◌||◌,
}
use mathlib.Core.Path.{subst}
use text.Mathlib.Text.{◌==◌}
use lijox_lnd_adapter.Sm.Intent.{Intent, Line, created, new_intent, Update}
use lijox_lnd_adapter.Sm.Machine.{
  Machine, Event, htlc_intercepted, shard_registered, agg_window_short, var_flush_failed,
  secret_registered, hold_created, resumed, watchdog_scheduled, watchdog_fired, replay_started,
  trampoline, inflight_parked, open_started, open_result, forward_result, settle, other,
  find_intent, log, update_intent, update, get_intent, with_new, with_old, secret_known, set_check,
  emit, fire_check, age_out_all, census, Step, event, timer, minute, step,
}
use lijox_lnd_adapter.Sm.Does.{
  DoesSo, age_out-Does, on_htlc_intercepted-Does, on_shard_registered-Does,
  on_agg_window_short-Does, on_var_flush_failed-Does, on_hold_created-Does, on_resumed-Does,
  on_watchdog_scheduled-Does, on_watchdog_fired-Does, on_trampoline-Does, on_inflight_parked-Does,
  on_open_started-Does, on_open_result-Does, on_forward_result-Does, on_settle-Does,
}
use lijox_lnd_adapter.Sm.Grows.{
  Grows, over, each, Grows-still, Grows-Within, Grows-update_intent, Grows-update_fresh,
  In-append_left, In-append_right,
}

pub record Stepped (m m' : Machine) : Type 0 where
  pub lines : List Line
  pub journal : m'.journal ≡ m.journal ++ lines
  pub grows : Grows lines m.intents m'.intents

Stepped-still : (m m' : Machine) → m'.intents ≡ m.intents → m'.journal ≡ m.journal → Stepped m m'
Stepped-still m m' i j = record {
  lines = [];
  journal = j ∙ sym (append-nil m.journal);
  grows = subst (λ xs. Grows [] m.intents xs) (sym i) (Grows-still [] m.intents);
}

Stepped-log : (k : List Line) (m : Machine) → Stepped m (log k m)
unfolding log
Stepped-log k m = record { lines = k; journal = refl; grows = Grows-still k m.intents }

module _ (h : String) (f : Update) (d : DoesSo f) where
  update-Stepped : (m : Machine) → Stepped m (update h f m)
  unfolding update
  update-Stepped m = record {
    lines = (update_intent h f m.intents).1;
    journal = refl;
    grows = Grows-update_intent h f d m.intents;
  }

  with_old-Stepped : (k : List Line) (m : Machine) → Stepped m (with_old h f k m)
  unfolding with_old
  with_old-Stepped k m = elim (Bool-cases (is_some (find_intent h m.intents))) [
    | inl known ↦ rw known (update-Stepped m)
    | inr unknown ↦ rw unknown (Stepped-log k m)
  ]

  fresh-Stepped :
      (now : ℕ) (m : Machine)
      → Stepped m (
          update h f (record m {
            intents = m.intents ++ new_intent h now ∷ [];
            journal = m.journal ++ created h ∷ [];
          }))
  unfolding update
  fresh-Stepped now m = record {
    lines = created h ∷ (update_intent h f (m.intents ++ new_intent h now ∷ [])).1;
    journal = append_assoc m.journal (created h ∷ []) _;
    grows =
        Grows-Within (λ x p. In-append_right x (created h ∷ []) _ p)
          (Grows-update_fresh h f d now m.intents);
  }

  with_new-Stepped : (now : ℕ) (m : Machine) → Stepped m (with_new now h f m)
  unfolding with_new get_intent
  with_new-Stepped now m = elim (Bool-cases (h == "")) [
    | inl missing ↦ rw missing (Stepped-still m m refl refl)
    | inr given ↦ elim (Bool-cases (is_some (find_intent h m.intents))) [
      | inl known ↦ rw (given, known) (update-Stepped m)
      | inr unknown ↦ rw (given, unknown) (fresh-Stepped now m)
    ]
  ]

after_set_check :
    (now : ℕ) (h : String) (held : Bool) (m m' : Machine)
    → Stepped m m'
    → Stepped m (set_check now h held m')
unfolding set_check
after_set_check now h held m m' s = elim (Bool-cases (held || h == "")) [
  | inl quiet ↦ rw quiet s
  | inr due ↦ rw due (record { lines = s.lines; journal = s.journal; grows = s.grows })
]

emit-Stepped : (now : ℕ) (e : Event) (m : Machine) → Stepped m (emit now e m)
unfolding emit
emit-Stepped now (htlc_intercepted h s ck v) m =
    with_new-Stepped h _ (on_htlc_intercepted-Does now s ck v) now m
emit-Stepped now (shard_registered h) m = with_new-Stepped h _ (on_shard_registered-Does now) now m
emit-Stepped now (agg_window_short h) m = with_old-Stepped h _ (on_agg_window_short-Does now) _ m
emit-Stepped now (var_flush_failed h w) m =
    with_old-Stepped h _ (on_var_flush_failed-Does now w) _ m
emit-Stepped now (secret_registered h s) m = Stepped-still m _ refl refl
emit-Stepped now (hold_created h cap via) m =
    after_set_check now h _ m _ (with_new-Stepped h _ (on_hold_created-Does now cap via) now m)
emit-Stepped now (resumed h) m = with_old-Stepped h _ (on_resumed-Does now) _ m
emit-Stepped now (watchdog_scheduled h ms) m =
    with_old-Stepped h _ (on_watchdog_scheduled-Does now ms) _ m
emit-Stepped now (watchdog_fired h) m = with_old-Stepped h _ (on_watchdog_fired-Does now) _ m
emit-Stepped now replay_started m = Stepped-still m m refl refl
emit-Stepped now (trampoline h p ok) m = with_old-Stepped h _ (on_trampoline-Does now p ok) _ m
emit-Stepped now (inflight_parked h) m = with_old-Stepped h _ (on_inflight_parked-Does now) _ m
emit-Stepped now (open_started h s t fee) m =
    with_new-Stepped h _ (on_open_started-Does now (secret_known m) s t fee) now m
emit-Stepped now (open_result h ok e) m = with_old-Stepped h _ (on_open_result-Does now ok e) _ m
emit-Stepped now (forward_result h ok c) m =
    with_old-Stepped h _ (on_forward_result-Does now ok c) _ m
emit-Stepped now (settle h) m = with_new-Stepped h _ (on_settle-Does now) now m
emit-Stepped now (other n) m = Stepped-log _ m

Grows-age_out_all :
    (now : ℕ) (xs : List Intent) → Grows (age_out_all now xs).1 xs (age_out_all now xs).0
unfolding age_out_all
Grows-age_out_all now [] = over
Grows-age_out_all now (a ∷ xs) =
    each ((age_out-Does now).at a) (λ x p. In-append_left x _ _ p)
      (Grows-Within (λ x p. In-append_right x _ _ p) (Grows-age_out_all now xs))

-- Every event, every timer and every census.
pub step-Stepped : (now : ℕ) (s : Step) (m : Machine) → Stepped m (step now s m)
unfolding step census fire_check
step-Stepped now (event e) m = emit-Stepped now e m
step-Stepped now (timer h) m = Stepped-log _ m
step-Stepped now minute m = record {
  lines = (age_out_all now m.intents).1;
  journal = refl;
  grows = Grows-age_out_all now m.intents;
}
