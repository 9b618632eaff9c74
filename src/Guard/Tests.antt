-- ===== src/Guard/Tests.antt =====
-- A guard with two failures: each theorem of `Guard` at it. `toLowerCase` is the identity here.
use lijox_lnd_adapter.Prelude.{
  ℕ, String, ◌≡◌, refl, inr, Bool, true, false, none, some, List, [], ◌∷◌, arith,
}
use lijox_lnd_adapter.Guard.State.{
  unknown, failed, Open, Halt, State, empty, Settings, key_of, at_of, released_at, wallet_failures,
  wallet_blocked, counts,
}
use lijox_lnd_adapter.Guard.Ops.{
  Guard, kept, load, find, is_pending, is_key, fail, release, release_wallet, Op, opened, refused,
  restarted, run,
}
use lijox_lnd_adapter.Guard.Halt.{run-halted}
use lijox_lnd_adapter.Guard.Wallets.{fail-held}
use lijox_lnd_adapter.Guard.OneWallet.{run-OneWallet}
use lijox_lnd_adapter.Guard.Release.{release-afresh, release_wallet-unblocks}

abbrev cfg : Settings
cfg = record { arm_at = 2; halt_at = 3; wallet_at = 2; keep_days = 14 }

abbrev as_is : String → String
as_is s = s

abbrev node : String
node = "02aaaaaaaaaaaaaaaaaaaaaaaaaaaaaaaaaaaaaaaaaaaaaaaaaaaaaaaaaaaaaaaa"

abbrev an_open : String → Bool → Open
an_open cp held = record {
  ts = 1000;
  cp = cp;
  wallet = node;
  sats = 50000;
  rail = "jit";
  outcome = unknown;
  held = held;
  code = "";
  at = 0;
}

abbrev gone : String → ℕ → Open
gone cp at = record (an_open cp false) { outcome = failed; at = at }

abbrev halt : Halt
halt = record { at = 3000; count = 3; wallets = 3; last_cp = "c" }

abbrev stopped : State
stopped = record empty { opens = gone "a" 2000 ∷ gone "b" 3000 ∷ []; halted = some halt }

abbrev saved : State → Guard
saved st = record { st = st; file = kept st }

run-halted_example :
    (run as_is cfg ((4000, refused "z" "") ∷ (5000, restarted) ∷ []) (saved stopped)).st.halted
    ≡ some halt
run-halted_example =
    run-halted as_is cfg ((4000, refused "z" "") ∷ (5000, restarted) ∷ []) (saved stopped) halt
      (unfold load in refl) (refl, (refl, tt)) refl

abbrev pending : State
pending = record empty { opens = an_open "a" true ∷ [] }

fail-held_example :
    let after = (fail as_is cfg 2000 "a" "x" (saved pending)).st in
    (after.halted ≡ none)
    × ((counts as_is cfg 2500 after).failed_24h ≡ (counts as_is cfg 2500 pending).failed_24h)
    × ((counts as_is cfg 2500 after).failed_wallets_24h
        ≡ (counts as_is cfg 2500 pending).failed_wallets_24h)
    × ((counts as_is cfg 2500 after).level ≡ (counts as_is cfg 2500 pending).level)
    × ((counts as_is cfg 2500 after).armed ≡ (counts as_is cfg 2500 pending).armed)
fail-held_example =
    fail-held as_is cfg 2000 "a" "x" (saved pending) (an_open "a" true) 2500
      (unfold find is_pending in refl) refl

abbrev griefer : List (ℕ × Op)
griefer =
    (1, opened "a" node 1 "jit" false)
    ∷ (2, refused "a" "")
    ∷ (3, opened "b" node 1 "jit" false)
    ∷ (4, refused "b" "")
    ∷ (5, opened "c" node 1 "jit" false)
    ∷ (6, refused "c" "")
    ∷ []

run-OneWallet_example : (run as_is cfg griefer (saved empty)).st.halted ≡ none
run-OneWallet_example =
    run-OneWallet as_is node cfg (omega arith) griefer (saved empty) (unfold load in refl)
      (inr (refl, refl), (tt, (inr (refl, refl), (tt, (inr (refl, refl), (tt, tt)))))) tt refl

release-afresh_example :
    ((release 4000 "op" (saved stopped)).1 ≡ true)
    × ((release 4000 "op" (saved stopped)).0.st.halted ≡ none)
    × ((counts as_is cfg 5000 (release 4000 "op" (saved stopped)).0.st).failed_24h ≡ 0)
release-afresh_example =
    release-afresh as_is cfg 4000 "op" (saved stopped) halt 5000 refl (unfold at_of in omega arith)

stopped_blocks : wallet_blocked as_is cfg 4000 node stopped ≡ true
unfolding wallet_blocked wallet_failures key_of at_of released_at
stopped_blocks = refl

release_wallet-unblocks_example :
    ((release_wallet as_is cfg 4000 node (saved stopped)).1 ≡ true)
    × (wallet_blocked as_is cfg 5000 node (release_wallet as_is cfg 4000 node (saved stopped)).0.st
        ≡ false)
release_wallet-unblocks_example =
    release_wallet-unblocks as_is cfg 4000 node (saved stopped) 5000 (unfold is_key in refl) refl
      stopped_blocks (unfold at_of in omega arith)
