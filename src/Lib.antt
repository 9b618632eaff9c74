-- ===== src/Lib.antt =====
-- Verification of the LIJOX adapter, the Node program that lets a Lightning node serve browser
-- wallets: channels opened as a payment arrives, held payments, chain data over peer messages.
--
-- Hex, Wire      cooperative-chain-msg.js, the binary messages between wallet and provider.
--                `put_x` and `get_x` are the bodies of `encodeX` and `decodeX` between
--                `new Writer()`/`new Reader(buf)` and `finish()`/`return`; `Wire.Dispatch` has
--                `decodeByType`. A writer is the concatenation of its chunks, a reader the unread
--                rest of its buffer. Numbers are non-negative integers, so the `Number.isInteger`
--                tests, which the types decide, are left out; hexadecimal texts are lists of
--                character codes, and `detail` is its UTF-8 bytes.
-- Sm             lij-sm.js, the shadow state machine of a payment: `transition`, each handler,
--                the timer of `hold_created`, the census, and a run as a list of timed steps. A
--                journal line is a value, not a text; `BigInt` of a text that is no number is
--                `none`; a step reads the clock once; the [SM-STATE] census line is left out.
-- Guard          jit-guard.js, the count of failed JIT opens, the halt and the wallet blocks: each
--                operation, the restart, and a run as a list of timed operations. `toLowerCase`
--                is an argument; the rows for the Console and the journal texts are left out.
-- Funding        jit-funding.js, an open whose funding is published only when the wallet has
--                claimed. A record goes through `mark_paid`, `publish`, `abandon` and the turn of
--                the sweep (`sweep_record`); a call of LND is an effect, and its answer, which may
--                be a failure, an argument. `abandon` is `begin` and, after the grace, `finish`.
--                `Funding.Fee` has the fee dials and `feeRate`.
--                Texts are not cut to their lengths, the table of records, the open itself,
--                the state file and the reading of LND's pending entries are left out.
-- Tx             btc-tx.js, transactions as bytes: `serialize`, `parse`, the script numbers, the
--                hand-over script, sizes, the BIP-143 hash and the take-back. An id is the 32 bytes
--                of its text; `Number` of a BigInt, SHA-256 and the signer are arguments, rates are
--                in sat per 1000 vbytes. Addresses are left out.
-- Pay            onchain-pay.js, Lightning pays on-chain: `Pay.Quote` has the bounds and the routes,
--                `Pay.Lock` sendLock, bumpLock and watchInvoices, `Pay.Spent` onHandoverSpent,
--                `Pay.TakeBack` takeBack, `Pay.Tick` the tick, `Pay.Life` a payment's life as a list
--                of events. Calls of Bitcoin Core and LND are effects, their answers arguments. A
--                handler runs as one step. The HTTP routing, the signed files and the probe of the
--                float are left out.
-- Pool           tatara-channels.js, the watch over a channel pool's pending channels: its state, the
--                streams, a spend, which every stream at its outpoint tells, and what the tick
--                does with one watch; `inputsOf` on bytes. The file and the reading of the backups
--                are left out.
-- Waiting        tatara-list.js, the waiting list of the pools: the seats with their queues, the head
--                group, the starts, the attempts and their reports, the rooms, the tick, a restart.
--                An operation is a function of the state; new ids are taken from a sequence.
-- Limits         wallet-limits.js, the window limiter: `hit` and `sweep` on a function from keys.
--
-- The guard and the funding stand beside the interceptor of lij-adapter.js, which calls them and
-- emits the events of `Sm`; the interceptor, the HTTP routes and the clients of LND are not
-- modelled. `Tx` serves `Pay`. Every loop goes over a list or a count, but for the digits of
-- `script_num`, whose fuel is the number itself: it is divided by 256 at each turn, so that is enough.
pub mod Funding
pub mod Guard
pub mod Hex
pub mod Limits
pub mod Pay
pub mod Pool
pub mod Prelude
pub mod Sm
pub mod Tx
pub mod Waiting
pub mod Wire
