-- ===== src/Lib.antt =====
-- A model of the private payment ledger of px402 and of the modules that it works with.
--
-- The program. An operator keeps private balances of agents in a ledger
-- (src/server/payments/PrivatePaymentLedger.ts). Deposits seen on a chain raise a balance and lower
-- the escrow account of the asset; agents pay each other by transfers, melt balances into blind
-- vouchers and redeem them, and are paid out on chain. Every payment is written, before the balances
-- change, to an encrypted journal of epochs (src/server/payments/EphemeralPaymentJournal.ts).
-- Settlement batches commit to the payments by a Merkle root; some time after a batch is settled,
-- its payments are forgotten and the keys of their epochs destroyed. Payouts leave in windows that a
-- gate holds back while too few accounts pay in them (src/shared/payoutConcentration.ts), split into
-- standard amounts (src/shared/denominations.ts). The queue (src/server/payments/PoolPayoutQueue.ts)
-- keeps each payout as a group of legs in a journal of its own (PendingPayoutJournal.ts), hands the
-- legs to the rail of their network (src/server/rails/ChainRail.ts), and, from what the rail reports,
-- settles a leg's payout in the ledger or reverses it. Legs that leave together are a cohort, which is
-- recorded in a book (CohortBook.ts) before any of them leaves, and settled once all have ended.
--
-- Files.
--   Prelude    what the modules share: Boolean tests, lists, integers, texts, dictionaries, and the
--              monad `Action` of a state and errors.
--   Journal    `EphemeralPaymentJournal`. Journal/State has the maps and the files, Journal/Methods
--              one function for each method (`seal_asset` is `seal`), Journal/Erasure what a burn does.
--   Ledger     `PrivatePaymentLedger`. Ledger/State has the ledger file as a record and the world of
--              a call: the ledger in memory, the ledger on disk and the journal. The methods stand in
--              Ledger/Vouchers, Transfers, Deposits, Payouts (`reserve_payout` is `payout`),
--              Reversals and Batches; Ledger/Accounts and Checks have what they share, Merkle the
--              root. Each method is split where the source computes the new state (`transferred`,
--              `credited`, `paid_out`, `reversed`, `with_batch`) from the guards and the writes
--              around it. Ledger/Valid has the invariant, Ledger/Outcome the contract of a method,
--              Ledger/Steps the calls one after another, as `serialize` queues them.
--              Ledger/Load is `load` with the repair of unbalanced assets, Ledger/Loaded and Conserving
--              what it leaves and how it fails; Ledger/Open describes the transfers that a batch takes.
--   Denominations  src/shared/denominations.ts: the configuration, the decomposition of a total, and
--              the parity check. `tilings` enumerates the splits by recursion; Denominations/Search is the
--              loop over the explicit stack of frames that the source writes for it.
--              Denominations/Largest is `largestTileableAtMost`, its stack given as a recursion that
--              carries the best sum from take to take.
--   Pending    `PendingPayoutJournal`: Pending/State has the groups, the legs and the patches, with the
--              test of the state; Pending/Methods `putGroup` and `updateLeg`, Pending/Marks the other
--              methods and `load`, Pending/Calls a run of calls.
--   Cohorts    `CohortBook`, in Cohorts/Book; Cohorts/Spec is the map that it stands for.
--   Queue      `PoolPayoutQueue`. Queue/State has the world, which holds the ledger, the journal and
--              the book, and the rail; Queue/Enqueue is `enqueueGroup`, Queue/Flush `flushLeg`,
--              Queue/Dispatch `dispatchLegs` and `recordDispatchError`, Queue/Reconcile
--              `reconcileNetwork`, Queue/Resolve `resolvePoolPayoutLeg`, and Queue/Verdicts
--              `applyVerdict`, `settlePrepared` and `deriveGroupState`. Queue/Gate is
--              `applyConcentrationGate`, Queue/Samples its evidence, Queue/Cohorts the planning and
--              settling of cohorts, Queue/Claims what an owner is told, Queue/Windows `flushNetwork` and
--              `reconcileNetwork` as they compose these. Queue/Steps has the operations one after
--              another, those on a leg and those on a network. An operation works on the group and the
--              leg that it was given, which the journal may have changed meanwhile; a step asks only
--              that they were listed (`IsListed`): the journal has a leg of that group and index, and
--              it is of the same payout.
--   Concentration  the metric k_eff, the gate and the adaptive target of payoutConcentration.ts.
--
-- Numbers, time and chance. `bigint` amounts are integers without a bound. Times are natural
-- numbers of milliseconds; a difference of times that is compared is written as a sum on the other
-- side, and one that is stored, as `heldMs` or a horizon, is 0 where the source has a negative
-- number. The quantile of the adaptive target, and a random number, is a fraction of natural
-- numbers, without the rounding of floating point. The clock, the random bytes and the success of
-- each write are given to every call by `Env`, `JournalEnv` and `QueueEnv`. A failed write of the
-- ledger, of the journal of payouts or of the book may have renamed the new file into place before
-- (`replaces`, `Write`), and the removal of an epoch's two files may fail for either (`removal`). A rail is a record of functions;
-- each is given the number of the call (`tick`), so that it may answer the same question in another
-- way next time. The error of a rail carries whether its text names a terminal absence or a
-- finalized occupant, which is all that the queue reads of it. SHA-256, the HMAC of the account
-- index and AES-GCM are functions of `Config`; theorems that need of the digest that it is a
-- hexadecimal text, or of the account index that two agents have two accounts, say so.
-- `toLowerCase` changes the letters A to Z alone, which are all that keys and hashes have.
--
-- Bounds. The loop over the layers of the Merkle tree runs on fuel, one round for each leaf: a layer
-- of n > 1 nodes has fewer than n above it. The loop over the stack of frames in Denominations/Search
-- is given a number of rounds. All other loops are structural.
--
-- Not modelled. The migrations of old files; the parsing of denominations from JSON; checks of the
-- shape of data that the types already give; error texts, which are constructors instead; the
-- encryption of the file and its format; the recovery of the queue at the start, its committed
-- schedule, its reports, its timers and locks, and the write of the gate's evidence to its store;
-- the parts of the program that call chains and HTTP.
pub mod Prelude
pub mod Journal
pub mod Ledger
pub mod Concentration
pub mod Denominations
pub mod Pending
pub mod Cohorts
pub mod Queue
