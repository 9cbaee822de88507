-- ===== src/Lib.antt =====
-- A model of Prellblock, a permissioned blockchain, with its consensus PRaftBFT, and what is proved
-- of it.
--
-- The program. A client signs transactions (crate pinxit) and sends them to an RPU, the node of the
-- blockchain. Every RPU keeps a queue of transactions, the chain of blocks (block storage) and the
-- world state that the blocks build: the accounts with their rights and the list of the RPUs. One RPU
-- is the leader of the current term. It takes a batch out of its queue, sorts it into valid and
-- invalid transactions with the transaction checker, and drives a block through three phases:
-- prepare, append and commit. The followers answer each with a signed acknowledgement, and a message
-- of the next phase carries a majority of them. A follower that finds the leader faulty votes for the
-- next leader term; a majority of votes changes the term, which can roll back the last block. A
-- follower that has missed blocks asks for them. A committed block is written to the block storage,
-- with its values in a time series for each account and key, which the reader serves to the clients.
--
-- The files.
--   Prelude and its children: shared names, wrap-around of u64, results with errors and panics
--     (Outcome), lists, finite sets (Sets), association lists for HashMap (Map).
--   Pinxit: pinxit/src. Signed, Verified, sign, verify, verify_signed_batch. Laws: what holds if the
--     signature library does what it documents.
--   Api: prellblock-client-api/src. Account (account.rs), Transaction and Query (lib.rs), Block
--     (consensus).
--   RingBuffer: prellblock/src/consensus/praftbft/ring_buffer.rs. Access: reading and writing.
--     Shift: moving the window.
--   Queue: prellblock/src/consensus/praftbft/queue.rs. Order, Oldest, Removal.
--   WorldState: prellblock/src/world_state.rs. A function for each arm of apply_transaction;
--     Peers and Consistency (accounts and peers agree), Panics, Frame, Service (WorldStateService).
--   TransactionChecker: prellblock/src/transaction_checker.rs. Authorization, Reading.
--   Consensus.Error, Consensus.Message: error.rs and message of prellblock/src/consensus/praftbft.
--   Consensus.Core: core.rs there. Signatures, Quorum, Collected, Broadcast.
--   Consensus.Validation: stateful_validate of leader.rs and of follower/stateful_validation.rs.
--   Consensus.ViewChange: view_change. Votes, Terms, Handling.
--   Consensus.Store: the interface of the block storage that the follower relies on.
--   Consensus.Follower: follower/state.rs, and consensus/transaction_applier.rs. The state of a
--     follower with its operations, and the node that it changes. Coherence, Rounds, Start, Promise; and
--     Handlers, which is follower/mod.rs: the handlers of prepare, append and commit messages; and
--     Synchronizer, which is follower/synchronizer.rs and the handler of a new view; its Request is
--     the answer to a synchronization request.
--   Consensus.Leader: leader.rs there. Batch and Wakeups (the queue), Committing and Majority (the
--     phases), Honest (the messages of a round are taken by the followers that are not faulty).
--   Consensus.Dispatch: mod.rs there, which gives a message to its handler, and
--     consensus/censorship_checker.rs. Answered; Promises and Runs (what an RPU acknowledges).
--   Consensus.Notify: notify.rs there. Slab is what it asks of the crate slab. Entries, Steps, Runs.
--   Consensus.Agreement: what is committed in a round, by the runs of the RPUs that are not faulty.
--   BlockStorage: prellblock/src/block_storage. Sled is what it asks of the trees of sled. Times, Chain,
--     Writing; Consensus fills the interface Consensus.Store; Ranges; and Series, the reading of values.
--   Reader: prellblock/src/reader.rs. Access, Values.
--   Intake: turi.rs, batcher.rs, data_broadcaster.rs and peer_inbox.rs of prellblock/src, the way of a
--     transaction from a client to the queues. Delivered.
--   Fixtures, and a module Tests in each part: small runs, and an example for each result.
--
-- How the code is modelled.
--   - A public key, a signature, a hash and a socket address are the number that their bytes spell;
--     only their equality is used. u64 and usize are natural numbers; where the code adds or subtracts,
--     the result wraps at 2 ^ 64, as in a release build.
--   - A method with &mut self takes the state and returns it. Option none or Outcome panicked is a
--     panic: unwrap on none, a failed assert!, unreachable!, a division by zero. What an early return
--     leaves changed is changed in the model too; a handler returns the node also with an error. A panic
--     ends the task only, so the handlers also return what a panic of a commit, an applied block or a
--     rollback leaves of the node (left_by_commit, left_by_apply, left_by_rollback): the coherence of a
--     follower is claimed unless the task panics. Two parts are not followed behind a panic: the view
--     change, whose mutex is poisoned by it, and what a failed call of the block storage leaves on disk.
--   - A HashMap is an association list, newest entry first. Where the code iterates over one (the
--     signatures of a new view) the order is that of this list, and no result depends on it.
--   - The clock is an argument: one value for each call, and one for each inserted queue entry.
--   - A loop over a list is recursion on it; `for _ in start..index` is recursion on the number of its
--     rounds; the inner loop of the follower's check is recursion on the transactions that are left.
--     A batch of the leader is recursion on the room in the block, and its endless loop takes the list
--     of what its rounds find around them. Only the reading of a series has fuel: each turn of its loop
--     takes a value, so one more than the values of the series is enough, and it is shown to be.
--   - A lock is held for one step. state_in_block, which waits and synchronizes, is represented by the
--     node that it yields. A broadcast is a function of the answers in the order of their arrival.
--   - ed25519_dalek, the serialisation of what is signed, and the hash of a body are the fields of
--     Externals. The results that need more of them say so: IsSound is what the documentation of
--     ed25519_dalek promises. The follower sees the block storage as a BlockStore with the laws of an
--     ordered list, and BlockStorage has these laws.
--   - sled is the record Sled, an ordered map with its laws, each call of which can fail; postcard is
--     the record Codec, whose decoding undoes its encoding; slab is the record Slab.
--   - A time is the nanoseconds from the earliest one.
--
-- Not modelled: the network (balise), the choice of the RPU that is asked for a synchronization, the
-- waiting of a handler until its block number is reached, data_storage.rs, peer/calculator.rs, the start
-- of the processes, the wizard for a new chain and the client program. They are input and output, or
-- wait for the threads of tokio.
pub mod Prelude
pub mod Fixtures
pub mod RingBuffer
pub mod Pinxit
pub mod Api
pub mod Queue
pub mod WorldState
pub mod TransactionChecker
pub mod Consensus
pub mod BlockStorage
pub mod Reader
pub mod Intake
