-- ===== src/Lib.antt =====
-- A model of bft-kit, a library of Byzantine fault tolerant replication protocols in Rust.
-- Paths are from the repository's root.
--
-- Clients send commands to the replicas. A replica keeps the commands that wait in a command
-- pool, orders them in blocks by a protocol, and hands the commands of a finalized block to the
-- service. The protocol is split in two: a core, which knows blocks and quorums, takes events
-- and answers with actions; and the replica around it, which turns messages into events, and
-- actions into messages and further events, and which signs and verifies.
--
-- Base: lists, maps with numbers as keys, machine words, and `Outcome`: `done`, `panic` (a
--   failed `assert!`, `unwrap` or index, or a `todo!`) or `out_of_fuel`.
-- Command: `Command` and the bytes that are hashed, of src/command.rs and src/client.rs.
-- Pool: src/command/pool.rs. Pool/OpenLoop and Pool/CloseLoop have the two pools with `push`,
--   `close_batch` and `commit` as functions on the pool; their children have the invariants.
-- Crypto: src/crypto.rs, over the record `Primitives` of what the crates for SHA-256, secp256k1
--   and Ed25519 compute. `IsSound` states what they document: a signature verifies under its
--   own key. The build is one that is no test: under `cfg!(test)` the code signs and verifies
--   nothing. Crypto/Threshold: src/crypto/threshold.rs, over the record `Schemes` of what the
--   crates threshold_crypto and givre compute, its child Reordered about the order of a
--   `HashMap`. Crypto/Codec: the `Encode` and `Decode` that both files write by hand, over
--   records of the formats of bincode and of the crates.
-- Pbft/Core: `ReplicaCore` of src/pbft/mod.rs; `handle` takes an event to the new core and the
--   actions in the order in which the code pushes them. Pbft/Replica: `Replica`; Receive has
--   the `match` on the message, Drain the loop over the actions and `receive`, Tick the timer.
--   Kept, WellFormed and Core/Certificates have the invariant of a replica, Rounds the end of
--   the loop, Recorded and Votes what becomes of signed votes.
-- Replica: the interface of src/replica.rs between a protocol and what runs it. Network:
--   `System` of src/testing.rs, and `Effect` of src/pbft/tests.rs, which is the same in
--   src/hotstuff/tests.rs, over any replica. Network/Runs has runs in which messages are also
--   lost, repeated and forged. Pbft/Agreement has the runs of PBFT: what may be forged, and
--   what then holds; Pbft/Core/Grows, Pbft/Core/Signed and Pbft/Replica/Signed have what the
--   votes in a replica are for. The replicas there sign and verify, as in a release build.
-- Service: `ServiceTask` of src/transport.rs and the services of src/unreplicated.rs,
--   src/pbft/transport.rs and src/hotstuff/transport.rs. Service/Once has the law that they
--   obey and what follows from it. `none` is the error that ends a task. A client of the model
--   is the key of its connection.
-- Client: the loops of the clients in the same files, an iteration at a time: `invoke_pbft` and
--   its like for an invocation, `on_pbft_reply` and its like for a reply. Backed, Counted and
--   Replies beside it have what the recorded replies come to.
-- Hotstuff: `ReplicaCore` of src/hotstuff/mod.rs over the record `Slab` of what the crate slab
--   offers, and the messages of src/hotstuff/message.rs. Core/Votes has what it votes for,
--   Core/Ancestors, Core/Stored and Core/Total why its walks to the ancestors of a node end,
--   Core/Finalized what a commit finalizes, and Core/Calm and Core/Measure what bounds its
--   proposals. Hotstuff/Replica: `Replica`; Receive has the `match` on the message with the
--   blocks that wait for others, Effects the loop over the actions and `receive`. Pending and
--   Matched have the end of the match, Waiting, Released, Fits and Waits what the blocks wait
--   for, Chosen whom a proposal asks to sign, Nonces and Unspent the nonces, Load and Rounds
--   the end of the loop over the actions, Rejects the votes that are refused.
-- The Examples beside them run all this on concrete values.
--
-- A number of `w` bits wraps at 2^w, as in a release build. A map is a list of pairs in the
-- order of the keys. Where the code goes through a `HashMap`, whose order is arbitrary, that
-- order is a parameter: the fields `drain` (in `add_partial`) and `keys` (in `refill_nonces`)
-- of `Schemes`, and the argument `order` of `verify_digest`. A loop of the code with no bound
-- of its own runs on fuel: `propose` on `max_num_inflight`, and the finalizing loop on the
-- number of blocks, which the results on `propose_all` and `finalize_all` show to be enough;
-- the loop of `receive` on four rounds, which `at_most_four` and `drain_enough` show to be
-- enough. The walks of HotStuff to the parents of a node run on the number of nodes, which is
-- enough, as Core/Ancestors and Core/Total prove.
--
-- `handle_pending` of the HotStuff replica runs on a square of the number of blocks that are
-- pending or wait, which `dispatch-ends` shows to be enough; the rounds of its
-- `effect_core_actions` are an argument, and `effect_enough` shows how many are enough. The
-- random generator of the HotStuff replica is a function of the number of draws so far.
--
-- Not modelled: the channels, sockets and clocks around clients, services and replicas; the
-- workload generator, options and logging.
pub mod Base
pub mod Command
pub mod Pool
pub mod Crypto
pub mod Pbft
pub mod Hotstuff
pub mod Service
pub mod Client
pub mod Network
pub mod Replica
