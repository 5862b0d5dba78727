-- ===== src/Lib.antt =====
-- libe2c, a synchronous state machine replication library: a leader proposes blocks of commands, a
-- replica that receives a proposal forwards it, and commits the block when twice the network delay
-- has passed; a client waits for enough replies.
--
-- The parts, and the files that model them:
-- Wire: the streams and hashes of salticidae, a git submodule, as a parameter (`Salticidae`) with
--   the laws that the code relies on (`IsStream`); sizes and lists of hashes.
-- Crypto: include/libe2c/crypto.h and src/crypto.cpp, over libsecp256k1 as a parameter
--   (`Secp256k1`, `IsSecp256k1`). Crypto/Keys: the codec of keys. Crypto/Quorum: certificates of
--   several replicas. Crypto/Pool: the thread pool of include/libe2c/task.h, and
--   Crypto/Pool/Turns the turns of its workers.
-- Entity: include/libe2c/entity.h and src/entity.cpp. Entity/Config: `ReplicaConfig`.
--   Entity/Storage: `EntityStorage`. Entity/Codec: `Block::serialize`, `unserialize`, `verify`, and
--   the proposal message of include/libe2c/consensus.h. Entity/Text: conversions to strings.
-- Core: `E2CCore` of include/libe2c/consensus.h and src/consensus.cpp. One module for each
--   function: Core/Deliver `on_deliver_blk`, Core/Update `update`, Core/Propose `get_parents` and
--   `on_propose`, Core/Receive `on_receive_proposal`, Core/Commit `commit_timer_cb`. Core/Invariant
--   is the well-formedness of the state, Core/History what never changes back, Core/System the
--   transition system of the calls, Core/Agreement its runs, Core/Equivocation two blocks of one
--   height, Core/Ancestry the parents of blocks, Core/Text the texts of the core, and Core/Waiting
--   who waits for proposals. Core/Replicas: several replicas that exchange blocks, with one
--   proposer.
-- PaceMaker: `E2CSyncPaceMaker` of include/libe2c/liveness.h.
-- Net: `E2CBase` of include/libe2c/e2c.h and src/e2c.cpp. Net/Commands: the queue of commands and
--   the answers. Net/Fetch: fetching and delivering blocks. Net/Handlers: the messages. Net/Start:
--   the constructor and `start`. Net/Async: the continuations of the promises, and Net/Async/Events
--   the replica as a program of events. Net/App: the handlers of programs/application.cpp, and
--   Net/App/Serving the whole application with its timers, connections, event loops and end.
-- Client: programs/client.cpp and include/libe2c/client.h.
-- Program: how programs start. Program/Replica: `main` of programs/application.cpp and `E2C::start`.
--   Program/Client: `main` of programs/client.cpp. Program/Keygen: src/keygen.cpp. The text functions
--   of salticidae and of the standard library are a parameter (`Texts`).
-- Tests: concrete runs, with small instances of the parameters.
-- Prelude: numbers, lists, association lists and outcomes that the others share.
--
-- How they interact: Net holds a Core and a PaceMaker. Its handlers parse messages with
-- Entity/Codec, deliver blocks and hand proposals to the Core; what the Core puts out, `handle`
-- passes on to peers and clients. Net/Async ties the handlers together: a handler that waits leaves
-- a callback, a promise that resolves makes callbacks ready, and an event calls one. Its runs are
-- runs of Core/System. Client and Net share the messages of Client/Messages.
--
-- Conventions: numbers are natural numbers, with `% 2 ^ w` where a fixed width wraps. A block is
-- shared and mutated in place, so Core has a heap of blocks and a reference is an index of it; a
-- pointer that may be null is an `Option`. A failing call is a `Result`; the source catches none of
-- these errors, so an error ends the run. A set or hash table is a list, newest or oldest first; no
-- result depends on the order in which the source's tables are iterated. A duration is a natural
-- number.
--
-- Fuel: the loop of `commit_timer_cb` has no exit of its own; it is given two rounds, since the second
-- one meets the block that the first one has decided. The client's sending loop takes its fuel as an
-- argument; a free place of the window takes one round, and the last round ends the loop.
--
-- Not modelled: log lines, but for the read of a first parent's hash that the log line of
-- `propose_handler` makes; the promise library, a vendored copy, whose promises are values, entries
-- of a table or callbacks that wait; the registration of options and signals, TLS objects, and what
-- the statistics print; src/tls_keygen.cpp, which only calls salticidae. A commit timer's thread runs
-- its callback as one step, so races inside a callback are not covered. The source calls the
-- callbacks of a promise at once, one inside the other; Net/Async calls a ready callback as a step of
-- its own, and any ready one may be next, so what is nested in the source comes afterwards here. A
-- rejected promise has no callback in the source, and none here.
pub mod Client
pub mod Core
pub mod Crypto
pub mod Entity
pub mod Net
pub mod PaceMaker
pub mod Prelude
pub mod Program
pub mod Tests
pub mod Wire
