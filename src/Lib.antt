-- ===== src/Lib.antt =====
-- MeeSign server: a verification library for the server of the MeeSign threshold signing system.
--
-- The server relays the messages of threshold protocols between devices. Devices vote on a task;
-- once enough shares accept, the server chooses the active shares, assigns them protocol indices
-- and runs the rounds of a protocol: it waits for the messages of a round, relays them, and takes
-- the result from the last one. Tasks are kept in a cache over a database, and a task that is not
-- cached is rebuilt from its rows.
--
-- Files, and the parts of the program (paths from the repository's root):
--   Base            shared lists, maps, numbers, and `Exec`, the state passing of methods that may
--                   fail or panic (the errors of src/error.rs and src/persistence/error.rs)
--   Persistence     src/persistence: enums.rs, models.rs, utils.rs and the trait of repository.rs
--                   as the record Repository; Postgres is postgres_repository.rs over the tables of
--                   schema.rs and of the migration, with Devices, Groups and Tasks for device.rs,
--                   group.rs and task.rs, and Repo for the implementation of the trait
--   Communicator    src/communicator.rs, with one function per method; Messages has the types of
--                   the crate meesign_crypto and, as the parameter `Crypto`, what is used of it
--   Protocols       src/protocols: each of gg18.rs, frost.rs, musig2.rs and elgamal.rs as a module,
--                   whose `group_*` functions are the methods of the key generation and whose
--                   `sign_*` functions those of signing or decryption; `Protocol` is the trait
--   Tasks           src/tasks: Info, Voting, Running and Task are mod.rs, GroupTask is group.rs,
--                   SignTask sign.rs, SignPdfTask sign_pdf.rs, DecryptTask decrypt.rs; `next_step`
--                   is the method `next_round`; Helper is the Java helper as a parameter
--   Shares          the assignment of protocol indices in src/state.rs and
--                   src/cached_task_store.rs
--   TaskStore       src/cached_task_store.rs: the cache; Rows and Hydrate make
--                   tasks of their rows
--   State           src/state.rs: State the record and the notification of clients, Choose
--                   `choose_active_shares`, Decide `decide_task`, Update `update_task`,
--                   `acknowledge_task` and `restart_stale_tasks`, Create the `add_*_task` methods
--   Interfaces      src/interfaces: Auth, Messages and Grpc are grpc.rs, where `updated`, `decided`
--                   and `acknowledged_by` are the ends of three handlers; Service is the service by
--                   request; Timer is timer.rs
--   Examples        concrete data, tests and instances of the theorems
--
-- Conventions. Numbers are natural numbers with the wrap-around of the release profile written out
-- (`u16`, `u32`, `u64`, `as_i8`); columns that the code casts from i32 are natural numbers. A
-- `HashMap` is an association list in any order. A method that changes `self` is an `Exec`: it
-- returns a value, an error or a panic, with the state that it leaves in each case. An identifier
-- of a task is a number. A handler reads the clock once and holds the lock on its task to its end.
-- A table is a map from its primary key. Its order stands for the unspecified order in which queries
-- find its rows: `Reordered` relates databases that differ in it only, and where a theorem compares
-- what is read with what was written or read before, the rows may have been reordered in between. A
-- statement that violates a constraint is an error and changes nothing, a transaction that fails is
-- rolled back, and the connection itself does not fail. A request ends in a response, a status or a
-- panic of its handler.
-- All recursion is on lists and strings, so no definition takes fuel.
--
-- Parameters. `Crypto` (crate meesign_crypto, prost), `Helper` (the Java helper and its processes),
-- `Repository` (the trait), `Services` (channels of tokio, `choose_multiple` of rand, encoders
-- of requests), and `Web` (digests, hexadecimal text, tokens under the server's secret, identifiers,
-- the decoding of messages, X.509). The hypotheses on them are `IsSample`: `choose_multiple` returns
-- some of the given elements, each at most as often as it is given, and no more than are asked for;
-- `KeepsIds`: the database returns a new device under the identifier that it was given, which the
-- model of the database does; and `IsFaithful`: decoding gives back what was encoded.
--
-- Not modelled: the pool of connections and the run of the migrations, the set-up of TLS and CORS
-- and the building of certificates in src/interfaces/grpc.rs, start-up in src/main.rs, and logging;
-- and the poisoning of the mutex of PDF_HELPERS in src/tasks/sign_pdf.rs by a panic under its guard.
pub mod Base
pub mod Persistence
pub mod Communicator
pub mod Protocols
pub mod Tasks
pub mod Shares
pub mod TaskStore
pub mod State
pub mod Examples
pub mod Interfaces
