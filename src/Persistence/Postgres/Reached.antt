-- ===== src/Persistence/Postgres/Reached.antt =====
-- The databases that the calls of persistence/postgres_repository.rs lead to.
use meesign_server.Base.{arith, ℕ, Bool, String, Option, List, [], Bytes}
use meesign_server.Base.Map.{get, Map}
use meesign_server.Persistence.Enums.{DeviceKind, ProtocolType, KeyType, TaskType}
use meesign_server.Persistence.Models.{Verdict}
use meesign_server.Persistence.Postgres.{Database}
use meesign_server.Persistence.Postgres.Consistent.{IsConsistent, transaction-Keeps}
use meesign_server.Persistence.Postgres.Invariant.{
  add_device-Keeps, add_group-Keeps, create_task-Keeps, create_group_task-Keeps, decision-Keeps,
  acknowledgement-Keeps, active_shares-Keeps, result-Keeps, certificates-Keeps, round-Keeps,
  attempts-Keeps,
}
use meesign_server.Persistence.Postgres.Repo.{postgres}

-- The methods of the trait that write.
pub data Call : Type 0 where
  add_device : Bytes → String → DeviceKind → Bytes → Call
  add_group : Bytes → ℕ → String → ℕ → ProtocolType → KeyType → Option Bytes → Option String → Call
  create_group_task :
      ℕ → List (Bytes × ℕ) → ℕ → String → ProtocolType → KeyType → Bytes → Option String → Call
  create_threshold_task :
      ℕ
      → Bytes
      → List (Bytes × ℕ)
      → ℕ
      → String
      → Bytes
      → Bytes
      → TaskType
      → KeyType
      → ProtocolType
      → Call
  set_task_decision : ℕ → Bytes → Bool → Call
  set_task_acknowledgement : ℕ → Bytes → Call
  set_task_active_shares : ℕ → Map Bytes ℕ → Call
  set_task_round : ℕ → ℕ → Call
  increment_task_attempt_count : ℕ → Call
  set_task_result : ℕ → Verdict → Call
  set_task_group_certificates_sent : ℕ → Option Bool → Call

-- The database after a call, which may succeed, fail or panic.
unfoldable pub after : Call → Database → Database
unfolding postgres
after (add_device i n k c) db = (postgres.add_device i n k c db).1
after (add_group i t n h p k c r) db = (postgres.add_group i t n h p k c r db).1
after (create_group_task i ps h n p k q r) db = (postgres.create_group_task i ps h n p k q r db).1
after (create_threshold_task i g ps h n c q t k p) db =
    (postgres.create_threshold_task i g ps h n c q t k p db).1
after (set_task_decision i d a) db = (postgres.set_task_decision i d a db).1
after (set_task_acknowledgement i d) db = (postgres.set_task_acknowledgement i d db).1
after (set_task_active_shares i m) db = (postgres.set_task_active_shares i m db).1
after (set_task_round i r) db = (postgres.set_task_round i r db).1
after (increment_task_attempt_count i) db = (postgres.increment_task_attempt_count i db).1
after (set_task_result i v) db = (postgres.set_task_result i v db).1
after (set_task_group_certificates_sent i s) db =
    (postgres.set_task_group_certificates_sent i s db).1

-- The database that the migration creates.
abbrev pub no_rows : Database
no_rows = record {
  device = [];
  groups = [];
  group_participant = [];
  task = [];
  task_result = [];
  task_participant = [];
  active_task_participant = [];
}

pub data Reached : Database → Type 0 where
  created : Reached no_rows
  next : {db : Database} → Reached db → (c : Call) → Reached (after c db)

no_rows-IsConsistent : IsConsistent no_rows
unfolding get
no_rows-IsConsistent = grind arith

after-IsConsistent : (c : Call) (db : Database) → IsConsistent db → IsConsistent (after c db)
unfolding after postgres
after-IsConsistent (add_device i n k c) = add_device-Keeps i n k c
after-IsConsistent (add_group i t n h p k c r) =
    transaction-Keeps _ (add_group-Keeps i t n h p k c r)
after-IsConsistent (create_group_task i ps h n p k q r) =
    transaction-Keeps _ (create_group_task-Keeps i ps h n p k q r)
after-IsConsistent (create_threshold_task i g ps h n c q t k p) =
    transaction-Keeps _ (create_task-Keeps i g ps h n c q t k p)
after-IsConsistent (set_task_decision i d a) = decision-Keeps i d a
after-IsConsistent (set_task_acknowledgement i d) = acknowledgement-Keeps i d
after-IsConsistent (set_task_active_shares i m) = active_shares-Keeps i m
after-IsConsistent (set_task_round i r) = round-Keeps i r
after-IsConsistent (increment_task_attempt_count i) = attempts-Keeps i
after-IsConsistent (set_task_result i v) = result-Keeps i v
after-IsConsistent (set_task_group_certificates_sent i s) = certificates-Keeps i s

-- Every database that the calls of the repository lead to from empty tables, whether they
-- succeed, fail or panic, is consistent: no primary key occurs twice, participants and results
-- belong to rows of their task or group and of their device, and tasks of a group to a row of the
-- group, so reading through the joins meets no dangling reference.
pub reached-IsConsistent : {db : Database} → Reached db → IsConsistent db
reached-IsConsistent created = no_rows-IsConsistent
reached-IsConsistent (next r c) = after-IsConsistent c _ (reached-IsConsistent r)
