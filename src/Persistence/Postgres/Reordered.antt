-- ===== src/Persistence/Postgres/Reordered.antt =====
-- The tables of persistence/schema.rs with their rows in another order: without `ORDER BY` a query
-- may find the rows of a table in any order.
pub mod Reads
use mathlib.Core.List.Permᴰ
use mathlib.Core.List.{Permᴰ, []}
use meesign_server.Base.{
  ℕ, ◌≡◌, ◌+◌, refl, Bytes, arith, nat_eq, bytes_eq, pair_eq, ap, ◌∙◌, sym, is_some,
}
use meesign_server.Base.Map.{Map, get, contains_key, IsMap}
use meesign_server.Base.Reorder.{get-Perm}
use meesign_server.Persistence.Postgres.{select, Database, TaskRow}
use meesign_server.Persistence.Postgres.Consistent.{IsConsistent}

pub record Reordered (a b : Database) : Type 0 where
  pub device : Permᴰ a.device b.device
  pub groups : Permᴰ a.groups b.groups
  pub group_participant : Permᴰ a.group_participant b.group_participant
  pub task : Permᴰ a.task b.task
  pub task_result : Permᴰ a.task_result b.task_result
  pub task_participant : Permᴰ a.task_participant b.task_participant
  pub active_task_participant : Permᴰ a.active_task_participant b.active_task_participant

pub Reordered-same : (db : Database) → Reordered db db
Reordered-same db = record {
  device = Permᴰ.refl _;
  groups = Permᴰ.refl _;
  group_participant = Permᴰ.refl _;
  task = Permᴰ.refl _;
  task_result = Permᴰ.refl _;
  task_participant = Permᴰ.refl _;
  active_task_participant = Permᴰ.refl _;
}

-- The order of the rows does not matter to the constraints.
pub Reordered-IsConsistent : {db d : Database} → Reordered db d → IsConsistent db → IsConsistent d
Reordered-IsConsistent {db} {d} r c =
    let (device_keys, device) = get-Perm r.device c.device_keys in
    let (group_keys, groups) = get-Perm r.groups c.group_keys in
    let (member_keys, members) = get-Perm r.group_participant c.group_participant_keys in
    let (task_keys, task) = get-Perm r.task c.task_keys in
    let (result_keys, results) = get-Perm r.task_result c.result_keys in
    let (participant_keys, participants) = get-Perm r.task_participant c.participant_keys in
    let (active_keys, active) = get-Perm r.active_task_participant c.active_keys in
    record {
      device_keys = device_keys;
      group_keys = group_keys;
      group_participant_keys = member_keys;
      task_keys = task_keys;
      result_keys = result_keys;
      participant_keys = participant_keys;
      active_keys = active_keys;
      group_participants_known = λ g e h.
          let (there, known) = c.group_participants_known g e (rw (sym (members (g, e))) h) in
          (rw (groups g) there, rw (device e) known);
      task_groups_known =
          λ id row g h e. rw (groups g) (c.task_groups_known id row g (sym (task id) ∙ h) e);
      results_known = λ id h. rw (task id) (c.results_known id (rw (sym (results id)) h));
      participants_known = λ id e h.
          let (there, known) = c.participants_known id e (rw (sym (participants (id, e))) h) in
          (rw (task id) there, rw (device e) known);
      active_known =
          λ id e h. rw (participants (id, e)) (c.active_known id e (rw (sym (active (id, e))) h));
      results_checked = λ id row h. c.results_checked id row (sym (results id) ∙ h);
      tasks_checked = λ id row h. c.tasks_checked id row (sym (task id) ∙ h);
      shares_checked = λ id e row h. c.shares_checked id e row (sym (participants (id, e)) ∙ h);
    }
