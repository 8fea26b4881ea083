-- ===== src/Persistence/Postgres/Kept.antt =====
-- The writes of persistence/postgres_repository keep the constraints of the tables.
use mathlib.Core.Option.{some_inj}
use meesign_server.Base.{
  inr, ◌∙◌, subst, inl, nat_beq, Bool-cases, ◌<◌, ℕ, bytes_beq_iff, nat_beq_iff, nat_eq, pair_eq,
  bytes_eq, ◌≡◌, true, some, Bytes, arith,
}
use meesign_server.Base.Map.{get, contains_key, insert, get-insert, insert-IsMap}
use meesign_server.Persistence.Models.{TaskResultRow, IsChecked}
use meesign_server.Persistence.Postgres.{
  DeviceRow, update_row, GroupRow, TaskRow, TaskParticipantRow, i32_limit, Database,
}
use meesign_server.Persistence.Postgres.Consistent.{IsConsistent}
use meesign_server.Persistence.Postgres.Rows.{get-update_row, update_row-IsMap}

module _ (db : Database) (c : IsConsistent db) where
  pub with_device :
      (id : Bytes) (row : DeviceRow) → IsConsistent (record db { device = insert id row db.device })
  with_device id row = grind (arith, get-insert, insert-IsMap)

  pub with_group :
      (id : Bytes) (row : GroupRow) → IsConsistent (record db { groups = insert id row db.groups })
  with_group id row = grind (arith, get-insert, insert-IsMap)

  pub with_group_participant :
      (g d : Bytes) (shares : ℕ)
      → contains_key g db.groups ≡ true
      → contains_key d db.device ≡ true
      → IsConsistent (record db { group_participant = insert (g, d) shares db.group_participant })
  with_group_participant g d shares known_g known_d =
      grind (arith, get-insert, insert-IsMap, bytes_beq_iff)

  pub with_task :
      (id : ℕ) (row : TaskRow)
      → ((g : Bytes) → row.group_id ≡ some g → contains_key g db.groups ≡ true)
      → (0 < row.threshold) × (row.threshold < i32_limit) × (row.attempt_count < i32_limit)
      → IsConsistent (record db { task = insert id row db.task })
  with_task id row known checked = grind (arith, get-insert, insert-IsMap, nat_beq_iff)

  pub with_participant :
      (id : ℕ) (d : Bytes) (row : TaskParticipantRow)
      → contains_key id db.task ≡ true
      → contains_key d db.device ≡ true
      → (0 < row.shares) × (row.shares < i32_limit)
      → IsConsistent (record db { task_participant = insert (id, d) row db.task_participant })
  with_participant id d row known_id known_d checked =
      grind (arith, get-insert, insert-IsMap, nat_beq_iff, bytes_beq_iff)

  pub with_active :
      (id : ℕ) (d : Bytes) (shares : ℕ)
      → contains_key (id, d) db.task_participant ≡ true
      → IsConsistent
          (record db { active_task_participant = insert (id, d) shares db.active_task_participant })
  with_active id d shares known =
      grind (arith, get-insert, insert-IsMap, nat_beq_iff, bytes_beq_iff)

  pub with_result :
      (id : ℕ) (row : TaskResultRow)
      → contains_key id db.task ≡ true
      → IsChecked row × (row.task_id ≡ id)
      → IsConsistent (record db { task_result = insert id row db.task_result })
  with_result id row known checked = record {
    device_keys = c.device_keys;
    group_keys = c.group_keys;
    group_participant_keys = c.group_participant_keys;
    task_keys = c.task_keys;
    result_keys = insert-IsMap id row db.task_result c.result_keys;
    participant_keys = c.participant_keys;
    active_keys = c.active_keys;
    group_participants_known = c.group_participants_known;
    task_groups_known = c.task_groups_known;
    results_known = λ j h.
        ground (arith, c.results_known j, get-insert id j row db.task_result, nat_beq_iff id j);
    participants_known = c.participants_known;
    active_known = c.active_known;
    results_checked = λ j r h. elim (Bool-cases (nat_beq id j)) [
      | inl same ↦
          let r_row : row ≡ r =
            some_inj.0 (ground (arith, get-insert id j row db.task_result, same, h)) in
          subst (λ x. IsChecked x × (x.task_id ≡ j)) r_row
            (checked.0, checked.1 ∙ (nat_beq_iff id j).0 same)
      | inr other ↦
          c.results_checked j r (ground (arith, get-insert id j row db.task_result, other, h))
    ];
    tasks_checked = c.tasks_checked;
    shares_checked = c.shares_checked;
  }

  pub updated_task :
      (id : ℕ) (f : TaskRow → TaskRow)
      → ((row : TaskRow) → (f row).group_id ≡ row.group_id)
      → ((row : TaskRow)
          → get id db.task ≡ some row
          → (0 < (f row).threshold)
            × ((f row).threshold < i32_limit)
            × ((f row).attempt_count < i32_limit))
      → IsConsistent (record db { task = update_row id f db.task })
  updated_task id f same checked = grind (arith, get-update_row, update_row-IsMap, nat_beq_iff)

  pub updated_participant :
      (id : ℕ) (d : Bytes) (f : TaskParticipantRow → TaskParticipantRow)
      → ((row : TaskParticipantRow) → (f row).shares ≡ row.shares)
      → IsConsistent (record db { task_participant = update_row (id, d) f db.task_participant })
  updated_participant id d f same = grind (arith, get-update_row, update_row-IsMap)
