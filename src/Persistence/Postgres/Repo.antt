-- ===== src/Persistence/Postgres/Repo.antt =====
-- persistence/postgres_repository.rs: the trait `Repository` for `PostgresRepository`.
use meesign_server.Persistence.Postgres.{Database, transaction}
use meesign_server.Persistence.Postgres.Devices
use meesign_server.Persistence.Postgres.Groups
use meesign_server.Persistence.Postgres.Tasks
use meesign_server.Persistence.Repository.{Repository}

unfoldable pub postgres : Repository Database
unfolding transaction Devices.add_device Devices.get_devices Devices.get_group_participants
    Devices.get_tasks_participants Groups.add_group Groups.get_group Groups.get_groups
    Groups.get_device_groups Tasks.create_group_task Tasks.create_task Tasks.get_task_models
    Tasks.get_tasks Tasks.get_restart_candidates Tasks.get_active_device_tasks
    Tasks.set_task_decision Tasks.get_task_decisions Tasks.set_task_acknowledgement
    Tasks.get_task_acknowledgements Tasks.set_task_active_shares Tasks.get_task_active_shares
    Tasks.set_task_round Tasks.increment_task_attempt_count Tasks.set_task_result
    Tasks.set_task_group_certificates_sent
postgres = record {
  add_device = Devices.add_device;
  get_devices = Devices.get_devices;
  get_group_participants = Devices.get_group_participants;
  get_tasks_participants = Devices.get_tasks_participants;
  add_group = λ id task_id name threshold protocol key_type certificate note.
      transaction (Groups.add_group id task_id name threshold protocol key_type certificate note);
  get_group = Groups.get_group;
  get_groups = Groups.get_groups;
  get_device_groups = Groups.get_device_groups;
  create_group_task = λ id participants threshold name protocol key_type request note.
      transaction
        (Tasks.create_group_task id participants threshold name protocol key_type request note);
  create_threshold_task =
      λ id group_id participants threshold name task_data request task_type key_type protocol.
        transaction (
          Tasks.create_task id group_id participants threshold name task_data request task_type
            key_type protocol);
  get_task_models = Tasks.get_task_models;
  get_tasks = Tasks.get_tasks;
  get_restart_candidates = Tasks.get_restart_candidates;
  get_active_device_tasks = Tasks.get_active_device_tasks;
  set_task_decision = Tasks.set_task_decision;
  get_task_decisions = Tasks.get_task_decisions;
  set_task_acknowledgement = Tasks.set_task_acknowledgement;
  get_task_acknowledgements = Tasks.get_task_acknowledgements;
  set_task_active_shares = Tasks.set_task_active_shares;
  get_task_active_shares = Tasks.get_task_active_shares;
  set_task_round = Tasks.set_task_round;
  increment_task_attempt_count = Tasks.increment_task_attempt_count;
  set_task_result = Tasks.set_task_result;
  set_task_group_certificates_sent = Tasks.set_task_group_certificates_sent;
}
