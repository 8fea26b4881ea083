-- ===== src/Examples.antt =====
-- Concrete devices, communicators and tasks for the tests and the instances of the theorems.
mod ShareCases
mod VoteCases
mod RelayCases
mod TaskCases
mod StateCases
mod WebCases
mod StoreCases
mod NewTaskCases
use meesign_server.Base.{
  ℕ, String, Bool, true, false, Option, none, some, List, [], ◌∷◌, ◌++◌, Bytes,
}
use meesign_server.Base.Exec.{ok}
use meesign_server.Base.Int.{ℤ, pos}
use meesign_server.Base.Map.{Map}
use meesign_server.Communicator.{Communicator}
use meesign_server.Communicator.Messages.{Crypto, ClientMessage}
use meesign_server.Persistence.Enums.{
  DeviceKind, ProtocolType, ProtoProtocolType, TaskType, KeyType,
}
use meesign_server.Persistence.Models.{Device, Participant, Group}
use meesign_server.Protocols.{Protocol, gg18_sign, gg18_group, elgamal_decrypt}
use meesign_server.Tasks.Helper.{Helper}
use meesign_server.Tasks.Info.{TaskInfo, RunningTaskContext}
use meesign_server.Tasks.Voting.{VotingTask}

abbrev pub alice : Device
alice = record { id = 1 ∷ []; name = "alice"; kind = DeviceKind.user; certificate = 11 ∷ [] }

abbrev pub bob : Device
bob = record { id = 2 ∷ []; name = "bob"; kind = DeviceKind.bot; certificate = 12 ∷ [] }

-- Alice has two shares and Bob has one.
abbrev pub members : List Participant
members = record { device = alice; shares = 2 } ∷ record { device = bob; shares = 1 } ∷ []

-- One share of each is chosen, Bob's first.
abbrev pub chosen : List Device
chosen = bob ∷ alice ∷ []

-- A crate whose signatures are always right, with protocols of three rounds.
abbrev pub plain : Crypto
plain = record {
  encode_server_message = λ m. [];
  encode_group_init = λ m. m.index ∷ [];
  encode_protocol_init = λ m. m.index ∷ [];
  verify_broadcast = λ b certificate. some b;
  gg18_keygen_rounds = 3;
  gg18_sign_rounds = 3;
  frost_keygen_rounds = 3;
  frost_sign_rounds = 3;
  musig2_keygen_rounds = 3;
  musig2_sign_rounds = 3;
  elgamal_keygen_rounds = 3;
  elgamal_decrypt_rounds = 3;
}

abbrev pub hello : ClientMessage
hello = record { protocol_type = 0; unicasts = (1, 7 ∷ []) ∷ []; broadcast = some (5 ∷ []) }

-- Alice has the share 0 and Bob the share 2; Alice's message is there.
abbrev pub exchange : Communicator
exchange = record {
  threshold = 2;
  active_shares = (0, alice) ∷ (2, bob) ∷ [];
  input = (0, hello) ∷ [];
  output = [];
  protocol_type = ProtoProtocolType.gg18;
}

abbrev pub signers : Group
signers = record {
  id = 9 ∷ [];
  name = "signers";
  threshold = 2;
  protocol = ProtocolType.gg18;
  key_type = KeyType.sign_challenge;
  certificate = none;
  note = none;
  participant_ids_shares = (1 ∷ [], 2) ∷ (2 ∷ [], 1) ∷ [];
}

abbrev pub request : TaskInfo
request = record {
  id = 4;
  name = "request";
  task_type = TaskType.sign_challenge;
  protocol_type = ProtocolType.gg18;
  key_type = KeyType.sign_challenge;
  participants = members;
  observers = [];
  attempts = 0;
  request = [];
}

-- Two of the three shares are needed; Alice has accepted.
abbrev pub ballot : VotingTask
ballot = record {
  task_info = request;
  decisions = (1 ∷ [], pos 2) ∷ [];
  accept_threshold = 2;
  running_task_context = RunningTaskContext.sign_challenge signers (3 ∷ []);
}

-- A helper that prints nothing and starts no child.
abbrev pub silent : Helper
silent = record {
  cert = λ name key. none;
  file_created = true;
  file_written = λ content. true;
  spawn = λ content. none;
  hash_line = λ child certificate. ok none;
  document = λ child signature. ok [];
  killed = λ child. true;
}
