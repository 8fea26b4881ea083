-- ===== src/Interfaces/Messages.antt =====
-- proto/meesign.proto: the requests and responses of interfaces/grpc.rs.
use meesign_server.Base.{
  ℕ, String, Option, none, some, List, [], ◌∷◌, ◌++◌, Bytes, replicate, nat_beq, if◌then◌else◌,
  Bool,
}
use meesign_server.Persistence.Enums.{
  ProtoProtocolType, ProtoKeyType, ProtoDeviceKind, protocol_into_proto, key_into_proto,
  kind_into_proto,
}
use meesign_server.Persistence.Models.{Device, Group}
use meesign_server.Tasks.Task.{ProtoTask}

pub record ProtoGroup : Type 0 where
  pub identifier : Bytes
  pub name : String
  pub threshold : ℕ
  pub protocol : ProtoProtocolType
  pub key_type : ProtoKeyType
  pub device_ids : List Bytes
  pub note : Option String

-- `flat_map(repeat_n)`: a device's identifier once for each share.
unfoldable pub repeat_ids : List (Bytes × ℕ) → List Bytes
repeat_ids [] = []
repeat_ids ((device_id, shares) ∷ ps) = replicate shares device_id ++ repeat_ids ps

-- `proto::Group::from_model`
unfoldable pub from_model : Group → ProtoGroup
unfolding repeat_ids protocol_into_proto key_into_proto
from_model g = record {
  identifier = g.id;
  name = g.name;
  threshold = g.threshold;
  protocol = protocol_into_proto g.protocol;
  key_type = key_into_proto g.key_type;
  device_ids = repeat_ids g.participant_ids_shares;
  note = g.note;
}

pub record ProtoDevice : Type 0 where
  pub identifier : Bytes
  pub name : String
  pub kind : ProtoDeviceKind
  pub certificate : Bytes
  pub last_active : ℕ

-- The closure of `get_devices`.
unfoldable pub proto_device : Device × ℕ → ProtoDevice
unfolding kind_into_proto
proto_device (d, last_active) = record {
  identifier = d.id;
  name = d.name;
  kind = kind_into_proto d.kind;
  certificate = d.certificate;
  last_active = last_active;
}

-- The numbers of an enumeration on the wire, `try_from`.
unfoldable pub protocol_of : ℕ → Option ProtoProtocolType
protocol_of n =
    if nat_beq n 0
    then some ProtoProtocolType.gg18
    else if nat_beq n 1
    then some ProtoProtocolType.elgamal
    else if nat_beq n 2
    then some ProtoProtocolType.frost
    else if nat_beq n 3
    then some ProtoProtocolType.musig2
    else none

unfoldable pub key_type_of : ℕ → Option ProtoKeyType
key_type_of n =
    if nat_beq n 0
    then some ProtoKeyType.sign_pdf
    else if nat_beq n 1
    then some ProtoKeyType.sign_challenge
    else if nat_beq n 2
    then some ProtoKeyType.decrypt
    else none

pub record GroupRequest : Type 0 where
  pub name : String
  pub device_ids : List Bytes
  pub threshold : ℕ
  pub protocol : ℕ
  pub key_type : ℕ
  pub note : Option String

-- The calls of the service, each with the fields of its request.
pub data Rpc : Type 0 where
  get_server_info get_devices subscribe_updates : Rpc
  register : String → Bytes → Rpc
  sign : Bytes → String → Bytes → Rpc
  decrypt : Bytes → String → Bytes → String → Rpc
  group : GroupRequest → Rpc
  get_task : Bytes → Option Bytes → Rpc
  update_task : Bytes → List Bytes → ℕ → Rpc
  get_tasks get_groups : Option Bytes → Rpc
  log : String → Rpc
  decide_task : Bytes → Bool → Rpc
  acknowledge_task : Bytes → Rpc

pub data Answer : Type 0 where
  server_info : Answer
  registration : Bytes → Bytes → Option String → Answer
  task : ProtoTask → Answer
  tasks : List ProtoTask → Answer
  groups : List ProtoGroup → Answer
  devices : List ProtoDevice → Answer
  acknowledged subscribed : Answer
