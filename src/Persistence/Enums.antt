-- ===== src/Persistence/Enums.antt =====
-- persistence/enums.rs and the enumerations of proto/meesign.proto that the build generates.
use meesign_server.Base.{Bool, true, false, ◌≡◌, refl}

-- The stored protocol types.
pub data ProtocolType : Type 0 where
  gg18 el_gamal frost musig2 : ProtocolType

-- The protocol types on the wire.
pub data ProtoProtocolType : Type 0 where
  gg18 elgamal frost musig2 : ProtoProtocolType

pub data TaskType : Type 0 where
  group sign_pdf sign_challenge decrypt : TaskType

pub data ProtoTaskType : Type 0 where
  sign_pdf sign_challenge decrypt group : ProtoTaskType

pub data KeyType : Type 0 where
  sign_pdf sign_challenge decrypt : KeyType

pub data ProtoKeyType : Type 0 where
  sign_pdf sign_challenge decrypt : ProtoKeyType

pub data DeviceKind : Type 0 where
  user bot : DeviceKind

pub data TaskState : Type 0 where
  created running finished failed : TaskState

-- `impl From<proto::ProtocolType> for ProtocolType`
unfoldable pub protocol_from_proto : ProtoProtocolType → ProtocolType
protocol_from_proto ProtoProtocolType.gg18 = ProtocolType.gg18
protocol_from_proto ProtoProtocolType.elgamal = ProtocolType.el_gamal
protocol_from_proto ProtoProtocolType.frost = ProtocolType.frost
protocol_from_proto ProtoProtocolType.musig2 = ProtocolType.musig2

-- `impl From<ProtocolType> for proto::ProtocolType`
unfoldable pub protocol_into_proto : ProtocolType → ProtoProtocolType
protocol_into_proto ProtocolType.gg18 = ProtoProtocolType.gg18
protocol_into_proto ProtocolType.el_gamal = ProtoProtocolType.elgamal
protocol_into_proto ProtocolType.frost = ProtoProtocolType.frost
protocol_into_proto ProtocolType.musig2 = ProtoProtocolType.musig2

-- `impl From<proto::KeyType> for KeyType`
unfoldable pub key_from_proto : ProtoKeyType → KeyType
key_from_proto ProtoKeyType.sign_pdf = KeyType.sign_pdf
key_from_proto ProtoKeyType.sign_challenge = KeyType.sign_challenge
key_from_proto ProtoKeyType.decrypt = KeyType.decrypt

-- `impl From<KeyType> for proto::KeyType`
unfoldable pub key_into_proto : KeyType → ProtoKeyType
key_into_proto KeyType.sign_pdf = ProtoKeyType.sign_pdf
key_into_proto KeyType.sign_challenge = ProtoKeyType.sign_challenge
key_into_proto KeyType.decrypt = ProtoKeyType.decrypt

-- `impl From<proto::TaskType> for TaskType`
unfoldable pub task_from_proto : ProtoTaskType → TaskType
task_from_proto ProtoTaskType.group = TaskType.group
task_from_proto ProtoTaskType.sign_challenge = TaskType.sign_challenge
task_from_proto ProtoTaskType.sign_pdf = TaskType.sign_pdf
task_from_proto ProtoTaskType.decrypt = TaskType.decrypt

-- `impl From<TaskType> for proto::TaskType`
unfoldable pub task_into_proto : TaskType → ProtoTaskType
task_into_proto TaskType.group = ProtoTaskType.group
task_into_proto TaskType.sign_challenge = ProtoTaskType.sign_challenge
task_into_proto TaskType.sign_pdf = ProtoTaskType.sign_pdf
task_into_proto TaskType.decrypt = ProtoTaskType.decrypt

-- The derived `PartialEq` of the wire's protocol types.
unfoldable pub is_gg18 : ProtoProtocolType → Bool
is_gg18 ProtoProtocolType.gg18 = true
is_gg18 _ = false

-- The stored types of protocols, keys and tasks and those on the wire convert into each other and
-- back without loss.
pub enums_roundtrip :
    ((p : ProtocolType) → protocol_from_proto (protocol_into_proto p) ≡ p)
    × ((p : ProtoProtocolType) → protocol_into_proto (protocol_from_proto p) ≡ p)
    × ((k : KeyType) → key_from_proto (key_into_proto k) ≡ k)
    × ((k : ProtoKeyType) → key_into_proto (key_from_proto k) ≡ k)
    × ((t : TaskType) → task_from_proto (task_into_proto t) ≡ t)
    × ((t : ProtoTaskType) → task_into_proto (task_from_proto t) ≡ t)
unfolding protocol_from_proto protocol_into_proto key_from_proto key_into_proto task_from_proto
    task_into_proto
enums_roundtrip = (
  elim [
    | ProtocolType.gg18 ↦ refl
    | ProtocolType.el_gamal ↦ refl
    | ProtocolType.frost ↦ refl
    | ProtocolType.musig2 ↦ refl
  ],
  elim [
    | ProtoProtocolType.gg18 ↦ refl
    | ProtoProtocolType.elgamal ↦ refl
    | ProtoProtocolType.frost ↦ refl
    | ProtoProtocolType.musig2 ↦ refl
  ],
  elim [ KeyType.sign_pdf ↦ refl | KeyType.sign_challenge ↦ refl | KeyType.decrypt ↦ refl ],
  elim [
    | ProtoKeyType.sign_pdf ↦ refl
    | ProtoKeyType.sign_challenge ↦ refl
    | ProtoKeyType.decrypt ↦ refl
  ],
  elim [
    | TaskType.group ↦ refl
    | TaskType.sign_pdf ↦ refl
    | TaskType.sign_challenge ↦ refl
    | TaskType.decrypt ↦ refl
  ],
  elim [
    | ProtoTaskType.sign_pdf ↦ refl
    | ProtoTaskType.sign_challenge ↦ refl
    | ProtoTaskType.decrypt ↦ refl
    | ProtoTaskType.group ↦ refl
  ],
)

pub data ProtoDeviceKind : Type 0 where
  user bot : ProtoDeviceKind

-- `impl From<DeviceKind> for proto::DeviceKind`
unfoldable pub kind_into_proto : DeviceKind → ProtoDeviceKind
kind_into_proto DeviceKind.user = ProtoDeviceKind.user
kind_into_proto DeviceKind.bot = ProtoDeviceKind.bot
