-- ===== src/Communicator/Messages.antt =====
-- What communicator.rs, the protocols and the tasks use of the crate `meesign_crypto` and of
-- `prost`: the fields of their messages, and their functions as a parameter of the model.
use meesign_server.Base.{ℕ, Option, List, Bytes}
use meesign_server.Base.Map.{Map}
use meesign_server.Persistence.Enums.{ProtoProtocolType}

pub record ClientMessage : Type 0 where
  pub protocol_type : ℕ
  pub unicasts : Map ℕ Bytes
  pub broadcast : Option Bytes

pub record ServerMessage : Type 0 where
  pub protocol_type : ProtoProtocolType
  pub unicasts : Map ℕ Bytes
  pub broadcasts : Map ℕ Bytes

pub record ProtocolGroupInit : Type 0 where
  pub protocol_type : ProtoProtocolType
  pub index : ℕ
  pub parties : ℕ
  pub threshold : ℕ

pub record ProtocolInit : Type 0 where
  pub protocol_type : ProtoProtocolType
  pub indices : List ℕ
  pub index : ℕ
  pub init_data : Bytes

-- The functions of the crates: the encoders of messages, the check of a signed broadcast, which
-- gives its content, and the round counts of the protocols.
pub record Crypto : Type 0 where
  pub encode_server_message : ServerMessage → Bytes
  pub encode_group_init : ProtocolGroupInit → Bytes
  pub encode_protocol_init : ProtocolInit → Bytes
  pub verify_broadcast : Bytes → Bytes → Option Bytes
  pub gg18_keygen_rounds : ℕ
  pub gg18_sign_rounds : ℕ
  pub frost_keygen_rounds : ℕ
  pub frost_sign_rounds : ℕ
  pub musig2_keygen_rounds : ℕ
  pub musig2_sign_rounds : ℕ
  pub elgamal_keygen_rounds : ℕ
  pub elgamal_decrypt_rounds : ℕ
