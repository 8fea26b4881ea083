-- ===== src/Interfaces.antt =====
-- interfaces: what the gRPC service and the timer use of other crates, and what a call returns.
pub mod Auth
pub mod Messages
pub mod Grpc
pub mod Service
pub mod Timer
pub mod Access
pub mod Sessions
pub mod Serving
pub mod Progress
pub mod Served
pub mod Subscribers
use meesign_server.Base.{none, some, ℕ, String, Bool, Option, Bytes}
use meesign_server.Base.Exec.{
  Exec, Error, Outcome, ok, err, panic, persistence_error, general_protocol_error, io_error,
}
use meesign_server.Communicator.Messages.{ClientMessage}

-- The crates sha2, hex, jsonwebtoken under the server's secret, uuid, prost, openssl and tokio. A
-- token is encoded from a subject and a time, and decodes to its subject. The check of a
-- certificate request and the certificate that is built for a name, a request and a serial number
-- are `none` where the code unwraps an error.
pub record Web (Tx : Type 0) : Type 0 where
  pub sha256 : Bytes → Bytes
  pub hex_encode : Bytes → String
  pub hex_decode : String → Option Bytes
  pub jwt_encode : String → ℕ → Option String
  pub jwt_decode : String → Option String
  pub uuid_from_slice : Bytes → Option ℕ
  pub decode_message : Bytes → Option ClientMessage
  pub verify_csr : Bytes → Option Bool
  pub build_certificate : String → Bytes → Bytes → Option Bytes
  pub is_closed : Tx → Bool

-- The codes of `tonic::Status` that the server uses.
pub data Status : Type 0 where
  internal unauthenticated failed_precondition invalid_argument : String → Status

-- `impl From<Error> for tonic::Status`
unfoldable pub status_of : Error → Status
status_of (persistence_error e) = internal "Internal error occurred"
status_of io_error = internal "Internal error occurred"
status_of (general_protocol_error e) = failed_precondition e

-- What a request ends in: a response, a status, or a panic of its handler.
pub data Reply (A : Type 0) : Type 0 where
  response : A → Reply A
  refused : Status → Reply A
  crashed : Reply A

abbrev pub Handler : Type 0 → Type 0 → Type 0
Handler S A = S → Reply A × S

abbrev pub reply_of : {A : Type 0} → Outcome A → Reply A
reply_of (ok a) = response a
reply_of (err e) = refused (status_of e)
reply_of panic = crashed

-- `map_err(|_| status)` before `?`.
abbrev pub reply_or : {A : Type 0} → Status → Outcome A → Reply A
reply_or status (ok a) = response a
reply_or status (err e) = refused status
reply_or status panic = crashed

module _ {S A : Type 0} where
  abbrev pub respond : A → Handler S A
  respond a s = (response a, s)

  abbrev pub refuse : Status → Handler S A
  refuse e s = (refused e, s)

  -- A call of the state whose error becomes a status.
  abbrev pub call : Exec S A → Handler S A
  call m s = (reply_of (m s).0, (m s).1)

  abbrev pub call_or : Status → Exec S A → Handler S A
  call_or status m s = (reply_or status (m s).0, (m s).1)

  -- `unwrap`, and `ok_or`.
  abbrev pub unwrapped : Option A → Handler S A
  unwrapped none s = (crashed, s)
  unwrapped (some a) s = (response a, s)

  abbrev pub ok_or : Status → Option A → Handler S A
  ok_or status none s = (refused status, s)
  ok_or status (some a) s = (response a, s)

module _ {S A B : Type 0} where
  abbrev pub proceed : Reply A → (A → Handler S B) → Handler S B
  proceed (response a) f s = f a s
  proceed (refused e) f s = (refused e, s)
  proceed crashed f s = (crashed, s)

  infixl 10 ◌>>=◌ ◌>>◌
  abbrev pub ◌>>=◌ : Handler S A → (A → Handler S B) → Handler S B
  ◌>>=◌ m f s = proceed (m s).0 f (m s).1

  abbrev pub ◌>>◌ : Handler S A → Handler S B → Handler S B
  m >> n = m >>= λ _. n

abbrev pub ignore_error : Outcome (Unit {0}) → Reply (Unit {0})
ignore_error (ok a) = response tt
ignore_error (err e) = response tt
ignore_error panic = crashed

-- A call whose error is only logged.
abbrev pub logged : {S : Type 0} → Exec S (Unit {0}) → Handler S (Unit {0})
logged m s = (ignore_error (m s).0, (m s).1)
