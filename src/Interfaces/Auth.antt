-- ===== src/Interfaces/Auth.antt =====
-- interfaces/grpc.rs: which device a request comes from, and whether it is let in.
use Prim.Native.Char.{code}
use meesign_server.Base.{
  ℕ, String, Bool, Option, none, some, List, [], ◌∷◌, Bytes, bytes_eq, nat_beq, not, if◌then◌else◌,
}
use meesign_server.Interfaces.{Web, Handler, unauthenticated, respond, refuse}
use meesign_server.State.{State, device_exists}

-- What a request carries beside its message: the certificates of the peer, and the metadata value
-- `authorization`, which is `none` inside where it is no text.
pub record RequestMeta : Type 0 where
  pub peer_certs : Option (List Bytes)
  pub authorization : Option (Option String)

-- `str::strip_prefix`
unfoldable pub strip_prefix : String → String → Option String
strip_prefix String.[] s = some s
strip_prefix (String.◌∷◌ c p) String.[] = none
strip_prefix (String.◌∷◌ c p) (String.◌∷◌ d s) =
    let rest = strip_prefix p s in if nat_beq (code c) (code d) then rest else none

unfoldable pub without_prefix : String → Option String → String
without_prefix s none = s
without_prefix s (some token) = token

-- `certs.first()`
unfoldable pub first_cert : Option (List Bytes) → Option Bytes
first_cert none = none
first_cert (some []) = none
first_cert (some (cert ∷ certs)) = some cert

module _ {Tx : Type 0} (w : Web Tx) where
  unfoldable pub cert_to_id : Bytes → Bytes
  cert_to_id cert = w.sha256 cert

  unfoldable pub generate_jwt : ℕ → Bytes → Option String
  generate_jwt now device_id = w.jwt_encode (w.hex_encode device_id) now

  unfoldable pub subject_id : Option String → Option Bytes
  subject_id none = none
  subject_id (some sub) = w.hex_decode sub

  -- The errors of `validate_jwt` are only told apart in their texts, which no caller reads.
  unfoldable pub validate_jwt : String → Option Bytes
  unfolding subject_id
  validate_jwt token = subject_id (w.jwt_decode token)

  unfoldable pub token_device : Option (Option String) → Option Bytes
  unfolding validate_jwt strip_prefix without_prefix
  token_device none = none
  token_device (some none) = none
  token_device (some (some auth_str)) =
      validate_jwt (without_prefix auth_str (strip_prefix "Bearer " auth_str))

  unfoldable pub device_of : Option Bytes → Option (Option String) → Option Bytes
  unfolding cert_to_id token_device
  device_of none authorization = token_device authorization
  device_of (some cert) authorization = some (cert_to_id cert)

  unfoldable pub extract_device_id : RequestMeta → Option Bytes
  unfolding device_of first_cert
  extract_device_id meta = device_of (first_cert meta.peer_certs) meta.authorization

  module _ {R : Type 0} where
    unfoldable pub check_device : Option Bytes → Bool → Handler (State R Tx) (Unit {0})
    unfolding device_exists
    check_device none required s =
        (if required then refuse (unauthenticated "Authentication required") else respond tt) s
    check_device (some device_id) required s =
        (if not (device_exists device_id s)
            then refuse (unauthenticated "Unknown device")
            else respond tt)
          s

    -- `check_client_auth`
    unfoldable pub check_client_auth : RequestMeta → Bool → Handler (State R Tx) (Unit {0})
    unfolding check_device extract_device_id
    check_client_auth meta required = check_device (extract_device_id meta) required
