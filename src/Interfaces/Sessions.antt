-- ===== src/Interfaces/Sessions.antt =====
-- Registered devices of interfaces/grpc.rs: the certificate and the token that they are given.
use Prim.Native.String.{◌++◌}
use text.Mathlib.TextLemmas.{nil-append, cons-append}
use meesign_server.Base.{
  subst, if◌then◌else◌, not, bytes_beq_iff, ◌≡◌, refl, ◌∙◌, ap, sym, Bool, true, false, none, some,
  [], ◌∷◌, Bytes, bytes_eq, arith, String, ℕ,
}
use meesign_server.Base.Exec.{◌>>◌, pure, raise, Error, panic, err, continue}
use meesign_server.Base.Map.{insert, get-insert}
use meesign_server.Communicator.Messages.{Crypto}
use meesign_server.Interfaces.{
  failed_precondition, Status, ◌>>=◌, reply_or, respond, Outcome, Exec, crashed, refused, ok,
  proceed, Handler, Reply, Web, response,
}
use meesign_server.Interfaces.Auth.{
  RequestMeta, extract_device_id, check_client_auth, check_device, cert_to_id, strip_prefix,
  generate_jwt,
}
use meesign_server.Interfaces.Grpc.{Surroundings}
use meesign_server.Interfaces.Grpc
use meesign_server.Interfaces.Messages.{Rpc, registration}
use meesign_server.Interfaces.Service.{serve}
use meesign_server.Persistence.Enums.{DeviceKind}
use meesign_server.Persistence.Models.{Device}
use meesign_server.Persistence.Names.{is_name_valid}
use meesign_server.Persistence.Postgres.{insert_device, perform, Database}
use meesign_server.Persistence.Postgres.Devices.{is_empty}
use meesign_server.Persistence.Postgres.Devices
use meesign_server.Persistence.Postgres.Repo.{postgres}
use meesign_server.Persistence.Repository.{Repository}
use meesign_server.State.{add_device, State, Services, device_exists}

strip_prefix_lem : (p s : String) → strip_prefix p (p ++ s) ≡ some s
unfolding strip_prefix
strip_prefix_lem String.[] s = ap some (nil-append s)
strip_prefix_lem (String.◌∷◌ c p) s = rw (cons-append c p s) (ground (arith, strip_prefix_lem p s))

-- What the tokens and their encoding promise.
pub record IsFaithful {Tx : Type 0} (w : Web Tx) : Type 0 where
  pub hex_decode_encode : (bytes : Bytes) → w.hex_decode (w.hex_encode bytes) ≡ some bytes
  pub jwt_decode_encode :
      (sub token : String) (now : ℕ)
      → w.jwt_encode sub now ≡ some token
      → w.jwt_decode token ≡ some sub

-- A request with a certificate, and one with a token.
abbrev pub with_cert : Bytes → RequestMeta
with_cert cert = record { peer_certs = some (cert ∷ []); authorization = none }

abbrev pub with_token : String → RequestMeta
with_token token = record { peer_certs = none; authorization = some (some ("Bearer " ++ token)) }

module _ {Tx : Type 0} (w : Web Tx) (f : IsFaithful w) where
  token_device_lem :
      (now : ℕ) (id : Bytes) (token : String)
      → generate_jwt w now id ≡ some token
      → extract_device_id w (with_token token) ≡ some id
  unfolding generate_jwt extract_device_id
  token_device_lem now id token made =
      rw (strip_prefix_lem "Bearer " token, f.jwt_decode_encode (w.hex_encode id) token now made)
        (f.hex_decode_encode id)

bind-eq-response :
    {S A B : Type 0} (r : Reply A) (f : A → Handler S B) (s s' : S) {b : B}
    → proceed r f s ≡ (response b, s')
    → (a : A) × (r ≡ response a) × (f a s ≡ (response b, s'))
bind-eq-response (response a) f s s' h = (a, refl, h)
bind-eq-response (refused e) f s s' h = absurd (cc)
bind-eq-response crashed f s s' h = absurd (cc)

-- What a database promises of a new device.
abbrev pub KeepsIds : {R : Type 0} → Repository R → Type 0
KeepsIds {R} db =
    (id : Bytes) (name : String) (kind : DeviceKind) (cert : Bytes) (r : R) (d : Device)
    → (db.add_device id name kind cert r).0 ≡ ok d
    → d.id ≡ id

unless_raised :
    {A : Type 0} (b : Bool) (e : Error) (m : Exec Database A) (db : Database) (a : A)
    → ((if b then raise e else m) db).0 ≡ ok a
    → (m db).0 ≡ ok a
unless_raised true e m db a h = absurd (cc)
unless_raised false e m db a h = h

performed :
    {A : Type 0} (r : Outcome Database) (new a : A) (db : Database)
    → ((perform r >> pure new) db).0 ≡ ok a
    → new ≡ a
performed (ok db') new a db h = cc
performed (err e) new a db h = absurd (cc)
performed panic new a db h = absurd (cc)

pub postgres-KeepsIds : KeepsIds postgres
unfolding postgres Devices.add_device
postgres-KeepsIds id name kind cert db d h =
    let h1 = unless_raised (not (is_name_valid name)) _ _ db d h in
    let h2 = unless_raised (is_empty id) _ _ db d h1 in
    let h3 = unless_raised (is_empty cert) _ _ db d h2 in
    let new : Device = record { id = id; name = name; kind = kind; certificate = cert } in
    sym (ap (λ (x : Device). x.id) (performed (insert_device new db) new d db h3))

module _ {R Tx : Type 0} (v : Services R Tx) (ids : KeepsIds v.db) where
  -- The rest of `add_device`, once the database has answered.
  abbrev entered : Device → Exec (State R Tx) Device
  entered d s = (ok d, record s { devices = insert d.id d s.devices })

  entered_exists :
      (id : Bytes) (r : Outcome Device) (s : State R Tx) (d : Device)
      → ((d : Device) → r ≡ ok d → d.id ≡ id)
      → (continue r entered s).0 ≡ ok d
      → device_exists id (continue r entered s).1 ≡ true
  unfolding device_exists
  entered_exists id (ok e) s d same h =
      ground (arith, same e refl, get-insert e.id id e s.devices, bytes_beq_iff e.id id)
  entered_exists id (err e) s d same h = absurd (cc)
  entered_exists id panic s d same h = absurd (cc)

  added_exists :
      (id : Bytes) (name : String) (kind : DeviceKind) (cert : Bytes) (s : State R Tx) (d : Device)
      → (add_device v id name kind cert s).0 ≡ ok d
      → device_exists id (add_device v id name kind cert s).1 ≡ true
  unfolding add_device
  added_exists id name kind cert s d h =
      entered_exists id (v.db.add_device id name kind cert s.task_store.repo).0 _ d
        (λ d' e. ids id name kind cert s.task_store.repo d' e) h

replied :
    {A : Type 0} (r : Outcome A) (status : Status) (a : A)
    → reply_or status r ≡ response a
    → r ≡ ok a
replied (ok b) status a h = cc
replied (err e) status a h = absurd (cc)
replied panic status a h = absurd (cc)

module _ {R Tx : Type 0} ⦃x : Crypto⦄ (w : Web Tx) (v : Services R Tx) (e : Surroundings Tx) where
  let_in :
      (meta : RequestMeta) (id : Bytes) (s : State R Tx)
      → extract_device_id w meta ≡ some id
      → device_exists id s ≡ true
      → check_client_auth w meta true s ≡ (response tt, s)
  unfolding check_client_auth check_device
  let_in meta id s from known = rw (from, check_device, known) refl

  enrolled :
      (meta : RequestMeta) (name : String) (cert id c : Bytes) (token : String) (s s' : State R Tx)
      → KeepsIds v.db
      → Grpc.enrol w v e meta name c s ≡ (response (registration id cert (some token)), s')
      → (c ≡ cert)
        × (id ≡ cert_to_id w cert)
        × (generate_jwt w e.now id ≡ some token)
        × (device_exists id s' ≡ true)
  unfolding Grpc.enrol
  enrolled meta name cert id c token s s' ids done =
      let (d, added, h) =
        bind-eq-response
          (reply_or (failed_precondition "Request failed: device was not added")
            (add_device v (cert_to_id w c) name DeviceKind.user c s).0)
          (λ _. respond (registration (cert_to_id w c) c (generate_jwt w e.now (cert_to_id w c))))
          (add_device v (cert_to_id w c) name DeviceKind.user c s).1 s' done in
      let known =
        added_exists v ids (cert_to_id w c) name DeviceKind.user c s d
          (replied (add_device v (cert_to_id w c) name DeviceKind.user c s).0 _ d added) in
      let same : c ≡ cert = cc in
      let own : cert_to_id w c ≡ id = cc in
      let made : generate_jwt w e.now (cert_to_id w c) ≡ some token = cc in
      let left : (add_device v (cert_to_id w c) name DeviceKind.user c s).1 ≡ s' =
        ap (λ p. p.1) h in
      (
        same,
        sym own ∙ ap (cert_to_id w) same,
        subst (λ i. generate_jwt w e.now i ≡ some token) own made,
        subst (λ i. device_exists i s' ≡ true) own
            (subst (λ u. device_exists (cert_to_id w c) u ≡ true) left known),
      )

  -- A registered device is let in: where the database keeps the identifiers of devices, and
  -- decoding gives back what was encoded into hexadecimal text and into tokens, a registration
  -- that is answered with an identifier, a certificate and a token gives the digest of the
  -- certificate as identifier, and in the state after it a request that needs a device passes its
  -- check both with that certificate and with that token.
  pub registered_let_in :
      (meta : RequestMeta) (name : String) (csr id cert : Bytes) (token : String)
      (s s' : State R Tx)
      → KeepsIds v.db
      → IsFaithful w
      → serve w v e meta (Rpc.register name csr) s
        ≡ (response (registration id cert (some token)), s')
      → (id ≡ cert_to_id w cert)
        × (check_client_auth w (with_cert cert) true s' ≡ (response tt, s'))
        × (check_client_auth w (with_token token) true s' ≡ (response tt, s'))
  unfolding serve Grpc.register
  registered_let_in meta name csr id cert token s s' ids f done =
      let (a, passed, h1) =
        bind-eq-response (check_client_auth w meta false s).0
          (λ _. Grpc.issued w v e meta name csr >>= Grpc.enrol w v e meta name)
          (check_client_auth w meta false s).1 s' done in
      let (c, issued, h2) =
        bind-eq-response (Grpc.issued w v e meta name csr s).0 (Grpc.enrol w v e meta name)
          (Grpc.issued w v e meta name csr (check_client_auth w meta false s).1).1 s' h1 in
      let (same, own, made, known) = enrolled meta name cert id c token _ s' ids h2 in
      (
        own,
        let_in (with_cert cert) id s' (rw own refl) known,
        let_in (with_token token) id s' (token_device_lem w f e.now id token made) known,
      )
