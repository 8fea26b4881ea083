-- ===== src/Examples/WebCases.antt =====
-- Instances of the theorems on the service and the timer.
use Prim.Native.Char.{code}
use meesign_server.Base.{
  bytes_beq, ℕ, zero, suc, ◌≡◌, refl, sym, String, true, Option, none, some, [], ◌∷◌, Bytes,
  bytes_eq, nat_eq, nat_beq, if◌then◌else◌,
}
use meesign_server.Base.Map.{get, IsMap, insert}
use meesign_server.Examples.{alice, ballot, plain, silent}
use meesign_server.Interfaces.{Web, response, refused, unauthenticated}
use meesign_server.Interfaces.Access.{unknown_devices_refused, anonymous}
use meesign_server.Interfaces.Auth.{
  token_device, first_cert, device_of, extract_device_id, RequestMeta, check_client_auth,
  cert_to_id,
}
use meesign_server.Interfaces.Grpc.{Surroundings}
use meesign_server.Interfaces.Messages.{Rpc}
use meesign_server.Interfaces.Served.{Served, unserved, request, requests_lifecycle}
use meesign_server.Interfaces.Service.{serve}
use meesign_server.Interfaces.Sessions.{
  postgres-KeepsIds, IsFaithful, registered_let_in, with_cert, with_token,
}
use meesign_server.Interfaces.Subscribers.{subscribers_pruned, open_channel, active_at}
use meesign_server.Interfaces.Timer.{check_subscribers}
use meesign_server.Persistence.Postgres.{Database}
use meesign_server.Persistence.Postgres.Reached.{no_rows}
use meesign_server.Persistence.Postgres.Repo.{postgres}
use meesign_server.State.{State, Services}
use meesign_server.State.Phases.{Follows, cache}
use meesign_server.Tasks.Task.{Task, voting}
use meesign_server.Tasks.Voting.{outcome}

-- A number as so many letters a and one letter b.
unfoldable letters : ℕ → String → String
letters zero s = String.◌∷◌ "b" s
letters (suc n) s = String.◌∷◌ "a" (letters n s)

unfoldable encode : Bytes → String
unfolding letters
encode [] = ""
encode (n ∷ ns) = letters n (encode ns)

unfoldable opened : Option Bytes → Option Bytes
opened none = none
opened (some ns) = some (0 ∷ ns)

unfoldable counted : Option Bytes → Option Bytes
counted none = none
counted (some []) = none
counted (some (n ∷ ns)) = some (suc n ∷ ns)

unfoldable decode : String → Option Bytes
unfolding opened counted
decode String.[] = some []
decode (String.◌∷◌ c s) =
    let rest = decode s in if nat_beq (code c) 98 then opened rest else counted rest

decode-letters :
    (n : ℕ) (s : String) (ns : Bytes) → decode s ≡ some ns → decode (letters n s) ≡ some (n ∷ ns)
unfolding decode letters opened counted
decode-letters zero s ns h = rw h refl
decode-letters (suc n) s ns h = rw (decode-letters n s ns h) refl

decode-encode : (ns : Bytes) → decode (encode ns) ≡ some ns
unfolding encode decode
decode-encode [] = refl
decode-encode (n ∷ ns) = decode-letters n (encode ns) ns (decode-encode ns)

-- Digests and certificates that keep everything, and channels that are numbers: 0 is closed.
abbrev web : Web ℕ
web = record {
  sha256 = λ bytes. bytes;
  hex_encode = encode;
  hex_decode = decode;
  jwt_encode = λ sub now. some sub;
  jwt_decode = λ token. some token;
  uuid_from_slice = λ bytes. some 4;
  decode_message = λ bytes. none;
  verify_csr = λ csr. some true;
  build_certificate = λ name csr serial. some csr;
  is_closed = λ tx. nat_beq tx 0;
}

web-IsFaithful : IsFaithful web
web-IsFaithful = record {
  hex_decode_encode = decode-encode;
  jwt_decode_encode = λ sub token now h. sym h;
}

abbrev stored : Services Database ℕ
stored = record {
  db = postgres;
  try_send = λ tx m. (true, tx);
  choose_multiple = λ ds n. ds;
  helper = silent;
  encode_group_request = λ ids name threshold protocol key note. [];
  encode_sign_request = λ group name content. [];
  encode_decrypt_request = λ group name content kind. [];
}

-- Bob's channel is closed.
abbrev online : State Database ℕ
online = record {
  devices = (1 ∷ [], alice) ∷ [];
  subscribers = (1 ∷ [], 5) ∷ (2 ∷ [], 0) ∷ [];
  task_store = record { task_cache = (4, voting ballot) ∷ []; repo = no_rows };
  task_last_updates = [];
  device_last_activations = (1 ∷ [], 100) ∷ (2 ∷ [], 90) ∷ [];
  helpers = [];
}

abbrev surroundings : Surroundings ℕ
surroundings = record { now = 102; new_id = 7; serial = []; new_channel = 6 }

abbrev stranger : RequestMeta
stranger = record { peer_certs = none; authorization = none }

abbrev of_alice : RequestMeta
of_alice = with_cert (1 ∷ [])

unknown_devices_refused_example :
    (text : String) × (serve ⦃x = plain⦄ web stored surroundings stranger
        (Rpc.decide_task (4 ∷ []) true)
        online
      ≡ (refused (unauthenticated text), online))
unfolding extract_device_id device_of first_cert token_device
unknown_devices_refused_example =
    unknown_devices_refused ⦃x = plain⦄ web stored surroundings stranger online
      (Rpc.decide_task (4 ∷ []) true) (anonymous refl refl)

abbrev with_carol : State Database ℕ
with_carol =
    (serve ⦃x = plain⦄ web stored surroundings stranger (Rpc.register "carol" (3 ∷ [])) online).1

registered_let_in_example :
    (3 ∷ [] ≡ cert_to_id web (3 ∷ []))
    × (check_client_auth web (with_cert (3 ∷ [])) true with_carol ≡ (response tt, with_carol))
    × (check_client_auth web (with_token "aaab") true with_carol ≡ (response tt, with_carol))
unfolding serve postgres get encode
registered_let_in_example =
    registered_let_in ⦃x = plain⦄ web stored surroundings stranger "carol" (3 ∷ []) (3 ∷ [])
      (3 ∷ []) "aaab" online with_carol postgres-KeepsIds web-IsFaithful refl

-- Alice votes, and then reads the task.
abbrev voted : State Database ℕ
voted =
    (serve ⦃x = plain⦄ web stored surroundings of_alice (Rpc.decide_task (4 ∷ []) true) online).1

abbrev reread : State Database ℕ
reread = (serve ⦃x = plain⦄ web stored surroundings of_alice (Rpc.get_task (4 ∷ []) none) voted).1

voted_fresh : get 7 (cache voted) ≡ none
unfolding serve postgres get bytes_beq outcome insert
voted_fresh = refl

two_requests : Served ⦃x = plain⦄ web stored online reread
unfolding serve postgres get
two_requests =
    request surroundings of_alice (Rpc.get_task (4 ∷ []) none) voted_fresh
      (request surroundings of_alice (Rpc.decide_task (4 ∷ []) true) refl unserved)

requests_lifecycle_example :
    (t' : Task) × (get 4 (cache reread) ≡ some t') × Follows (voting ballot) t'
unfolding get
requests_lifecycle_example =
    requests_lifecycle ⦃x = plain⦄ web stored two_requests 4 (voting ballot) refl

subscribers_pruned_example :
    (get (2 ∷ []) (check_subscribers web 102 online).1.subscribers
      ≡ open_channel web (get (2 ∷ []) online.subscribers))
    × (get (2 ∷ []) (check_subscribers web 102 online).1.device_last_activations
        ≡ active_at web 102
            (get (2 ∷ []) online.subscribers)
            (get (2 ∷ []) online.device_last_activations))
    × IsMap (check_subscribers web 102 online).1.subscribers
unfolding get bytes_beq
subscribers_pruned_example = subscribers_pruned web 102 online (2 ∷ []) (refl, (refl, tt))
