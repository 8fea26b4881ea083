-- ===== src/Examples/RelayCases.antt =====
-- Instances of the theorems on the buffers of a running task.
use meesign_server.Base.{
  ◌<◌, ◌≡◌, ◌↔◌, refl, true, false, none, some, [], ◌∷◌, map, Bytes, arith, bytes_eq, nat_eq,
  bytes_beq, any, zip, sort, sort_by, sorted_insert,
}
use meesign_server.Base.All.{All}
use meesign_server.Base.Exec.{ok}
use meesign_server.Base.Map.{get}
use meesign_server.Communicator.{
  receive_messages, waiting_for, round_received, identifier_to_indices, relay, relayed,
  get_messages, get_final_message, all_fit, device_indices, protocol_index,
}
use meesign_server.Communicator.Final.{Agrees, get_final_message-some}
use meesign_server.Communicator.Indices.{IsValid}
use meesign_server.Communicator.Receive.{IsComplete, buffered, receive_messages-accepted}
use meesign_server.Communicator.Relay.{relayed_content, relay_lem}
use meesign_server.Communicator.Rounds.{round_received_iff}
use meesign_server.Examples.{exchange, hello, plain}

pub exchange-IsValid : IsValid exchange
unfolding get protocol_index
exchange-IsValid = record {
  shares = (refl, (refl, tt));
  bounded = (omega arith, (omega arith, tt));
  received = (refl, tt);
  expected = λ k c. ground arith;
}

round_received_iff_example :
    (round_received exchange ≡ true) ↔ ((id : Bytes) → waiting_for exchange id ≡ false)
round_received_iff_example = round_received_iff exchange exchange-IsValid

hello-IsComplete : IsComplete exchange (2 ∷ []) (hello ∷ [])
unfolding all_fit identifier_to_indices device_indices bytes_beq sort sort_by sorted_insert
hello-IsComplete = record { some_message = omega arith; one_each = refl; fit = refl }

receive_messages-accepted_example :
    (receive_messages (2 ∷ []) (hello ∷ []) exchange
      ≡ (ok true, buffered exchange (2 ∷ []) (hello ∷ [])))
    × IsValid (buffered exchange (2 ∷ []) (hello ∷ []))
    × (waiting_for (buffered exchange (2 ∷ []) (hello ∷ [])) (2 ∷ []) ≡ false)
    × (waiting_for (buffered exchange (2 ∷ []) (hello ∷ [])) (1 ∷ [])
        ≡ waiting_for exchange (1 ∷ []))
    × All
        (λ p. get p.0 (buffered exchange (2 ∷ []) (hello ∷ [])).input ≡ some p.1)
        (zip (identifier_to_indices exchange (2 ∷ [])) (hello ∷ []))
receive_messages-accepted_example =
    receive_messages-accepted exchange exchange-IsValid (2 ∷ []) (hello ∷ []) hello-IsComplete
      (1 ∷ []) (λ e. cc)

relayed_content_example :
    (get 0 (relayed exchange 2).broadcasts ≡ some (5 ∷ []))
    × (get 0 (relayed exchange 2).unicasts ≡ none)
unfolding get
relayed_content_example = relayed_content exchange 2 0 exchange-IsValid.received

relay_lem_example :
    (get_messages (relay ⦃x = plain⦄ exchange) (1 ∷ [])
      ≡ map
          (λ idx. plain.encode_server_message (relayed exchange idx))
          (identifier_to_indices exchange (1 ∷ [])))
    × IsValid (relay ⦃x = plain⦄ exchange)
    × (waiting_for (relay ⦃x = plain⦄ exchange) (1 ∷ [])
        ≡ any (λ idx. true) (identifier_to_indices exchange (1 ∷ [])))
relay_lem_example = relay_lem ⦃x = plain⦄ exchange (1 ∷ []) exchange-IsValid

get_final_message-some_example :
    (get_final_message ⦃x = plain⦄ exchange ≡ ok (some (5 ∷ [])))
    ↔ ((0 < 1) × Agrees ⦃x = plain⦄ exchange (5 ∷ []) exchange.input)
get_final_message-some_example = get_final_message-some ⦃x = plain⦄ exchange (5 ∷ [])
