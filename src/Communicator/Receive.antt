-- ===== src/Communicator/Receive.antt =====
-- What `receive_messages` does on each branch.
use meesign_server.Base.{
  subst, ℕ, ◌<◌, ◌≡◌, ap, ◌≢◌, true, false, not, some, List, Bytes, arith, length, zip, nat_eq,
  is_some, ◌⊎◌,
}
use meesign_server.Base.All.{
  All, All-mono, All-zip, any_none, any_congr, contains_key-extend-zip, get-extend-zip,
  get-extend_absent, extend-Covers,
}
use meesign_server.Base.Exec.{ok, panic}
use meesign_server.Base.Map.{get, extend, extend-IsMap}
use meesign_server.Communicator.{
  Communicator, identifier_to_indices, receive_messages, waiting_for, all_fit,
}
use meesign_server.Communicator.Indices.{IsValid, indexed}
use meesign_server.Communicator.Messages.{ClientMessage}
use meesign_server.Communicator.Owners.{
  Owns, identifier_to_indices-Owns, identifier_to_indices-Distinct, owners_agree,
}

-- One message for each share of the sender, each with a broadcast or as many unicasts as expected.
pub record IsComplete (c : Communicator) (sender : Bytes) (messages : List ClientMessage)
    : Type 0 where
  pub some_message : 0 < length messages
  pub one_each : length (identifier_to_indices c sender) ≡ length messages
  pub fit : all_fit c.threshold messages ≡ true

-- The communicator once the messages of a sender are buffered.
abbrev pub buffered : Communicator → Bytes → List ClientMessage → Communicator
buffered c sender messages = record c {
  input = extend c.input (zip (identifier_to_indices c sender) messages);
}

-- The three outcomes: messages that are none or too few or too many are refused, a message of the
-- wrong shape is a panic, and neither changes the buffers; all else is buffered.
pub receive_messages_cases :
    (c : Communicator) (sender : Bytes) (messages : List ClientMessage)
    → (((length messages ≡ 0) ⊎ (length (identifier_to_indices c sender) ≢ length messages))
        × (receive_messages sender messages c ≡ (ok false, c)))
      ⊎ ((all_fit c.threshold messages ≡ false) × (receive_messages sender messages c ≡ (panic, c)))
      ⊎ (IsComplete c sender messages
          × (receive_messages sender messages c ≡ (ok true, buffered c sender messages)))
unfolding receive_messages
receive_messages_cases c sender messages = ground arith

pub refused :
    (c : Communicator) (sender : Bytes) (messages : List ClientMessage)
    → length (identifier_to_indices c sender) ≢ length messages
    → receive_messages sender messages c ≡ (ok false, c)
unfolding receive_messages
refused c sender messages differ = ground arith

module _ (c : Communicator) (v : IsValid c) (sender : Bytes) (messages : List ClientMessage)
    (complete : IsComplete c sender messages) where
  owned :
      All (Owns sender (indexed c.protocol_type c.active_shares)) (identifier_to_indices c sender)
  owned = identifier_to_indices-Owns c v sender

  accepted : receive_messages sender messages c ≡ (ok true, buffered c sender messages)
  unfolding receive_messages
  accepted = ground (arith, complete.some_message, complete.one_each, complete.fit)

  pub buffered-IsValid : IsValid (buffered c sender messages)
  buffered-IsValid = record {
    shares = v.shares;
    bounded = v.bounded;
    received = extend-IsMap c.input _ v.received;
    expected =
        extend-Covers c.input _ _ v.expected
          (All-zip _ _ messages (All-mono _ (λ k o. ground (arith, o)) _ owned));
  }

  pub buffered_sender : waiting_for (buffered c sender messages) sender ≡ false
  unfolding waiting_for identifier_to_indices
  buffered_sender = any_none _ _ (
      All-mono _ (λ k seen. ap not seen) _
        (contains_key-extend-zip c.input (identifier_to_indices c sender) messages
          (omega (arith, complete.one_each))))

  others_absent :
      (id : Bytes)
      → id ≢ sender
      → (k : ℕ) → Owns id (indexed c.protocol_type c.active_shares) k
      → All (λ p. p.0 ≢ k) (zip (identifier_to_indices c sender) messages)
  others_absent id apart k own =
      All-zip (λ j. j ≢ k) _ messages
        (All-mono _
          (λ j o same. apart (owners_agree id sender _ k own (subst (Owns sender _) same o))) _
          owned)

  pub buffered_others :
      (id : Bytes) → id ≢ sender → waiting_for (buffered c sender messages) id ≡ waiting_for c id
  unfolding waiting_for identifier_to_indices
  buffered_others id apart =
      any_congr _ _ _
        (λ k own.
          ap (λ o. not (is_some o)) (get-extend_absent k c.input _ (others_absent id apart k own)))
        _ (identifier_to_indices-Owns c v id)

  -- For a communicator under the invariant and messages of the right shape, one for each index of
  -- the sender and at least one: the delivery is accepted, keeps the invariant, ends the wait for
  -- its sender, leaves the wait for any other device as it was, and files the messages in the
  -- order of the sender's protocol indices.
  pub receive_messages-accepted :
      (id : Bytes)
      → id ≢ sender
      → (receive_messages sender messages c ≡ (ok true, buffered c sender messages))
        × IsValid (buffered c sender messages)
        × (waiting_for (buffered c sender messages) sender ≡ false)
        × (waiting_for (buffered c sender messages) id ≡ waiting_for c id)
        × All
            (λ p. get p.0 (buffered c sender messages).input ≡ some p.1)
            (zip (identifier_to_indices c sender) messages)
  receive_messages-accepted id apart = (
    accepted,
    buffered-IsValid,
    buffered_sender,
    buffered_others id apart,
    get-extend-zip c.input _ messages (identifier_to_indices-Distinct c v sender),
  )
