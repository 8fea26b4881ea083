-- ===== src/Examples/ShareCases.antt =====
-- Instances of the theorems on the assignment of protocol indices.
use meesign_server.Base.{length, ℕ, ◌≡◌, refl, bytes_beq, inl, inr, [], ◌∷◌, arith, nat_eq}
use meesign_server.Base.Exec.{ok}
use meesign_server.Base.Map.{Map, get, extend}
use meesign_server.Communicator.{Communicator, new}
use meesign_server.Communicator.Indices.{IsValid}
use meesign_server.Examples.{members, chosen, alice, bob}
use meesign_server.Persistence.Enums.{ProtoProtocolType}
use meesign_server.Persistence.Models.{Device}
use meesign_server.Shares.{restored_devices, assign, restore, count_shares}
use meesign_server.Shares.Assign.{IsChoice, assign_exact}
use meesign_server.Shares.Restore.{restore_roundtrip}
use meesign_server.Shares.Started.{started-IsValid}
use meesign_server.Shares.Windows.{count, owner}

chosen-IsChoice : IsChoice members chosen
unfolding count bytes_beq
chosen-IsChoice = record {
  apart = ((λ e. cc, tt), (tt, tt));
  bounded = omega arith;
  known = (inr (λ e. cc, inl refl), (inl refl, tt));
  fits = (omega arith, (omega arith, tt));
}

-- Bob has the index after both of Alice's.
chosen_indices : assign members chosen ≡ ok ((2, bob) ∷ (0, alice) ∷ [])
unfolding assign get extend bytes_beq
chosen_indices = refl

assign_exact_example :
    (m : Map ℕ Device) × (assign members chosen ≡ ok m)
    × ((i : ℕ) → get i m ≡ owner members (λ id. 0) (count chosen) 0 i)
assign_exact_example = assign_exact members chosen chosen-IsChoice

restore_roundtrip_example :
    (m m' : Map ℕ Device) × (assign members chosen ≡ ok m)
    × (restore members (count_shares [] chosen) ≡ ok m')
    × ((i : ℕ) → get i m ≡ get i m')
restore_roundtrip_example = restore_roundtrip members chosen chosen-IsChoice (omega arith)

restored_indices : restore members (count_shares [] chosen) ≡ ok ((0, alice) ∷ (2, bob) ∷ [])
unfolding restore restored_devices count_shares assign get extend bytes_beq
restored_indices = refl

abbrev start : Map ℕ Device → Communicator
start m = record {
  threshold = 2;
  active_shares = m;
  input = [];
  output = [];
  protocol_type = ProtoProtocolType.frost;
}

starts : (m : Map ℕ Device) → length m ≡ 2 → new 2 ProtoProtocolType.frost m ≡ ok (start m)
unfolding new
starts m h = rw h refl

started-IsValid_example :
    IsValid (start ((2, bob) ∷ (0, alice) ∷ [])) × IsValid (start ((0, alice) ∷ (2, bob) ∷ []))
started-IsValid_example =
    started-IsValid members chosen 2 ProtoProtocolType.frost ((2, bob) ∷ (0, alice) ∷ [])
      ((0, alice) ∷ (2, bob) ∷ []) (start ((2, bob) ∷ (0, alice) ∷ []))
      (start ((0, alice) ∷ (2, bob) ∷ [])) chosen-IsChoice (omega arith) chosen_indices
      (starts _ refl) restored_indices (starts _ refl)
