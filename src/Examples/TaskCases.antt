-- ===== src/Examples/TaskCases.antt =====
-- Instances of the theorems on running tasks and on stored results.
use meesign_server.Base.{
  ◌≡◌, ◌≢◌, refl, true, false, none, some, [], ◌∷◌, arith, length, inr, bytes_beq, nat_eq, sort,
  sort_by, sorted_insert,
}
use meesign_server.Base.Exec.{ok}
use meesign_server.Base.Map.{get}
use meesign_server.Communicator.{
  all_fit, waiting_for, identifier_to_indices, device_indices, protocol_index,
}
use meesign_server.Examples.{exchange, hello, plain, request, signers, silent}
use meesign_server.Examples.RelayCases.{exchange-IsValid}
use meesign_server.Persistence.Models.{
  TaskResultRow, Verdict, succeeded, IsChecked, new_task_result, try_into_result, verdict_roundtrip,
}
use meesign_server.Protocols.{round, last_round, gg18_sign, gg18_group, elgamal_decrypt}
use meesign_server.Tasks.DecryptTask
use meesign_server.Tasks.DecryptTask.Progress.{decrypt_update-Moves}
use meesign_server.Tasks.GroupTask
use meesign_server.Tasks.GroupTask.Progress.{group_update-Moves}
use meesign_server.Tasks.Info.{listen}
use meesign_server.Tasks.Progress.{Moves}
use meesign_server.Tasks.Running.{task_info, update, sign_task}
use meesign_server.Tasks.SignPdfTask
use meesign_server.Tasks.SignPdfTask.Progress.{pdf_update-PdfMoves}
use meesign_server.Tasks.SignPdfTask.Start.{PdfMoves, pdf_round}
use meesign_server.Tasks.SignTask
use meesign_server.Tasks.SignTask.Progress.{sign_update-Moves, sign_miscounted}
use meesign_server.Tasks.Updated.{Reports}
use meesign_server.Tasks.Updated.AllTasks.{update_keeps_info}

abbrev signing : SignTask.SignTask
signing = record {
  task_info = request;
  group = signers;
  communicator = exchange;
  content = 3 ∷ [];
  preprocessed = none;
  protocol = gg18_sign (record { round = 1 });
}

sign_update-Moves_example :
    Moves
      (SignTask.update ⦃x = plain⦄ (2 ∷ []) (hello ∷ []) signing).0
      (all_fit 2 (hello ∷ []))
      3
      1
      (round (SignTask.update ⦃x = plain⦄ (2 ∷ []) (hello ∷ []) signing).1.protocol)
unfolding round last_round
sign_update-Moves_example =
    sign_update-Moves ⦃x = plain⦄ signing (2 ∷ []) (hello ∷ []) (omega arith) (omega arith)

-- Alice, who has one active share, is no longer awaited; Bob is.
awaits_bob : waiting_for exchange (2 ∷ []) ≡ true
unfolding waiting_for protocol_index identifier_to_indices device_indices bytes_beq sort sort_by
    sorted_insert get
awaits_bob = refl

one_share : length (identifier_to_indices exchange (2 ∷ [])) ≢ length (hello ∷ hello ∷ [])
unfolding identifier_to_indices device_indices bytes_beq sort sort_by sorted_insert
one_share = λ e. omega arith

sign_miscounted_example :
    SignTask.update ⦃x = plain⦄ (2 ∷ []) (hello ∷ hello ∷ []) signing ≡ (ok listen, signing)
sign_miscounted_example =
    sign_miscounted ⦃x = plain⦄ signing (2 ∷ []) (hello ∷ hello ∷ []) exchange-IsValid awaits_bob
      one_share

abbrev decrypting : DecryptTask.DecryptTask
decrypting = record {
  task_info = request;
  group = signers;
  communicator = exchange;
  content = 3 ∷ [];
  protocol = elgamal_decrypt (record { round = 1 });
}

decrypt_update-Moves_example :
    Moves
      (DecryptTask.update ⦃x = plain⦄ (2 ∷ []) (hello ∷ []) decrypting).0
      (all_fit 2 (hello ∷ []))
      3
      1
      (round (DecryptTask.update ⦃x = plain⦄ (2 ∷ []) (hello ∷ []) decrypting).1.protocol)
unfolding round last_round
decrypt_update-Moves_example =
    decrypt_update-Moves ⦃x = plain⦄ decrypting (2 ∷ []) (hello ∷ []) (omega arith) (omega arith)

abbrev grouping : GroupTask.GroupTask
grouping = record {
  task_info = request;
  threshold = 2;
  communicator = exchange;
  protocol = gg18_group (record { parties = 3; threshold = 2; round = 1 });
  note = none;
  certificates_sent = true;
}

group_update-Moves_example :
    GroupTask.Progress.Moves
      (GroupTask.update ⦃x = plain⦄ silent (2 ∷ []) (hello ∷ []) grouping).0
      (all_fit 2 (hello ∷ []))
      3
      1
      (round (GroupTask.update ⦃x = plain⦄ silent (2 ∷ []) (hello ∷ []) grouping).1.protocol)
unfolding round last_round
group_update-Moves_example =
    group_update-Moves ⦃x = plain⦄ silent grouping (2 ∷ []) (hello ∷ []) refl (omega arith)
      (omega arith)

abbrev failed_row : TaskResultRow
failed_row = record {
  task_id = 4;
  is_successful = false;
  result_data = none;
  error_message = some "Task declined";
}

verdict_roundtrip_example :
    IsChecked (new_task_result (succeeded (7 ∷ [])) 4)
    × (try_into_result (new_task_result (succeeded (7 ∷ [])) 4) ≡ ok (succeeded (7 ∷ [])))
    × ((w : Verdict) × (try_into_result failed_row ≡ ok w) × (new_task_result w 4 ≡ failed_row))
verdict_roundtrip_example =
    verdict_roundtrip (succeeded (7 ∷ [])) 4 failed_row (inr (refl, refl, refl))

-- The child 5 waits for the signature.
abbrev document : SignPdfTask.State
document = ((4, 5) ∷ [], record { sign_task = signing })

pdf_update-PdfMoves_example :
    PdfMoves
      (SignPdfTask.update ⦃x = plain⦄ silent (2 ∷ []) (hello ∷ []) document).0
      (all_fit 2 (hello ∷ []))
      3
      1
      (pdf_round (SignPdfTask.update ⦃x = plain⦄ silent (2 ∷ []) (hello ∷ []) document).1)
unfolding round last_round
pdf_update-PdfMoves_example =
    pdf_update-PdfMoves ⦃x = plain⦄ silent document (2 ∷ []) (hello ∷ []) (omega arith)
      (omega arith)

update_keeps_info_example :
    Reports
      (task_info (sign_task signing))
      (update ⦃x = plain⦄ silent (2 ∷ []) (hello ∷ []) ([], sign_task signing)).0
    × (task_info (update ⦃x = plain⦄ silent (2 ∷ []) (hello ∷ []) ([], sign_task signing)).1.1
        ≡ task_info (sign_task signing))
update_keeps_info_example =
    update_keeps_info ⦃x = plain⦄ silent (2 ∷ []) (hello ∷ []) ([], sign_task signing)
