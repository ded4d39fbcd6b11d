-- ===== src/Tests/Transfers.antt =====
-- File transfers of app/src on concrete inputs.
use coder_desktop_linux.Common.{
  ℕ, ◌≡◌, ◌≤◌, refl, true, false, Option, none, some, List, [], ◌∷◌, arith, pos, drop, ◌-◌,
}
use coder_desktop_linux.Desktop.Transfers.{
  Transfer, RunningTransfer, Transfers, TransferSignal, Ending, running, cancelled, cancels,
  downloads, writes, purges, finishes, find_transfer, transfer_run, transfer_step, parse_found,
  process_finished, update_transfer, ending_signals,
}
use coder_desktop_linux.Desktop.Transfers.Valid.{IsValid}
use coder_desktop_linux.Desktop.Transfers.Life.{transfer_run-IsValid}
use coder_desktop_linux.Desktop.Transfers.States.{StateIs}
use coder_desktop_linux.Desktop.Transfers.Fate.{over_for_good}
use coder_desktop_linux.Desktop.Transfers.Progress.{
  Marked, Without, joined, advance_all, parse_found_lem,
}
use coder_desktop_linux.Desktop.Transfers.Purge.{purge_lem}
use coder_desktop_linux.Desktop.Transfers.{
  purge_old_finished_transfers, finished_count, max_finished_transfers,
}
use coder_desktop_linux.Desktop.Transfers.Purge.{active_ones, finished_ones}

abbrev download_info : Transfer
download_info = record {
  id = 1;
  agent_hostname = "dev.coder";
  local_path = "/home/me/a";
  remote_path = "/a";
  is_upload = false;
  bytes_transferred = 0;
  bytes_total = 0;
  state = running;
  error_message = "";
}

abbrev under_way : RunningTransfer
under_way = record { info = download_info; alive = true; stderr_buffer = 97 ∷ [] }

abbrev over : RunningTransfer
over = record {
  info = record download_info { id = 2; state = cancelled };
  alive = true;
  stderr_buffer = [];
}

abbrev transfers : Transfers
transfers = record { next_id = 3; transfers = under_way ∷ over ∷ [] }

transfers-IsValid : IsValid transfers
transfers-IsValid = record {
  below = (omega arith, (omega arith, tt));
  ascending = ((omega arith, tt), (tt, tt));
  settled = (refl, (tt, tt));
}

-- A reader of lines that understands each as half of 400 bytes.
abbrev half : List ℕ → Option (ℕ × ℕ)
half line = some (50, 200)

abbrev ending : Ending
ending = record { exit_code = pos 0; code_text = "0"; crashed = false; remaining = none }

transfer_run-IsValid_example :
    (s' : Transfers) × (signals : List TransferSignal) × (transfer_run half
        (downloads "dev.coder" "/b" "/home/me/b"
          ∷ writes (13 ∷ []) 1
          ∷ cancels true 3
          ∷ purges
          ∷ [])
        transfers
      ≡ some (s', signals))
    × IsValid s'
transfer_run-IsValid_example =
    transfer_run-IsValid half
      (downloads "dev.coder" "/b" "/home/me/b" ∷ writes (13 ∷ []) 1 ∷ cancels true 3 ∷ purges ∷ [])
      transfers transfers-IsValid

-- The process of the transfer that was cancelled ends with the code 0.
abbrev after_ending : Transfers
after_ending = record transfers { transfers = under_way ∷ record over { alive = false } ∷ [] }

ended : transfer_run half (finishes ending 2 ∷ []) transfers ≡ some (after_ending, [])
unfolding transfer_run transfer_step process_finished find_transfer update_transfer ending_signals
ended = refl

over_for_good_example : StateIs cancelled (find_transfer 2 after_ending.transfers)
unfolding find_transfer
over_for_good_example =
    over_for_good half (finishes ending 2 ∷ []) transfers after_ending [] 2 over transfers-IsValid
      refl refl ended

purge_lem_example :
    let after = (purge_old_finished_transfers transfers).0.transfers in
    (active_ones after ≡ active_ones transfers.transfers)
    × (finished_ones after
        ≡ drop
            (finished_count transfers.transfers - max_finished_transfers)
            (finished_ones transfers.transfers))
    × (finished_count after ≤ max_finished_transfers)
purge_lem_example = purge_lem transfers

parse_found_lem_example :
    (lines : List (List ℕ × ℕ)) × (rest : List ℕ) × (signals : List TransferSignal) × (parse_found
        half
        (13 ∷ 98 ∷ [])
        under_way
      ≡ some (
        record under_way { info = advance_all half lines download_info; stderr_buffer = rest },
        signals,
      ))
    × (97 ∷ 13 ∷ 98 ∷ [] ≡ joined lines rest)
    × Marked lines rest
    × Without 13 rest
    × Without 10 rest
parse_found_lem_example = parse_found_lem half (13 ∷ 98 ∷ []) under_way
