-- ===== src/Desktop/Transfers/Output.antt =====
-- The error output of `scp`, as app/src/filesync/FileTransferManager.cpp reads it.
use coder_desktop_linux.Common.{
  ℕ, zero, suc, ◌*◌, ◌/◌, ◌&&◌, Option, none, some, List, [], ◌∷◌, ◌++◌, length, ◌==◌, ltb,
  if◌then◌else◌, ◌>>=◌,
}
use coder_desktop_linux.Desktop.Transfers.Table.{
  Transfer, RunningTransfer, Transfers, TransferSignal, transfer_progress, find_transfer,
  update_transfer,
}

-- The bytes before the first `mark` and those after it.
unfoldable pub split_at : ℕ → List ℕ → Option (List ℕ × List ℕ)
split_at mark [] = none
split_at mark (b ∷ bs) =
    let later = split_at mark bs in
    if b == mark then some ([], bs) else (do (line, rest) ← later; some (b ∷ line, rest))

-- The next line: up to a carriage return, where there is one, else up to a newline.
unfoldable pub next_line : List ℕ → Option (List ℕ × List ℕ)
next_line buffer = elim (split_at 13 buffer) [ some found ↦ some found | none ↦ split_at 10 buffer ]

-- What one line does to the transfer: `read_line` is the trimmed line against the pattern, with the
-- percentage and the size in bytes.
unfoldable pub advance : ℕ × ℕ → Transfer → Transfer
advance (percent, transferred) info = record info {
  bytes_transferred = transferred;
  bytes_total =
      if ltb 0 percent && info.bytes_total == 0 && ltb 0 transferred
      then transferred * 100 / percent
      else info.bytes_total;
}

module _ (read_line : List ℕ → Option (ℕ × ℕ)) where
  -- The loop of `parseScpProgress`; `none` means that the fuel ran out.
  unfoldable pub progress_loop :
      ℕ → List ℕ → Transfer → Option (List ℕ × Transfer × List TransferSignal)
  progress_loop zero buffer info = none
  progress_loop (suc fuel) buffer info = elim (next_line buffer) [
    | none ↦ some (buffer, info, [])
    | some (line, rest) ↦ elim (read_line line) [
      | none ↦ progress_loop fuel rest info
      | some reading ↦
          let info' = advance reading info in
          do
            (buffer', info'', more) ← progress_loop fuel rest info'
            some (
              buffer',
              info'',
              transfer_progress info'.id info'.bytes_transferred info'.bytes_total ∷ more,
            )
    ]
  ]

  unfoldable pub parse_found :
      List ℕ → RunningTransfer → Option (RunningTransfer × List TransferSignal)
  unfolding progress_loop
  parse_found output t =
      let buffer = t.stderr_buffer ++ output in
      do
        (rest, info, signals) ← progress_loop (suc (length buffer)) buffer t.info
        some (record t { info = info; stderr_buffer = rest }, signals)

  unfoldable pub parse_scp_progress :
      List ℕ → ℕ → Transfers → Option (Transfers × List TransferSignal)
  unfolding parse_found
  parse_scp_progress output id s = elim (find_transfer id s.transfers) [
    | none ↦ some (s, [])
    | some t ↦ do
      (t', signals) ← parse_found output t
      some (record s { transfers = update_transfer id (λ _. t') s.transfers }, signals)
  ]
