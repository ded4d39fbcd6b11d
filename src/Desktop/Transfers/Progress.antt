-- ===== src/Desktop/Transfers/Progress.antt =====
-- The loop of `parseScpProgress` of app/src/filesync/FileTransferManager.cpp.
use coder_desktop_linux.Common.{
  ℕ, zero, suc, ◌<◌, ◌≡◌, ◌≢◌, refl, ap, subst, ◌∙◌, ◌⊎◌, Option, none, some, List, [], ◌∷◌, ◌++◌,
  length, ◌==◌, arith, Bool-cases, Option-cases, inl, inr, All, length-append,
}
use coder_desktop_linux.Desktop.Transfers.{
  Transfer, RunningTransfer, TransferSignal, transfer_progress, split_at, next_line, advance,
  progress_loop, parse_found,
}

-- No byte is a mark.
abbrev pub Without : ℕ → List ℕ → Type 0
Without mark bytes = All (λ (b : ℕ). b ≢ mark) bytes

split_at-none : (mark : ℕ) (bytes : List ℕ) → split_at mark bytes ≡ none → Without mark bytes
unfolding split_at
split_at-none mark [] e = tt
split_at-none mark (b ∷ bs) e = elim (Option-cases (split_at mark bs)) [
  | inl none_later ↦ (λ same. ground arith, split_at-none mark bs none_later)
  | inr (found, later) ↦ absurd (ground arith)
]

split_at-join :
    (mark : ℕ) (bytes line rest : List ℕ)
    → split_at mark bytes ≡ some (line, rest)
    → bytes ≡ line ++ mark ∷ rest
unfolding split_at
split_at-join mark [] line rest e = cc
split_at-join mark (b ∷ bs) line rest e = elim (Bool-cases (b == mark)) [
  | inl here ↦ ground arith
  | inr further ↦ elim (Option-cases (split_at mark bs)) [
    | inl none_later ↦ absurd (ground arith)
    | inr (found, later) ↦ ground (arith, split_at-join mark bs found.0 found.1)
  ]
]

split_at-first :
    (mark : ℕ) (bytes line rest : List ℕ)
    → split_at mark bytes ≡ some (line, rest)
    → Without mark line
unfolding split_at
split_at-first mark [] line rest e = cc
split_at-first mark (b ∷ bs) line rest e = elim (Bool-cases (b == mark)) [
  | inl here ↦ let empty : [] ≡ line = ground arith in subst (Without mark) empty tt
  | inr further ↦ elim (Option-cases (split_at mark bs)) [
    | inl none_later ↦ absurd (ground arith)
    | inr ((first, later), found) ↦
        let longer : b ∷ first ≡ line = ground arith in
        subst (Without mark) longer
          ((λ same. ground arith), split_at-first mark bs first later found)
  ]
]

-- A line that was read and the mark that ends it.
abbrev pub joined : List (List ℕ × ℕ) → List ℕ → List ℕ
joined [] rest = rest
joined ((line, mark) ∷ lines) rest = line ++ mark ∷ joined lines rest

-- Where the first line of a buffer ends: at the first carriage return, or, where the buffer has none,
-- at the first newline.
abbrev pub EndsAt : (mark : ℕ) (line buffer : List ℕ) → Type 0
EndsAt mark line buffer =
    ((mark ≡ 13) × Without 13 line) ⊎ ((mark ≡ 10) × Without 10 line × Without 13 buffer)

-- Every line ends where the code ends it, in view of all that comes after it.
abbrev pub Marked : List (List ℕ × ℕ) → List ℕ → Type 0
Marked [] rest = Unit
Marked ((line, mark) ∷ lines) rest =
    EndsAt mark line (line ++ mark ∷ joined lines rest) × Marked lines rest

-- The transfer after the lines that are understood, one after the other.
abbrev pub advance_all : (List ℕ → Option (ℕ × ℕ)) → List (List ℕ × ℕ) → Transfer → Transfer
advance_all read_line [] info = info
advance_all read_line ((line, mark) ∷ lines) info =
    advance_all read_line lines
      (elim (read_line line) [ none ↦ info | some reading ↦ advance reading info ])

next_line_lem :
    (buffer line rest : List ℕ)
    → next_line buffer ≡ some (line, rest)
    → (mark : ℕ) × EndsAt mark line buffer × (buffer ≡ line ++ mark ∷ rest)
unfolding next_line
next_line_lem buffer line rest e = elim (Option-cases (split_at 13 buffer)) [
  | inr (found, first) ↦
      let cut : split_at 13 buffer ≡ some (line, rest) = ground arith in
      (
        13,
        inl (refl, split_at-first 13 buffer line rest cut),
        split_at-join 13 buffer line rest cut,
      )
  | inl no_return ↦
      let cut : split_at 10 buffer ≡ some (line, rest) = ground arith in
      (
        10,
        inr (refl, split_at-first 10 buffer line rest cut, split_at-none 13 buffer no_return),
        split_at-join 10 buffer line rest cut,
      )
]

next_line-none :
    (buffer : List ℕ) → next_line buffer ≡ none → (Without 13 buffer) × (Without 10 buffer)
unfolding next_line
next_line-none buffer e = elim (Option-cases (split_at 13 buffer)) [
  | inr (found, first) ↦ absurd (ground arith)
  | inl no_return ↦ (split_at-none 13 buffer no_return, split_at-none 10 buffer (ground arith))
]

-- What the loop makes of a buffer.
pub record Parsed (read_line : List ℕ → Option (ℕ × ℕ)) (fuel : ℕ) (buffer : List ℕ)
    (info : Transfer) : Type 0 where
  pub lines : List (List ℕ × ℕ)
  pub rest : List ℕ
  pub signals : List TransferSignal
  pub returns :
      progress_loop read_line fuel buffer info
      ≡ some (rest, advance_all read_line lines info, signals)
  pub whole : buffer ≡ joined lines rest
  pub marked : Marked lines rest
  pub no_return : Without 13 rest
  pub no_newline : Without 10 rest

progress_loop_lem :
    (read_line : List ℕ → Option (ℕ × ℕ)) (fuel : ℕ) (buffer : List ℕ) (info : Transfer)
    → length buffer < fuel
    → Parsed read_line fuel buffer info
unfolding progress_loop
progress_loop_lem read_line zero buffer info h = absurd (omega arith)
progress_loop_lem read_line (suc fuel) buffer info h = elim (Option-cases (next_line buffer)) [
  | inl done ↦ record {
    lines = [];
    rest = buffer;
    signals = [];
    returns = rw (done, progress_loop) refl;
    whole = refl;
    marked = tt;
    no_return = (next_line-none buffer done).0;
    no_newline = (next_line-none buffer done).1;
  }
  | inr ((line, rest), found) ↦
      let (mark, is_mark, split) = next_line_lem buffer line rest found in
      let shorter : length rest < fuel =
        omega (arith, ap length split, length-append line (mark ∷ rest)) in
      elim (Option-cases (read_line line)) [
        | inl unread ↦
            let more = progress_loop_lem read_line fuel rest info shorter in
            record {
              lines = (line, mark) ∷ more.lines;
              rest = more.rest;
              signals = more.signals;
              returns = rw (found, unread, progress_loop) more.returns;
              whole = split ∙ ap (λ r. line ++ mark ∷ r) more.whole;
              marked = (
                subst (EndsAt mark line) (split ∙ ap (λ r. line ++ mark ∷ r) more.whole) is_mark,
                more.marked,
              );
              no_return = more.no_return;
              no_newline = more.no_newline;
            }
        | inr (reading, understood) ↦
            let info' = advance reading info in
            let more = progress_loop_lem read_line fuel rest info' shorter in
            record {
              lines = (line, mark) ∷ more.lines;
              rest = more.rest;
              signals =
                  transfer_progress info'.id info'.bytes_transferred info'.bytes_total
                  ∷ more.signals;
              returns = rw (found, understood, more.returns, progress_loop) refl;
              whole = split ∙ ap (λ r. line ++ mark ∷ r) more.whole;
              marked = (
                subst (EndsAt mark line) (split ∙ ap (λ r. line ++ mark ∷ r) more.whole) is_mark,
                more.marked,
              );
              no_return = more.no_return;
              no_newline = more.no_newline;
            }
      ]
]

-- An output of `scp` is parsed to the end: added to what was left before, it is a number of lines, each
-- with the mark that ends it, and a rest without a carriage return or newline, which is kept for the
-- next output. A line ends at the next carriage return; only where no carriage return is left in all
-- that follows does it end at the next newline, so what a newline separates before a later carriage
-- return is read as one line. Each line that is cut off so is read once, in order, and the transfer
-- moves on by those that are understood.
pub parse_found_lem :
    (read_line : List ℕ → Option (ℕ × ℕ)) (output : List ℕ) (t : RunningTransfer)
    → (lines : List (List ℕ × ℕ)) × (rest : List ℕ) × (signals : List TransferSignal) × (parse_found
          read_line output t
        ≡ some
            (record t { info = advance_all read_line lines t.info; stderr_buffer = rest }, signals))
      × (t.stderr_buffer ++ output ≡ joined lines rest)
      × Marked lines rest
      × Without 13 rest
      × Without 10 rest
unfolding parse_found
parse_found_lem read_line output t =
    let buffer = t.stderr_buffer ++ output in
    let p = progress_loop_lem read_line (suc (length buffer)) buffer t.info (omega arith) in
    (
      p.lines,
      p.rest,
      p.signals,
      rw (p.returns, parse_found) refl,
      p.whole,
      p.marked,
      p.no_return,
      p.no_newline,
    )
