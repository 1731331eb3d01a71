-- ===== src/Serial/Drain.antt =====
-- `_drain_stale_input` of src/services/io_board/serial_io.py: the loop that throws away what is left
-- in the input before a transmission.
use crk_io_board.Base.{
  ℕ, zero, suc, ◌≡◌, refl, Bool, true, false, Option, none, some, [], ◌∷◌, Bytes, ◌∙◌,
}
use crk_io_board.Errors.{OtherError}

-- What one `read(4096)` under the timeout of 50 ms does: the bytes that came (none at the end of the
-- stream), the timeout, or the exception that the reader has stored.
pub data StaleRead : Type 0 where
  chunk : Bytes → StaleRead
  read_timeout : StaleRead
  read_error : OtherError → StaleRead

-- The read ends the loop.
abbrev pub is_end : StaleRead → Bool
is_end (chunk []) = true
is_end (chunk (b ∷ bs)) = false
is_end read_timeout = true
is_end (read_error e) = true

-- One turn of the loop: `break`, the exception, or what the turns after it come to.
abbrev pub drain_turn : StaleRead → Option (Option OtherError) → Option (Option OtherError)
drain_turn (chunk []) later = some none
drain_turn (chunk (b ∷ bs)) later = later
drain_turn read_timeout later = some none
drain_turn (read_error e) later = some (some e)

-- _drain_stale_input, for so many turns of its loop: `none` while it goes on, then the exception
-- that leaves it, if one does. The bytes are only logged. The source has no bound on the turns.
unfoldable pub drain_stale_input : ℕ → (ℕ → StaleRead) → Option (Option OtherError)
drain_stale_input zero reads = none
drain_stale_input (suc turns) reads =
    let later = drain_stale_input turns (λ n. reads (suc n)) in drain_turn (reads 0) later

turn-ends :
    (r : StaleRead) (later : Option (Option OtherError))
    → is_end r ≡ true
    → (x : Option OtherError) × (drain_turn r later ≡ some x)
turn-ends (chunk []) later h = (none, refl)
turn-ends (chunk (b ∷ bs)) later h = cc
turn-ends read_timeout later h = (none, refl)
turn-ends (read_error e) later h = (some e, refl)

turn-goes_on :
    (r : StaleRead) (x : Option OtherError)
    → (y : Option OtherError) × (drain_turn r (some x) ≡ some y)
turn-goes_on (chunk []) x = (none, refl)
turn-goes_on (chunk (b ∷ bs)) x = (x, refl)
turn-goes_on read_timeout x = (none, refl)
turn-goes_on (read_error e) x = (some e, refl)

-- The turns up to a read that ends the loop are enough.
pub drain-ends :
    (n : ℕ) (reads : ℕ → StaleRead)
    → is_end (reads n) ≡ true
    → (x : Option OtherError) × (drain_stale_input (suc n) reads ≡ some x)
unfolding drain_stale_input
drain-ends zero reads h = turn-ends (reads 0) none h
drain-ends (suc n) reads h =
    let (x, e) = drain-ends n (λ k. reads (suc k)) h in rw e (turn-goes_on (reads 0) x)

turn_endless :
    (r : StaleRead) (later : Option (Option OtherError))
    → is_end r ≡ false
    → drain_turn r later ≡ later
turn_endless (chunk []) later h = cc
turn_endless (chunk (b ∷ bs)) later h = refl
turn_endless read_timeout later h = cc
turn_endless (read_error e) later h = cc

-- No number of turns is enough for a board that never pauses for 50 ms.
pub drain_endless :
    (turns : ℕ) (reads : ℕ → StaleRead)
    → ((n : ℕ) → is_end (reads n) ≡ false)
    → drain_stale_input turns reads ≡ none
unfolding drain_stale_input
drain_endless zero reads h = refl
drain_endless (suc turns) reads h =
    turn_endless (reads 0) (drain_stale_input turns (λ n. reads (suc n))) (h 0)
    ∙ drain_endless turns (λ n. reads (suc n)) (λ n. h (suc n))
