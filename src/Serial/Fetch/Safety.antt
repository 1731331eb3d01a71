-- ===== src/Serial/Fetch/Safety.antt =====
-- The responses that `fetch` of src/services/io_board/serial_io.py returns, however the board behaves.
use crk_io_board.Base.{
  ℕ, zero, suc, ◌+◌, ◌≡◌, inl, inr, true, Option, none, some, arith, Bytes, Text, ◌∙◌, ap, sym,
}
use crk_io_board.Errors.{Result, ok, raise}
use crk_io_board.Serial.Frame.{response_codes, response_checksum_valid}
use crk_io_board.Serial.State.{SerialModel, Serial, get_serial_config}
use crk_io_board.Serial.Fetch.{
  Verdict, accepted, corrupted, mismatched, timeout, incomplete, failed, decide, stop, exhausted,
  Transaction, transaction, attempts, Board, connected, configured, fetch,
}
use crk_io_board.Serial.Fetch.Steps.{
  verdict_at, tried, rested, delay_after, attempts-stop, attempts-again, Next-cases,
}
use crk_io_board.Serial.Fetch.Contract.{accepted_verdict}

decide_ok :
    (config : SerialModel) (attempt : ℕ) (v : Verdict) (last : Option Verdict) (r : Bytes)
    → decide config attempt v last ≡ stop (ok r)
    → v ≡ accepted r
unfolding decide
decide_ok config attempt (accepted x) last r h = ground arith
decide_ok config attempt corrupted last r h = ground arith
decide_ok config attempt mismatched last r h = ground arith
decide_ok config attempt timeout last r h = cc
decide_ok config attempt incomplete last r h = cc
decide_ok config attempt (failed e) last r h = cc

not_exhausted : (last : Option Verdict) (r : Bytes) → exhausted last ≡ ok r → ⊥
not_exhausted last r h = ground arith

module _ (t : Transaction) where
  -- A response is returned only for an attempt that was accepted.
  attempts-ok :
      (left attempt d : ℕ) (last : Option Verdict) (s : Serial) (r : Bytes)
      → (attempts t left attempt d last s).1 ≡ ok r
      → (n : ℕ) × (verdict_at t n ≡ accepted r)
  unfolding attempts
  attempts-ok zero attempt d last s r h = absurd (not_exhausted last r h)
  attempts-ok (suc left) attempt d last s r h =
      elim (Next-cases (decide t.config attempt (verdict_at t attempt) last)) [
        | inl (result, stops) ↦
            let e : result ≡ ok r =
              sym (ap (λ p. p.1) (attempts-stop t left attempt d last s result stops)) ∙ h in
            (attempt, decide_ok t.config attempt (verdict_at t attempt) last r (stops ∙ ap stop e))
        | inr (last', more) ↦
            attempts-ok left (attempt + 1) (delay_after t attempt d) last'
              (rested t attempt d (tried t attempt s)) r
              (sym (ap (λ p. p.1) (attempts-again t left attempt d last s last' more)) ∙ h)
      ]

module _ (message : Bytes) (cmd sub : Text) (m : ℕ) (board : Board) where
  -- The response is whole, undamaged and of the command asked for.
  abbrev pub IsAnswer : Bytes → Type 0
  IsAnswer r = (response_checksum_valid r ≡ true) × (response_codes r ≡ some (cmd, sub))

  connected-ok :
      (config : SerialModel) (p : Serial × Result (Unit {0})) (r : Bytes)
      → (connected config message (some (cmd, sub)) m board p).1 ≡ ok r
      → IsAnswer r
  unfolding connected
  connected-ok config (s, raise e) r h = cc
  connected-ok config (s, ok x) r h =
      let t : Transaction = transaction config message (some (cmd, sub)) m board s in
      let (n, accepts) =
        attempts-ok t config.max_retries 1 config.initial_retry_delay none s r (ground arith) in
      accepted_verdict cmd sub (board.exchange n) r accepts

  configured-ok :
      (c : Result SerialModel) (s : Serial) (r : Bytes)
      → (configured c message (some (cmd, sub)) m board s).1 ≡ ok r
      → IsAnswer r
  unfolding configured
  configured-ok (raise e) s r h = cc
  configured-ok (ok config) s r h = connected-ok config _ r h

  -- Whatever the state and whatever the board does, a response that `fetch` returns has passed the
  -- checksum and carries the command and the subcommand that the caller expects.
  pub fetch-IsAnswer :
      (s : Serial) (r : Bytes)
      → (fetch message (some cmd) (some sub) m board s).1 ≡ ok r
      → IsAnswer r
  unfolding fetch
  fetch-IsAnswer s r h = configured-ok (get_serial_config s) s r h
