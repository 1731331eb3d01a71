-- ===== src/Serial/Fetch/Contract.antt =====
-- What a call of `fetch` of src/services/io_board/serial_io.py comes to, by the verdicts of its attempts.
use crk_io_board.Base.{
  ℕ, zero, suc, ◌+◌, ◌≤◌, ◌<◌, ◌≡◌, refl, ◌⊎◌, true, false, Option, none, some, arith, Bytes, Text,
  ◌∙◌, ap, same_text_iff,
}
use crk_io_board.Errors.{Result, OtherError, ok, raise, other}
use crk_io_board.Serial.Frame.{response_codes, response_checksum_valid}
use crk_io_board.Serial.State.{
  SerialModel, Serial, live, opened, get_serial_config, get_serial_connection,
}
use crk_io_board.Serial.Exchange.{
  Exchange, Received, whole, stalled, timed_out, disconnected, broken as stall_broken, drain_error,
  received_in,
}
use crk_io_board.Serial.Fetch.{
  Verdict, accepted, judge, is_expected, Transaction, transaction, attempts, reset_on_error, Board,
  expected_codes, connected, configured, fetch,
}
use crk_io_board.Serial.Fetch.Steps.{verdict, count_sent, transmissions}
use crk_io_board.Serial.Fetch.Outcomes.{
  is_retriable, last_error, outcome, attempts-ends, attempts_exhaust,
}

-- Serial is configured, with at least one attempt, and the port is open or opens.
pub record IsReady (config : SerialModel) (board : Board) (s : Serial) : Type 0 where
  pub set : s.config ≡ some config
  pub tries : 1 ≤ config.max_retries
  pub opens : (s.connection ≡ live) ⊎ (board.opening ≡ opened)

-- The state when the loop starts.
abbrev pub started : Serial → Serial
started s = record s { transaction_sequence = s.transaction_sequence + 1; connection = live }

connection-opens :
    (board : Board) (s : Serial)
    → (s.connection ≡ live) ⊎ (board.opening ≡ opened)
    → get_serial_connection board.opening
        (record s { transaction_sequence = s.transaction_sequence + 1 })
      ≡ (started s, ok tt)
unfolding get_serial_connection
connection-opens board s h = ground arith

config-set :
    (config : SerialModel) (s : Serial) → s.config ≡ some config → get_serial_config s ≡ ok config
unfolding get_serial_config
config-set config s h = ground arith

reset_answer : (p : Serial × Result Bytes) → (reset_on_error p).1 ≡ p.1
reset_answer (s, ok r) = refl
reset_answer (s, raise e) = refl

reset_wire : (p : Serial × Result Bytes) → (reset_on_error p).0.wire ≡ p.0.wire
reset_wire (s, ok r) = refl
reset_wire (s, raise e) = refl

module _ (config : SerialModel) (message : Bytes) (cmd sub : Option Text) (min_send_interval : ℕ)
    (board : Board) (s : Serial) (ready : IsReady config board s) where
  abbrev begun : Transaction
  begun = transaction config message (expected_codes cmd sub) min_send_interval board (started s)

  abbrev run : Serial × Result Bytes
  run = attempts begun config.max_retries 1 config.initial_retry_delay none (started s)

  fetch-run : fetch message cmd sub min_send_interval board s ≡ reset_on_error run
  unfolding fetch connected configured
  fetch-run =
      ap (λ c. configured c message (expected_codes cmd sub) min_send_interval board s)
        (config-set config s ready.set)
      ∙ ap (connected config message (expected_codes cmd sub) min_send_interval board)
          (connection-opens board s ready.opens)

  abbrev after : Serial
  after = (fetch message cmd sub min_send_interval board s).0

  abbrev answer : Result Bytes
  answer = (fetch message cmd sub min_send_interval board s).1

  -- The verdict of the attempt with the number.
  abbrev verdict_of : ℕ → Verdict
  verdict_of n = verdict (expected_codes cmd sub) (board.exchange n)

  answer-run : answer ≡ run.1
  answer-run = ap (λ p. p.1) fetch-run ∙ reset_answer run

  wire-run : after.wire ≡ run.0.wire
  wire-run = ap (λ p. p.0.wire) fetch-run ∙ reset_wire run

  -- How an attempt that ends the transaction has left the wire: behind a drain that raises nothing
  -- there are as many transmissions as attempts, and a drain that raises ends the transaction with
  -- its exception, before the transmission of that attempt.
  abbrev pub EndsAfter : ℕ → Option OtherError → Type 0
  EndsAfter n none = count_sent after.wire ≡ count_sent s.wire + n
  EndsAfter n (some x) =
      (answer ≡ raise (other x)) × (count_sent after.wire + 1 ≡ count_sent s.wire + n)

  drain_failed :
      (n : ℕ) (x : OtherError)
      → drain_error (board.exchange n) ≡ some x
      → outcome (verdict_of n) ≡ raise (other x)
  unfolding judge
  drain_failed n x h = rw h refl

  ends_after :
      (k : ℕ) (o : Option OtherError)
      → drain_error (board.exchange (suc k)) ≡ o
      → answer ≡ outcome (verdict_of (suc k))
      → count_sent after.wire ≡ count_sent s.wire + k + transmissions o
      → EndsAfter (suc k) o
  ends_after k none h result count = omega arith
  ends_after k (some x) h result count = (result ∙ drain_failed (suc k) x h, omega arith)

  -- A first attempt that is not retried ends the transaction: an acceptable response is returned,
  -- and an exception that `fetch` does not handle goes on, after as many transmissions as attempts,
  -- or one fewer when it was the drain of the last attempt that raised the exception.
  pub fetch_ends :
      (n : ℕ)
      → 1 ≤ n
      → n ≤ config.max_retries
      → ((j : ℕ) → 1 ≤ j → j < n → is_retriable (verdict_of j) ≡ true)
      → is_retriable (verdict_of n) ≡ false
      → (answer ≡ outcome (verdict_of n)) × EndsAfter n (drain_error (board.exchange n))
  fetch_ends (suc k) h1 h2 before final =
      let (result, count) =
        attempts-ends begun k config.max_retries 1 (suc k) config.initial_retry_delay none
          (started s) (omega arith) (omega arith) (omega arith) before final in
      (
        answer-run ∙ result,
        ends_after k (drain_error (board.exchange (suc k))) refl (answer-run ∙ result)
            (ap count_sent wire-run ∙ count),
      )
  fetch_ends zero h1 h2 before final = absurd (omega arith)

  -- If no attempt succeeds, `fetch` has transmitted `max_retries` times and raises the error of
  -- the last attempt.
  pub fetch_exhausts :
      ((j : ℕ) → 1 ≤ j → j ≤ config.max_retries → is_retriable (verdict_of j) ≡ true)
      → (answer ≡ last_error (verdict_of config.max_retries))
        × (count_sent after.wire ≡ count_sent s.wire + config.max_retries)
  fetch_exhausts retried =
      let (result, count) =
        attempts_exhaust begun config.max_retries 1 config.initial_retry_delay none (started s)
          ready.tries (omega arith) (λ j lo hi. retried j lo (omega arith)) in
      (answer-run ∙ result, ap count_sent wire-run ∙ count)

accepted_valid :
    (expected : Option (Text × Text)) (r : Received) (response : Bytes)
    → judge expected r ≡ accepted response
    → (response_checksum_valid response ≡ true)
      × (is_expected expected (response_codes response) ≡ true)
unfolding judge
accepted_valid expected (whole x rest) response h = ground arith
accepted_valid expected (stalled timed_out) response h = cc
accepted_valid expected (stalled disconnected) response h = cc
accepted_valid expected (stalled (stall_broken e)) response h = cc

expected_eq :
    (cmd sub : Text) (codes : Option (Text × Text))
    → is_expected (some (cmd, sub)) codes ≡ true
    → codes ≡ some (cmd, sub)
expected_eq cmd sub none h = cc
expected_eq cmd sub (some (a, b)) h = ground (arith, same_text_iff a cmd, same_text_iff b sub)

-- An accepted response has a valid checksum, and names the command and the subcommand asked for.
pub accepted_verdict :
    (cmd sub : Text) (e : Exchange) (response : Bytes)
    → verdict (some (cmd, sub)) e ≡ accepted response
    → (response_checksum_valid response ≡ true) × (response_codes response ≡ some (cmd, sub))
accepted_verdict cmd sub e response h =
    let (valid, named) = accepted_valid (some (cmd, sub)) (received_in e) response h in
    (valid, expected_eq cmd sub (response_codes response) named)
