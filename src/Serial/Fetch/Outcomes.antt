-- ===== src/Serial/Fetch/Outcomes.antt =====
-- What a transaction returns or raises, and after how many transmissions.
use crk_io_board.Base.{
  ℕ, zero, suc, ◌+◌, ◌≤◌, ◌<◌, ◌≡◌, refl, ◌⊎◌, inl, inr, Bool, true, false, Option, some, arith,
  Bytes, Text, none, ◌∙◌, ap,
}
use crk_io_board.Errors.{
  Result, OtherError, ok, raise, raise_code, other, protocol_error, protocol_checksum_mismatch,
  protocol_invalid_response, serial_communication_error, serial_timeout, serial_incomplete_read,
}
use crk_io_board.Serial.State.{Serial}
use crk_io_board.Serial.Exchange.{Stall, drain_error, received_after}
use crk_io_board.Serial.Fetch.{
  judge, Verdict, accepted, corrupted, mismatched, timeout, incomplete, failed, decide, stop, again,
  exhausted, Transaction, attempts,
}
use crk_io_board.Serial.Fetch.Steps.{
  verdict_at, tried, rested, delay_after, attempts-stop, attempts-again, count_sent, transmissions,
  count_sent-tried, wire-rested,
}

-- The verdicts after which the loop goes on.
abbrev pub is_retriable : Verdict → Bool
is_retriable (accepted r) = false
is_retriable (failed e) = false
is_retriable _ = true

-- The error of a transaction whose last attempt came to the verdict.
abbrev pub last_error : Verdict → Result Bytes
last_error corrupted = raise_code protocol_error protocol_checksum_mismatch
last_error mismatched = raise_code protocol_error protocol_invalid_response
last_error timeout = raise_code serial_communication_error serial_timeout
last_error _ = raise_code serial_communication_error serial_incomplete_read

-- The verdicts that end the transaction at once.
abbrev pub outcome : Verdict → Result Bytes
outcome (accepted r) = ok r
outcome (failed e) = raise (other e)
outcome v = last_error v

received-transmissions :
    (o : Option OtherError) (expected : Option (Text × Text)) (arrivals : Bytes) (stall : Stall)
    → is_retriable (judge expected (received_after o arrivals stall)) ≡ true
    → transmissions o ≡ 1
unfolding judge
received-transmissions none expected arrivals stall h = refl
received-transmissions (some x) expected arrivals stall h = cc

module _ (t : Transaction) where
  -- A retried attempt has transmitted.
  count_sent-retried :
      (attempt : ℕ) (s : Serial)
      → is_retriable (verdict_at t attempt) ≡ true
      → count_sent (tried t attempt s).wire ≡ suc (count_sent s.wire)
  count_sent-retried attempt s h =
      let e = t.exchange attempt in
      omega (
        arith,
        count_sent-tried t attempt s,
        received-transmissions (drain_error e) t.expected e.arrivals e.stall h,
      )

  -- The attempts from `attempt`, with `left` of them to go.
  abbrev pub IsLeft : ℕ → ℕ → Type 0
  IsLeft left attempt = attempt + left ≡ t.config.max_retries + 1

  decide_retriable :
      (attempt : ℕ) (v : Verdict) (last : Option Verdict)
      → is_retriable v ≡ true
      → attempt < t.config.max_retries
      → (last' : Option Verdict) × (decide t.config attempt v last ≡ again last')
  unfolding decide
  decide_retriable attempt corrupted last h lt = (last, ground arith)
  decide_retriable attempt mismatched last h lt = (last, ground arith)
  decide_retriable attempt timeout last h lt = (some timeout, refl)
  decide_retriable attempt incomplete last h lt = (some incomplete, refl)
  decide_retriable attempt (accepted r) last h lt = cc
  decide_retriable attempt (failed e) last h lt = cc

  decide_final :
      (attempt : ℕ) (v : Verdict) (last : Option Verdict)
      → is_retriable v ≡ false
      → decide t.config attempt v last ≡ stop (outcome v)
  unfolding decide
  decide_final attempt (accepted r) last h = refl
  decide_final attempt (failed e) last h = refl
  decide_final attempt corrupted last h = cc
  decide_final attempt mismatched last h = cc
  decide_final attempt timeout last h = cc
  decide_final attempt incomplete last h = cc

  -- The attempts from `attempt` up to `n` are retried.
  abbrev pub Retried : ℕ → ℕ → Type 0
  Retried attempt n = (j : ℕ) → attempt ≤ j → j < n → is_retriable (verdict_at t j) ≡ true

  ends_here :
      (left attempt n retry_delay : ℕ) (last : Option Verdict) (s : Serial)
      → attempt ≡ n
      → is_retriable (verdict_at t n) ≡ false
      → attempts t (suc left) attempt retry_delay last s
        ≡ (tried t attempt s, outcome (verdict_at t n))
  ends_here left attempt n d last s e final =
      attempts-stop t left attempt d last s _
        (decide_final attempt (verdict_at t attempt) last (rw e final))
      ∙ ap (λ v. (tried t attempt s, outcome (verdict_at t v))) e

  -- After `k` attempts that the loop retries, one that it does not ends it.
  pub attempts-ends :
      (k left attempt n retry_delay : ℕ) (last : Option Verdict) (s : Serial)
      → attempt + k ≡ n
      → IsLeft left attempt
      → k < left
      → Retried attempt n
      → is_retriable (verdict_at t n) ≡ false
      → let (s', result) = attempts t left attempt retry_delay last s in
        (result ≡ outcome (verdict_at t n))
        × (count_sent s'.wire ≡ count_sent s.wire + k + transmissions (drain_error (t.exchange n)))
  attempts-ends zero (suc left) attempt n d last s e hl lt before final =
      let same : attempt ≡ n = omega arith in
      rw (ends_here left attempt n d last s same final) (
        refl,
        omega (
          arith,
          count_sent-tried t attempt s,
          ap (λ j. transmissions (drain_error (t.exchange j))) same,
        ),
      )
  attempts-ends (suc k) (suc left) attempt n d last s e hl lt before final =
      let (last', more) =
        decide_retriable attempt (verdict_at t attempt) last
          (before attempt (omega arith) (omega arith)) (omega arith) in
      let s' : Serial = rested t attempt d (tried t attempt s) in
      let (result, count) =
        attempts-ends k left (attempt + 1) n (delay_after t attempt d) last' s' (omega arith)
          (omega arith) (omega arith) (λ j hj. before j (omega arith)) final in
      rw (attempts-again t left attempt d last s last' more) (
        result,
        omega (
          arith,
          count,
          count_sent-retried attempt s (before attempt (omega arith) (omega arith)),
          ap count_sent (wire-rested t attempt d (tried t attempt s)),
        ),
      )
  attempts-ends k zero attempt n d last s e hl lt before final = absurd (omega arith)

  -- On the last attempt the loop raises, or falls through to the error after it.
  decide_last :
      (attempt : ℕ) (v : Verdict) (last : Option Verdict)
      → is_retriable v ≡ true
      → attempt ≡ t.config.max_retries
      → (decide t.config attempt v last ≡ stop (last_error v))
        ⊎ ((last' : Option Verdict) × (decide t.config attempt v last ≡ again last')
            × (exhausted last' ≡ last_error v))
  unfolding decide
  decide_last attempt corrupted last h e = inl (ground arith)
  decide_last attempt mismatched last h e = inl (ground arith)
  decide_last attempt timeout last h e = inr (some timeout, refl, refl)
  decide_last attempt incomplete last h e = inr (some incomplete, refl, refl)
  decide_last attempt (accepted r) last h e = cc
  decide_last attempt (failed x) last h e = cc

  exhausts_here :
      (attempt retry_delay : ℕ) (last : Option Verdict) (s : Serial)
      → attempt ≡ t.config.max_retries
      → is_retriable (verdict_at t attempt) ≡ true
      → let (s', result) = attempts t 1 attempt retry_delay last s in
        (result ≡ last_error (verdict_at t attempt)) × (count_sent s'.wire ≡ count_sent s.wire + 1)
  unfolding attempts
  exhausts_here attempt d last s e h = elim (decide_last attempt (verdict_at t attempt) last h e) [
    | inl stops ↦
        rw (attempts-stop t 0 attempt d last s _ stops)
          (refl, omega (arith, count_sent-retried attempt s h))
    | inr (last', more, error) ↦ rw (attempts-again t 0 attempt d last s last' more) (
      error,
      omega (
        arith,
        count_sent-retried attempt s h,
        ap count_sent (wire-rested t attempt d (tried t attempt s)),
      ),
    )
  ]

  attempts-exhausts :
      (left attempt retry_delay : ℕ) (last : Option Verdict) (s : Serial)
      → IsLeft (suc left) attempt
      → Retried attempt (t.config.max_retries + 1)
      → let (s', result) = attempts t (suc left) attempt retry_delay last s in
        (result ≡ last_error (verdict_at t t.config.max_retries))
        × (count_sent s'.wire ≡ count_sent s.wire + suc left)
  attempts-exhausts zero attempt d last s hl retried =
      let e : attempt ≡ t.config.max_retries = omega arith in
      let (result, count) =
        exhausts_here attempt d last s e (retried attempt (omega arith) (omega arith)) in
      (result ∙ ap (λ n. last_error (verdict_at t n)) e, count)
  attempts-exhausts (suc left) attempt d last s hl retried =
      let (last', more) =
        decide_retriable attempt (verdict_at t attempt) last
          (retried attempt (omega arith) (omega arith)) (omega arith) in
      let s' : Serial = rested t attempt d (tried t attempt s) in
      let (result, count) =
        attempts-exhausts left (attempt + 1) (delay_after t attempt d) last' s' (omega arith)
          (λ j hj. retried j (omega arith)) in
      rw (attempts-again t (suc left) attempt d last s last' more) (
        result,
        omega (
          arith,
          count,
          count_sent-retried attempt s (retried attempt (omega arith) (omega arith)),
          ap count_sent (wire-rested t attempt d (tried t attempt s)),
        ),
      )

  pub attempts_exhaust :
      (left attempt retry_delay : ℕ) (last : Option Verdict) (s : Serial)
      → 1 ≤ left
      → IsLeft left attempt
      → Retried attempt (t.config.max_retries + 1)
      → let (s', result) = attempts t left attempt retry_delay last s in
        (result ≡ last_error (verdict_at t t.config.max_retries))
        × (count_sent s'.wire ≡ count_sent s.wire + left)
  attempts_exhaust zero attempt d last s pos hl retried = absurd (omega arith)
  attempts_exhaust (suc left) attempt d last s pos hl retried =
      attempts-exhausts left attempt d last s hl retried
