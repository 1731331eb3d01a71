-- ===== src/Machine/Waiting.antt =====
-- The loop behind /deadbolt in src/api/v1/routers/machine.py, and its deadline.
use mathlib.Core.Path.{subst}
use crk_io_board.Base.{
  ℕ, zero, suc, ◌+◌, ◌*◌, ◌≤◌, ◌≡◌, refl, true, Option, some, arith, ◌⊎◌, inl, inr, Text, List,
}
use crk_io_board.Errors.{Result, ok, raise}
use crk_io_board.Protocol.Library.{Construct}
use crk_io_board.Serial.Fetch.{Board}
use crk_io_board.Serial.Fetch.Clock.{now-fetch}
use crk_io_board.Commands.{
  Service, DoorState, DeadboltState, DeadboltAction, get_status, set_deadbolt, send_command,
  exchanged,
}
use crk_io_board.ErrorState.{ErrorState, same_state, wanted_state}
use crk_io_board.Machine.{
  Probes, Pass, answered, go_on, pass_of, wait_for, pause, settle_time, status_poll, confirmed,
  handle_deadbolt,
}

now-exchanged :
    (L : Construct) (cmd sub : Text) (m : ℕ) (board : Board) (b : Result (List ℕ)) (s : Service)
    → s.serial.now ≤ (exchanged L cmd sub m board b s).0.serial.now
now-exchanged L cmd sub m board (raise e) s = omega arith
now-exchanged L cmd sub m board (ok b) s = now-fetch b (some cmd) (some sub) m board s.serial

now-get_status :
    (L : Construct) (board : Board) (s : Service)
    → s.serial.now ≤ (get_status L board s).0.serial.now
unfolding get_status send_command
now-get_status L board s = now-exchanged L _ _ _ board _ s

Pass-cases : (p : Pass) → ((r : Result DeadboltState) × (p ≡ answered r)) ⊎ (p ≡ go_on)
Pass-cases (answered r) = inl (r, refl)
Pass-cases go_on = inr refl

-- The loop goes on only before the deadline.
before_deadline :
    (expected : DeadboltState) (now deadline : ℕ) (status : Result (DoorState × DeadboltState))
    → pass_of expected now deadline status ≡ go_on
    → suc now ≤ deadline
before_deadline expected now deadline (ok (door, bolt)) h = ground arith
before_deadline expected now deadline (raise e) h = cc

-- What a pass answers with: an error, the state that was asked for, or any state at the deadline.
abbrev pub IsAnswered : DeadboltState → ℕ → ℕ → Result DeadboltState → Type 0
IsAnswered expected deadline now (raise e) = Unit
IsAnswered expected deadline now (ok bolt) = (same_state bolt expected ≡ true) ⊎ (deadline ≤ now)

answer_of :
    (expected : DeadboltState) (now deadline : ℕ) (status : Result (DoorState × DeadboltState))
    (r : Result DeadboltState)
    → pass_of expected now deadline status ≡ answered r
    → IsAnswered expected deadline now r
answer_of expected now deadline (ok (door, bolt)) (raise e') h = tt
answer_of expected now deadline (ok (door, bolt)) (ok b) h = ground arith
answer_of expected now deadline (raise e) (raise e') h = tt
answer_of expected now deadline (raise e) (ok b) h = cc

module _ (L : Construct) (probes : Probes) (expected : DeadboltState) (deadline : ℕ) where
  wait_for_ends :
      (fuel k : ℕ) (s : Service)
      → deadline ≤ s.serial.now + fuel * status_poll
      → let (s', o) = wait_for L (suc fuel) k probes expected deadline s in
        (r : Result DeadboltState) × (o ≡ some r) × IsAnswered expected deadline s'.serial.now r
  unfolding wait_for
  wait_for_ends zero k s enough =
      let board = (probes k).0 in
      let s₁ : Service = (get_status L board s).0 in
      let status = (get_status L board s).1 in
      elim (Pass-cases (pass_of expected s₁.serial.now deadline status)) [
        | inl (r, e) ↦
            rw (e, wait_for) (r, refl, answer_of expected s₁.serial.now deadline status r e)
        | inr e ↦ absurd (
            omega (
              arith,
              before_deadline expected s₁.serial.now deadline status e,
              now-get_status L board s,
            ))
      ]
  wait_for_ends (suc fuel) k s enough =
      let board = (probes k).0 in
      let s₁ : Service = (get_status L board s).0 in
      let status = (get_status L board s).1 in
      elim (Pass-cases (pass_of expected s₁.serial.now deadline status)) [
        | inl (r, e) ↦
            rw (e, wait_for) (r, refl, answer_of expected s₁.serial.now deadline status r e)
        | inr e ↦
            rw (e, wait_for)
              (wait_for_ends fuel (k + 1) (pause status_poll (probes k).1 s₁)
                (omega (arith, now-get_status L board s)))
      ]

-- The outcome of a request: an error of a command, the state that was asked for, or whatever state
-- the sensor showed once the limit had passed since `start`.
abbrev pub IsConfirmed : DeadboltState → ℕ → Service × Option (Result DeadboltState) → Type 0
IsConfirmed expected limit (s', o) =
    (r : Result DeadboltState) × (o ≡ some r) × IsAnswered expected limit s'.serial.now r

abbrev pub deadline_of : ℕ → ℕ → Service × Result DeadboltState → ℕ
deadline_of late timeout (s, r) = s.serial.now + settle_time + late + timeout

confirmed_ends :
    (L : Construct) (fuel late : ℕ) (probes : Probes) (expected : DeadboltState) (timeout : ℕ)
    (p : Service × Result DeadboltState)
    → timeout ≤ fuel * status_poll
    → IsConfirmed expected
        (deadline_of late timeout p)
        (confirmed L (suc fuel) late probes expected timeout p)
confirmed_ends L fuel late probes expected timeout (s, raise e) enough = (raise e, refl, tt)
confirmed_ends L fuel late probes expected timeout (s, ok echo) enough =
    let s₁ : Service = pause settle_time late s in
    subst
      (λ d.
        IsConfirmed expected d
          (wait_for L (suc fuel) 0 probes expected (s₁.serial.now + timeout) s₁))
      (omega arith)
      (wait_for_ends L probes expected (s₁.serial.now + timeout) fuel 0 s₁ (omega arith))

-- As long as the board pauses for the 50 ms that end each drain of the input (`pauses` of
-- `Exchange`), and whatever else it does, a request to /deadbolt ends after at most one pass more than
-- the limit has poll intervals: with the error of a command, with the state that was asked for, or
-- with another state, and then not before the limit has passed since the settle time after the
-- command.
pub handle_deadbolt_ends :
    (L : Construct) (fuel : ℕ) (action : DeadboltAction) (time late : ℕ) (board : Board)
    (probes : Probes) (es : ErrorState) (s : Service)
    → es.deadbolt_apply_timeout ≤ fuel * status_poll
    → let (es', s', o) = handle_deadbolt L (suc fuel) action time late board probes es s in
      IsConfirmed
        (wanted_state action)
        (deadline_of late es.deadbolt_apply_timeout (set_deadbolt L action board s))
        (s', o)
unfolding handle_deadbolt
handle_deadbolt_ends L fuel action time late board probes es s enough =
    confirmed_ends L fuel late probes (wanted_state action) es.deadbolt_apply_timeout
      (set_deadbolt L action board s) enough
