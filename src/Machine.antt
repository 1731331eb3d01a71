-- ===== src/Machine.antt =====
-- The handlers of src/api/v1/routers/machine.py behind /health and /deadbolt. The board's side of the
-- commands of a request is an argument. The operation lock of /deadbolt makes a request one step.
pub mod Waiting
pub mod Loadcells
pub mod Verdict
mod Tests
use crk_io_board.Base.{
  ℕ, zero, suc, ◌+◌, ◌-◌, ◌*◌, Bool, true, false, ◌&&◌, ◌||◌, not, Option, none, some, List, [],
  ◌∷◌, Text, leb, ◌==◌, if◌then◌else◌,
}
use crk_io_board.Base.Int.{ℤ, pos, neg_ℤ, ltb_ℤ, pos_part}
use crk_io_board.Errors.{Result, ok, raise}
use crk_io_board.Protocol.Library.{Construct}
use crk_io_board.Serial.State.{sleep}
use crk_io_board.Serial.Fetch.{Board}
use crk_io_board.Commands.{
  Service, DoorState, opened, closed, DeadboltState, locked, unlocked, DeadboltAction, open_bolt,
  close_bolt, get_status, get_loadcells, set_deadbolt,
}
use crk_io_board.ErrorState.{
  ErrorState, door_error, deadbolt_error, set_deadbolt_action, same_state, wanted_state,
}
use crk_io_board.Config.{HealthSettings}
use crk_io_board.Readings.{is_digit}

pub data Health : Type 0 where
  healthy unhealthy : Health

abbrev pub health_of : Bool → Health
health_of true = healthy
health_of false = unhealthy

-- `int(x)` of a sign and five digits
abbrev pub int_of : ℕ → ℕ → ℕ → ℕ → ℕ → ℕ → ℤ
int_of sign a b c d e =
    let n =
      (a - b'0') * 10000 + (b - b'0') * 1000 + (c - b'0') * 100 + (d - b'0') * 10 + (e - b'0') in
    if sign == b'-' then neg_ℤ (pos n) else pos n

-- The number of a text that LOADCELL_PATTERN matches in full.
unfoldable pub matched : Text → Option ℤ
matched (s ∷ a ∷ b ∷ c ∷ d ∷ e ∷ []) =
    if (s == b'+' || s == b'-')
      && is_digit a
      && is_digit b
      && is_digit c
      && is_digit d
      && is_digit e
    then some (int_of s a b c d e)
    else none
matched _ = none

abbrev pub in_range : ℤ → ℤ → Option ℤ → Bool
in_range low high none = false
in_range low high (some n) = not (ltb_ℤ n low) && not (ltb_ℤ high n)

-- Both `all(map(…))`: every reading matches, and every one is in the range.
unfoldable pub all_plausible : HealthSettings → List Text → Bool
unfolding matched
all_plausible cfg [] = true
all_plausible cfg (x ∷ xs) =
    in_range cfg.loadcell_min_grams cfg.loadcell_max_grams (matched x) && all_plausible cfg xs

abbrev pub loadcells_health : HealthSettings → Result (List Text) → Health
unfolding all_plausible
loadcells_health cfg (ok loadcells) = health_of (all_plausible cfg loadcells)
loadcells_health cfg (raise e) = unhealthy

-- The deadbolt must not be locked while the door is open.
abbrev pub is_consistent : DoorState → DeadboltState → Bool
is_consistent opened locked = false
is_consistent _ _ = true

abbrev pub deadbolt_health : Bool → Result (DoorState × DeadboltState) → Health
deadbolt_health applied (ok (door, bolt)) = health_of (applied && is_consistent door bolt)
deadbolt_health applied (raise e) = unhealthy

pub record HealthResponse : Type 0 where
  pub deadbolt : Health
  pub loadcells : Health
  pub door : Health

-- DEADBOLT_SETTLE_SECONDS and DEADBOLT_STATUS_POLL_SECONDS
abbrev pub settle_time : ℕ
settle_time = 500000

abbrev pub status_poll : ℕ
status_poll = 100000

abbrev pub pause : ℕ → ℕ → Service → Service
pause d late s = record s { serial = sleep d late s.serial }

-- The board in each pass of the loop, and how late the sleep behind it ends.
abbrev pub Probes : Type 0
Probes = ℕ → Board × ℕ

pub data Pass : Type 0 where
  answered : Result DeadboltState → Pass
  go_on : Pass

abbrev pub pass_of : DeadboltState → ℕ → ℕ → Result (DoorState × DeadboltState) → Pass
pass_of expected now deadline (ok (door, bolt)) =
    if same_state bolt expected || leb deadline now then answered (ok bolt) else go_on
pass_of expected now deadline (raise e) = answered (raise e)

module _ (L : Construct) where
  unfoldable pub get_health :
      HealthSettings
      → ErrorState
      → (time time' : ℕ) → Board
      → Board
      → Service
      → Service × HealthResponse
  unfolding get_loadcells get_status door_error deadbolt_error
  get_health cfg es time time' board board' s =
      let (s₁, frame) = get_loadcells L board s in
      let (s₂, status) = get_status L board' s₁ in
      (
        s₂,
        record {
          deadbolt = deadbolt_health (deadbolt_error time' es) status;
          loadcells = loadcells_health cfg frame;
          door = health_of (door_error time es);
        },
      )

  -- `while True`, for as many passes as there is fuel.
  unfoldable pub wait_for :
      ℕ → ℕ → Probes → DeadboltState → ℕ → Service → Service × Option (Result DeadboltState)
  unfolding get_status
  wait_for zero k probes expected deadline s = (s, none)
  wait_for (suc fuel) k probes expected deadline s =
      let (board, late) = probes k in
      let (s₁, status) = get_status L board s in
      elim (pass_of expected s₁.serial.now deadline status) [
        | answered r ↦ (s₁, some r)
        | go_on ↦ wait_for fuel (k + 1) probes expected deadline (pause status_poll late s₁)
      ]

  -- From the command's answer on: the settle time, and the loop up to the deadline.
  abbrev pub confirmed :
      ℕ
      → ℕ
      → Probes
      → DeadboltState
      → ℕ
      → Service × Result DeadboltState
      → Service × Option (Result DeadboltState)
  confirmed fuel late probes expected timeout (s, raise e) = (s, some (raise e))
  confirmed fuel late probes expected timeout (s, ok echo) =
      let s₁ = pause settle_time late s in
      wait_for fuel 0 probes expected (s₁.serial.now + timeout) s₁

  -- The handler of /deadbolt.
  unfoldable pub handle_deadbolt :
      ℕ
      → DeadboltAction
      → ℕ
      → ℕ
      → Board
      → Probes
      → ErrorState
      → Service
      → ErrorState × Service × Option (Result DeadboltState)
  unfolding set_deadbolt set_deadbolt_action wait_for
  handle_deadbolt fuel action time late board probes es s =
      let (s', r) =
        confirmed fuel late probes (wanted_state action) es.deadbolt_apply_timeout
          (set_deadbolt L action board s) in
      (set_deadbolt_action action time es, s', r)
