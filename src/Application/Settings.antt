-- ===== src/Application/Settings.antt =====
-- `Settings` of src/core/config.py, and the configuration of the modules in `lifespan` of src/main.py.
mod Tests
use crk_io_board.Base.{ℕ, ◌≡◌, refl, ◌≤◌, arith, true, none, some, List, Text, ap, ◌∙◌, sym}
use crk_io_board.Base.Int.{ℤ, pos_part, neg_ℤ}
use crk_io_board.Errors.{Result, ok, raise, ◌>>=◌}
use crk_io_board.Protocol.Library.{Construct}
use crk_io_board.Protocol.Frames.{weights}
use crk_io_board.Serial.State.{SerialModel, opened, configure_serial}
use crk_io_board.Serial.Fetch.{Board, next_delay}
use crk_io_board.Serial.Fetch.Contract.{IsReady}
use crk_io_board.Sanitizer.{SanitizeModel, configure_sanitizer, sanitize_loadcells, sign_guard}
use crk_io_board.Sanitizer.Guard.{IsGlitch, corrects}
use crk_io_board.Commands.{Service, get_loadcells, configure_loadcell_throttle, cached_frame}
use crk_io_board.Commands.Delivery.{IsDelivered}
use crk_io_board.Commands.Throttle.{asked, get_loadcells-reply}
use crk_io_board.Config.{
  SerialSettings, ApiSettings, PollingSettings, SanitizeSettings, HealthSettings, validate_serial,
  validate_api, validate_polling, validate_sanitize, validate_health,
}
use crk_io_board.Config.Guarantees.{validate_serial-IsReady, validate_sanitize-relatch}

-- What the environment gives, and what the validators make of it.
pub record Environment : Type 0 where
  pub serial : SerialSettings
  pub api : ApiSettings
  pub polling : PollingSettings
  pub sanitize : SanitizeSettings
  pub health : HealthSettings

pub record Settings : Type 0 where
  pub serial : SerialModel
  pub api : ApiSettings
  pub polling : PollingSettings
  pub sanitize : SanitizeModel
  pub health : HealthSettings

unfoldable pub load_settings : Environment → Result Settings
unfolding validate_serial validate_api validate_polling validate_sanitize validate_health
load_settings e = do
  serial ← validate_serial e.serial
  api ← validate_api e.api
  polling ← validate_polling e.polling
  sanitize ← validate_sanitize e.sanitize
  health ← validate_health e.health
  ok (record {
    serial = serial;
    api = api;
    polling = polling;
    sanitize = sanitize;
    health = health;
  })

-- The calls of configure_serial, configure_sanitizer and configure_loadcell_throttle
unfoldable pub configure : Settings → Service → Service
unfolding configure_serial configure_sanitizer configure_loadcell_throttle
configure c s =
    configure_loadcell_throttle (pos_part c.polling.loadcells_min_request_gap) (record s {
      serial = configure_serial c.serial s.serial;
      sanitizer = configure_sanitizer c.sanitize;
    })

bind_ok :
    {A : Type 0} {B : Type 0} (m : Result A) (k : A → Result B) (b : B)
    → (m >>= k) ≡ ok b
    → (a : A) × (m ≡ ok a) × (k a ≡ ok b)
bind_ok (ok a) k b h = (a, refl, h)
bind_ok (raise e) k b h = cc

-- The parts of settings that load have passed their validators.
record IsValidated (e : Environment) (c : Settings) : Type 0 where
  serial : validate_serial e.serial ≡ ok c.serial
  sanitize : validate_sanitize e.sanitize ≡ ok c.sanitize

load_settings-IsValidated :
    (e : Environment) (c : Settings) → load_settings e ≡ ok c → IsValidated e c
unfolding load_settings
load_settings-IsValidated e c h =
    let (serial, one, h₁) = bind_ok (validate_serial e.serial) _ c h in
    let (api, two, h₂) = bind_ok (validate_api e.api) _ c h₁ in
    let (polling, three, h₃) = bind_ok (validate_polling e.polling) _ c h₂ in
    let (sanitize, four, h₄) = bind_ok (validate_sanitize e.sanitize) _ c h₃ in
    let (health, five, h₅) = bind_ok (validate_health e.health) _ c h₄ in
    let same : (c ≡ _) = sym (ok_injective h₅) in
    record {
      serial = one ∙ ap (λ (x : Settings). ok x.serial) (sym same);
      sanitize = four ∙ ap (λ (x : Settings). ok x.sanitize) (sym same);
    }
  where
    ok_injective : {a b : Settings} → ok a ≡ ok b → a ≡ b
    ok_injective h = cc

uncached : (c : Settings) (s : Service) → cached_frame (configure c s) ≡ none
unfolding configure configure_loadcell_throttle
uncached c s = ground arith

pub configure_lem :
    (e : Environment) (c : Settings) (L : Construct) (board : Board) (s : Service) (ws : List Text)
    → load_settings e ≡ ok c
    → board.opening ≡ opened
    → IsDelivered (weights ws) board
    → (p v : ℤ) → IsGlitch c.sanitize p v
    → let s' = configure c s in
      IsReady c.serial board s'.serial
      × ((delay : ℕ) → delay ≤ next_delay c.serial delay)
      × (2 ≤ c.sanitize.relatch_frames)
      × (sign_guard c.sanitize true v (some p) 0 ≡ (neg_ℤ v, 1, true))
      × ((get_loadcells L board s').1
          ≡ ok
              (sanitize_loadcells ws
                (asked L board s').0.serial.now
                (configure_sanitizer c.sanitize)).1)
unfolding configure configure_loadcell_throttle
configure_lem e c L board s ws loads opens delivered p v glitch =
    let valid = load_settings-IsValidated e c loads in
    let (ready, grows) =
      validate_serial-IsReady e.serial c.serial board s.serial valid.serial opens in
    let relatch = validate_sanitize-relatch e.sanitize c.sanitize valid.sanitize in
    (
      ready,
      grows,
      relatch,
      corrects c.sanitize p v 0 glitch (omega arith),
      get_loadcells-reply L board (configure c s) c.serial ws ready delivered (uncached c s),
    )
