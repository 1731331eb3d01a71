-- ===== src/Api.antt =====
-- The HTTP layer: the exception handlers of src/main.py, and the handlers of src/api/v1/routers that
-- answer with the outcome of one call: management.py, recording.py, and the rest of machine.py. A
-- response keeps its status and its data; messages and details are left out.
pub mod ProductId
pub mod Management
mod Tests
use crk_io_board.Base.{
  ℕ, Bool, true, false, ◌&&◌, ◌||◌, Option, none, some, List, [], ◌∷◌, Text, codes, length, leb,
  ◌==◌, if◌then◌else◌,
}
use crk_io_board.Errors.{Raised, io_board, other, Result, ok, raise}
use crk_io_board.Errors
use crk_io_board.Protocol.Library.{Construct}
use crk_io_board.Serial.Fetch.{Board}
use crk_io_board.Commands.{
  Service, DoorState, DeadboltState, initialize, calibrate, set_manufacturing_number, clear_errors,
  reboot, get_product_info, get_errors, get_status, get_loadcells,
}
use crk_io_board.Polling.{Polling}
use crk_io_board.Recording.{Recording, start_recording, stop_recording, retrieve_recording}

-- The response models of io_types.py, machine.py and recording.py; an error response by its code.
pub data Body : Type 0 where
  success : Body
  manufacturing_number : Text → Body
  sw_version : Text → Body
  product_info : (product_id version : Text) → Body
  error_items : List Text → Body
  door_body : DoorState → Body
  deadbolt_body : DeadboltState → Body
  loadcells_body : List Text → Body
  io_status_body : DoorState → DeadboltState → Body
  logs : List (List Text × ℕ) → Body
  error_response : Text → Body
  request_rejected : Body

pub record Response : Type 0 where
  pub status : ℕ
  pub body : Body

-- How a handler ends: a pydantic model that does not validate is an exception of its own.
pub data Outcome : Type 0 where
  replied : Body → Outcome
  validation_failed : Outcome
  raised : Raised → Outcome

-- ioboard_error_handler, validation_error_handler and generic_error_handler
unfoldable pub respond : Outcome → Response
respond (replied b) = record { status = 200; body = b }
respond (raised (io_board e)) = record {
  status = 500;
  body = error_response (Errors.value e.error_code);
}
respond validation_failed = record { status = 422; body = error_response (codes "E4001") }
respond (raised (other e)) = record { status = 500; body = error_response (codes "E9001") }

abbrev pub outcome {ℓ} : {A : Type ℓ} → (A → Outcome) → Result A → Outcome
outcome f (ok a) = f a
outcome f (raise e) = raised e

abbrev pub answer {ℓ} : {A : Type ℓ} → (A → Outcome) → Service × Result A → Service × Response
answer f (s, r) = (s, respond (outcome f r))

abbrev pub checked : Bool → Body → Outcome
checked true b = replied b
checked false b = validation_failed

-- ManufacturingNumberResponse, ErrorListResponse and LoadCellsResponse, with their lengths
unfoldable pub manufacturing_response : Text → Outcome
manufacturing_response number = checked (length number == 11) (manufacturing_number number)

abbrev pub all_of_four : List Text → Bool
all_of_four [] = true
all_of_four (c ∷ cs) = length c == 4 && all_of_four cs

unfoldable pub error_list_response : List Text → Outcome
error_list_response errors =
    checked (all_of_four errors && leb (length errors) 4) (error_items errors)

unfoldable pub loadcells_response : List Text → Outcome
loadcells_response loadcells = checked (length loadcells == 10) (loadcells_body loadcells)

-- `c.isalnum()` of an ASCII character
abbrev pub is_alphanumeric : ℕ → Bool
is_alphanumeric c =
    (leb b'0' c && leb c b'9') || (leb b'A' c && leb c b'Z') || (leb b'a' c && leb c b'z')

-- `v.replace(" ", "").isalnum()`: there is a character, and all are alphanumeric.
abbrev pub all_alphanumeric : Bool → Text → Bool
all_alphanumeric seen [] = seen
all_alphanumeric seen (c ∷ s) =
    if c == 32
    then all_alphanumeric seen s
    else if is_alphanumeric c
    then all_alphanumeric true s
    else false

-- ManufacturingNumberRequest, of an ASCII text
unfoldable pub valid_request : Text → Bool
valid_request number = length number == 11 && all_alphanumeric false number

abbrev pub status_door : DoorState × DeadboltState → Outcome
status_door (door, deadbolt) = replied (door_body door)

abbrev pub status_deadbolt : DoorState × DeadboltState → Outcome
status_deadbolt (door, deadbolt) = replied (deadbolt_body deadbolt)

abbrev pub status_both : DoorState × DeadboltState → Outcome
status_both (door, deadbolt) = replied (io_status_body door deadbolt)

abbrev pub info_number : Text × Text → Outcome
info_number (product_id, version) = manufacturing_response product_id

abbrev pub info_version : Text × Text → Outcome
info_version (product_id, version) = replied (sw_version version)

abbrev pub info_both : Text × Text → Outcome
info_both (product_id, version) = replied (product_info product_id version)

module _ (L : Construct) where
  unfoldable pub initialize_device : Board → Service → Service × Response
  unfolding respond
  initialize_device board s = answer (λ u. replied success) (initialize L board s)

  unfoldable pub calibrate_loadcells : Board → Service → Service × Response
  unfolding respond
  calibrate_loadcells board s = answer (λ u. replied success) (calibrate L board s)

  unfoldable pub get_manufacturing_number : Board → Service → Service × Response
  unfolding respond manufacturing_response
  get_manufacturing_number board s = answer info_number (get_product_info L board s)

  -- POST /manufacturing-number: a request that does not validate does not reach the handler.
  unfoldable pub post_manufacturing_number : Text → Board → Service → Service × Response
  unfolding respond manufacturing_response valid_request
  post_manufacturing_number number board s =
      if valid_request number
      then answer manufacturing_response (set_manufacturing_number L number board s)
      else (s, record { status = 422; body = request_rejected })

  unfoldable pub get_software_version : Board → Service → Service × Response
  unfolding respond
  get_software_version board s = answer info_version (get_product_info L board s)

  unfoldable pub reboot_device : Board → Service → Service × Response
  unfolding respond
  reboot_device board s = answer (λ u. replied success) (reboot L board s)

  -- GET /product-info
  unfoldable pub product_info_endpoint : Board → Service → Service × Response
  unfolding respond
  product_info_endpoint board s = answer info_both (get_product_info L board s)

  -- GET and DELETE /errors
  unfoldable pub errors_endpoint : Board → Service → Service × Response
  unfolding respond error_list_response
  errors_endpoint board s = answer error_list_response (get_errors L board s)

  unfoldable pub clear_endpoint : Board → Service → Service × Response
  unfolding respond
  clear_endpoint board s = answer (λ u. replied success) (clear_errors L board s)

  -- The handlers of machine.py
  unfoldable pub get_deadbolt : Board → Service → Service × Response
  unfolding respond
  get_deadbolt board s = answer status_deadbolt (get_status L board s)

  unfoldable pub get_door : Board → Service → Service × Response
  unfolding respond
  get_door board s = answer status_door (get_status L board s)

  unfoldable pub handle_loadcells : Board → Service → Service × Response
  unfolding respond loadcells_response
  handle_loadcells board s = answer loadcells_response (get_loadcells L board s)

  unfoldable pub handle_status : Board → Service → Service × Response
  unfolding respond
  handle_status board s = answer status_both (get_status L board s)

-- The handlers of recording.py, over the recording service of the loadcells
abbrev done : Recording (List Text) → Recording (List Text) × Response
done r = (r, respond (replied success))

unfoldable pub start_endpoint : Recording (List Text) → Recording (List Text) × Response
unfolding respond start_recording
start_endpoint r = done (start_recording true r)

unfoldable pub stop_endpoint : ℕ → Recording (List Text) → Recording (List Text) × Response
unfolding respond stop_recording
stop_endpoint next r = done (stop_recording next r)

unfoldable pub data_endpoint : Recording (List Text) → Recording (List Text) × Response
unfolding respond
data_endpoint r = (r, respond (replied (logs (retrieve_recording r))))

-- `interval_provider` of the IO status polling in src/main.py: the longer interval while anybody is
-- subscribed to the loadcells.
unfoldable pub io_status_interval {ℓ} :
    {A : Type ℓ} → (idle while_loadcells_active : ℕ) → Polling A → ℕ
io_status_interval idle while_loadcells_active p =
    if length p.subscribers == 0 then idle else while_loadcells_active
