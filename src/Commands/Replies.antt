-- ===== src/Commands/Replies.antt =====
-- What the commands of src/services/io_board/commands.py return for what the board answers.
use crk_io_board.Base.{
  ◌≡◌, refl, ◌∙◌, ap, Bool, true, false, List, [], ◌∷◌, Bytes, Text, codes, length, ◌≤◌,
  if◌then◌else◌,
}
use crk_io_board.Errors.{ok, ◌>>=◌}
use crk_io_board.Protocol.{build_request}
use crk_io_board.Protocol.Format.{is_ascii, deadbolt, product_id, text}
use crk_io_board.Protocol.RoundTrip.{reply_ctx}
use crk_io_board.Protocol.Library.{Construct}
use crk_io_board.Protocol.Frames.{
  deadbolt_moved, product_id_written, manufacturing, io_status, error_list, get_io_status,
  get_errors as ask_errors, get_manufacturing, move_deadbolt, write_product_id, request_frame,
}
use crk_io_board.Protocol.Building.{build_request-frame}
use crk_io_board.Serial.State.{SerialModel}
use crk_io_board.Serial.Fetch.{Board}
use crk_io_board.Serial.Fetch.Contract.{IsReady}
use crk_io_board.Commands.{
  Service, DoorState, opened, closed, DeadboltState, unlocked, locked, DeadboltAction, open_bolt,
  close_bolt, door_value, deadbolt_value, send_command, get_status, set_deadbolt,
  set_manufacturing_number, get_product_info, get_errors, session, data_text, status_of,
  deadbolt_of, product_info_of, errors_of, action_value,
}
use crk_io_board.Commands.Delivery.{IsDelivered, received-reply}

states_read :
    (d : DoorState) (b : DeadboltState)
    → session (status_of (reply_ctx (io_status (door_value d) (deadbolt_value b)))) ≡ ok (d, b)
states_read opened unlocked = refl
states_read opened locked = refl
states_read closed unlocked = refl
states_read closed locked = refl

bolt_read :
    (unlock : Bool)
    → session (deadbolt_of (reply_ctx (deadbolt_moved unlock)))
      ≡ ok (if unlock then unlocked else locked)
bolt_read true = refl
bolt_read false = refl

abbrev deadbolt_frame : DeadboltAction → Bytes
deadbolt_frame open_bolt = request_frame (move_deadbolt true)
deadbolt_frame close_bolt = request_frame (move_deadbolt false)

deadbolt_built :
    (L : Construct) (action : DeadboltAction)
    → build_request L (codes "MC") (codes "DC") ((deadbolt, text (action_value action)) ∷ [])
      ≡ ok (deadbolt_frame action)
deadbolt_built L open_bolt = build_request-frame L (move_deadbolt true) tt
deadbolt_built L close_bolt = build_request-frame L (move_deadbolt false) tt

module _ (L : Construct) (config : SerialModel) (board : Board) (s : Service)
    (ready : IsReady config board s.serial) where
  -- The door and the deadbolt that the board reports are the ones that `get_status` returns.
  pub get_status-reply :
      (d : DoorState) (b : DeadboltState)
      → IsDelivered (io_status (door_value d) (deadbolt_value b)) board
      → (get_status L board s).1 ≡ ok (d, b)
  unfolding get_status send_command
  get_status-reply d b delivered =
      let r = io_status (door_value d) (deadbolt_value b) in
      rw (build_request-frame L get_io_status tt) (
        ap (λ x. session (x >>= status_of))
          (received-reply L r (request_frame get_io_status) 0 config board s ready delivered)
        ∙ states_read d b)

  -- The deadbolt state that the board echoes is the one that `set_deadbolt` returns, whatever was
  -- asked for.
  pub set_deadbolt-reply :
      (action : DeadboltAction) (unlock : Bool)
      → IsDelivered (deadbolt_moved unlock) board
      → (set_deadbolt L action board s).1 ≡ ok (if unlock then unlocked else locked)
  unfolding set_deadbolt send_command
  set_deadbolt-reply action unlock delivered = rw (deadbolt_built L action) (
      ap (λ x. session (x >>= deadbolt_of))
        (received-reply L (deadbolt_moved unlock) (deadbolt_frame action) 0 config board s ready
          delivered)
      ∙ bolt_read unlock)

  -- An ASCII product ID that fits its field is written, and the one that the board echoes is returned.
  pub set_manufacturing_number-reply :
      (number echo : Text)
      → is_ascii number ≡ true
      → length number ≤ 11
      → IsDelivered (product_id_written echo) board
      → (set_manufacturing_number L number board s).1 ≡ ok echo
  unfolding set_manufacturing_number send_command
  set_manufacturing_number-reply number echo ascii fits delivered =
      rw (build_request-frame L (write_product_id number) (ascii, fits)) (
        ap (λ x. session (x >>= data_text product_id))
          (received-reply L (product_id_written echo) (request_frame (write_product_id number)) 0
            config board s ready delivered))

  -- The product ID and the version that the board reports are the ones that `get_product_info` returns.
  pub get_product_info-reply :
      (p v : Text)
      → IsDelivered (manufacturing p v) board
      → (get_product_info L board s).1 ≡ ok (p, v)
  unfolding get_product_info send_command
  get_product_info-reply p v delivered = rw (build_request-frame L get_manufacturing tt) (
      ap (λ x. session (x >>= product_info_of))
        (received-reply L (manufacturing p v) (request_frame get_manufacturing) 0 config board s
          ready delivered))

  -- The error codes that the board lists are the ones that `get_errors` returns.
  pub get_errors-reply :
      (es : List Text) → IsDelivered (error_list es) board → (get_errors L board s).1 ≡ ok es
  unfolding get_errors send_command
  get_errors-reply es delivered = rw (build_request-frame L ask_errors tt) (
      ap (λ x. session (x >>= errors_of))
        (received-reply L (error_list es) (request_frame ask_errors) 0 config board s ready
          delivered))
