-- ===== src/Api/Tests.antt =====
-- The theorems on src/api/v1/routers/management.py with a board that answers at once.
use crk_io_board.Base.{◌≡◌, ◌⊎◌, replicate, refl, inr, true, none, Text, codes, arith}
use crk_io_board.Protocol.Frames.{Reply, IsField, product_id_written, manufacturing, reply_frame}
use crk_io_board.Protocol.Sample.{library}
use crk_io_board.Serial.State.{opened as port_opened}
use crk_io_board.Serial.Sample.{drain_error-exchange_with, settings, ready_state, exchange_with}
use crk_io_board.Serial.Fetch.{Board}
use crk_io_board.Serial.Fetch.Contract.{IsReady}
use crk_io_board.Commands.{Service, set_manufacturing_number}
use crk_io_board.Commands.Delivery.{IsDelivered}
use crk_io_board.Api.{
  manufacturing_number, sw_version, product_info, request_rejected, valid_request,
  get_manufacturing_number, post_manufacturing_number, get_software_version, product_info_endpoint,
}
use crk_io_board.Api.ProductId.{IsProductId}
use crk_io_board.Api.Management.{found, product_endpoints-reply, post_manufacturing_number_lem}

abbrev service : Service
service = record {
  serial = ready_state;
  sanitizer = none;
  loadcell_min_gap = 0;
  loadcell_cache = none;
  loadcell_cache_ts = 0;
}

abbrev answering : Reply → Board
answering r = record { opening = port_opened; exchange = λ n. exchange_with (reply_frame r) }

ready : (r : Reply) → IsReady settings (answering r) service.serial
ready r = record { set = refl; tries = omega arith; opens = inr refl }

abbrev number : Text
number = codes "P1234567890"

number-IsField : IsField 11 number
number-IsField = record { width = refl; ascii = refl; unpadded = refl }

info-IsDelivered :
    IsDelivered (manufacturing number (codes "07")) (answering (manufacturing number (codes "07")))
info-IsDelivered = record {
  well_formed = (number-IsField, record { width = refl; ascii = refl; unpadded = refl });
  plain = ground arith;
  undisturbed = drain_error-exchange_with _;
  arrives = refl;
}

product_endpoints-reply_example :
    let board = answering (manufacturing number (codes "07")) in
    ((get_manufacturing_number library board service).1 ≡ found (manufacturing_number number))
    × ((get_software_version library board service).1 ≡ found (sw_version (codes "07")))
    × ((product_info_endpoint library board service).1 ≡ found (product_info number (codes "07")))
product_endpoints-reply_example =
    product_endpoints-reply library settings (answering (manufacturing number (codes "07"))) service
      (ready (manufacturing number (codes "07"))) number (codes "07") info-IsDelivered

number-IsDelivered : IsDelivered (product_id_written number) (answering (product_id_written number))
number-IsDelivered = record {
  well_formed = number-IsField;
  plain = ground arith;
  undisturbed = drain_error-exchange_with _;
  arrives = refl;
}

post_manufacturing_number_lem_example :
    let board = answering (product_id_written number) in
    (IsProductId number
      × (post_manufacturing_number library number board service ≡ (
        (set_manufacturing_number library number board service).0,
        found (manufacturing_number number),
      )))
    ⊎ ((¬ IsProductId number)
        × (post_manufacturing_number library number board service
            ≡ (service, record { status = 422; body = request_rejected })))
post_manufacturing_number_lem_example =
    post_manufacturing_number_lem library settings (answering (product_id_written number)) service
      number number refl (λ p. ready (product_id_written number)) (λ p. number-IsDelivered)

-- Eleven spaces are no product ID, whatever the port and the board.
spaces_refused :
    (board : Board)
    → post_manufacturing_number library (replicate 11 32) board service
      ≡ (service, record { status = 422; body = request_rejected })
unfolding post_manufacturing_number valid_request
spaces_refused board = refl

number_valid : valid_request number ≡ true
unfolding valid_request
number_valid = refl
