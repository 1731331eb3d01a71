-- ===== src/Commands/Tests.antt =====
-- The theorems on src/services/io_board/commands.py with a board that answers at once.
use crk_io_board.Base.{◌≡◌, refl, inr, true, none, List, [], ◌∷◌, Text, codes, arith, replicate}
use crk_io_board.Errors.{ok}
use crk_io_board.Protocol.Frames.{
  Reply, IsField, deadbolt_moved, product_id_written, manufacturing, weights, io_status, error_list,
  reply_frame,
}
use crk_io_board.Protocol.Sample.{library}
use crk_io_board.Serial.State.{opened as port_opened}
use crk_io_board.Serial.Sample.{drain_error-exchange_with, settings, ready_state, exchange_with}
use crk_io_board.Serial.Fetch.{Board}
use crk_io_board.Serial.Fetch.Contract.{IsReady}
use crk_io_board.Sanitizer.{sanitize_loadcells}
use crk_io_board.Commands.{
  Service, closed, locked, unlocked, open_bolt, get_status, set_deadbolt, set_manufacturing_number,
  get_product_info, get_errors, get_loadcells, calibrate,
}
use crk_io_board.Commands.Delivery.{IsDelivered}
use crk_io_board.Commands.Replies.{
  get_status-reply, set_deadbolt-reply, set_manufacturing_number-reply, get_product_info-reply,
  get_errors-reply,
}
use crk_io_board.Commands.Throttle.{
  later, asked, IsCalibrated, get_loadcells_throttled, get_loadcells-reply, calibrate_clears,
}

abbrev service : Service
service = record {
  serial = ready_state;
  sanitizer = none;
  loadcell_min_gap = 750000;
  loadcell_cache = none;
  loadcell_cache_ts = 0;
}

-- A board that always answers with the reply.
abbrev answering : Reply → Board
answering r = record { opening = port_opened; exchange = λ n. exchange_with (reply_frame r) }

ready : (r : Reply) → IsReady settings (answering r) service.serial
ready r = record { set = refl; tries = omega arith; opens = inr refl }

status-IsDelivered :
    IsDelivered
      (io_status (codes "CLOSED") (codes "LOCKED"))
      (answering (io_status (codes "CLOSED") (codes "LOCKED")))
status-IsDelivered = record {
  well_formed = (
    record { width = refl; ascii = refl; unpadded = refl },
    record { width = refl; ascii = refl; unpadded = refl },
  );
  plain = ground arith;
  undisturbed = drain_error-exchange_with _;
  arrives = refl;
}

get_status-reply_test :
    (get_status library (answering (io_status (codes "CLOSED") (codes "LOCKED"))) service).1
    ≡ ok (closed, locked)
get_status-reply_test =
    get_status-reply library settings (answering (io_status (codes "CLOSED") (codes "LOCKED")))
      service (ready (io_status (codes "CLOSED") (codes "LOCKED"))) closed locked status-IsDelivered

bolt-IsDelivered : IsDelivered (deadbolt_moved true) (answering (deadbolt_moved true))
bolt-IsDelivered = record {
  well_formed = tt;
  plain = ground arith;
  undisturbed = drain_error-exchange_with _;
  arrives = refl;
}

set_deadbolt-reply_test :
    (set_deadbolt library open_bolt (answering (deadbolt_moved true)) service).1 ≡ ok unlocked
set_deadbolt-reply_test =
    set_deadbolt-reply library settings (answering (deadbolt_moved true)) service
      (ready (deadbolt_moved true)) open_bolt true bolt-IsDelivered

abbrev number : Text
number = codes "P1234567890"

number-IsField : IsField 11 number
number-IsField = record { width = refl; ascii = refl; unpadded = refl }

number-IsDelivered : IsDelivered (product_id_written number) (answering (product_id_written number))
number-IsDelivered = record {
  well_formed = number-IsField;
  plain = ground arith;
  undisturbed = drain_error-exchange_with _;
  arrives = refl;
}

set_manufacturing_number-reply_test :
    (set_manufacturing_number library number (answering (product_id_written number)) service).1
    ≡ ok number
set_manufacturing_number-reply_test =
    set_manufacturing_number-reply library settings (answering (product_id_written number)) service
      (ready (product_id_written number)) number number refl (omega arith) number-IsDelivered

info-IsDelivered :
    IsDelivered (manufacturing number (codes "07")) (answering (manufacturing number (codes "07")))
info-IsDelivered = record {
  well_formed = (number-IsField, record { width = refl; ascii = refl; unpadded = refl });
  plain = ground arith;
  undisturbed = drain_error-exchange_with _;
  arrives = refl;
}

get_product_info-reply_test :
    (get_product_info library (answering (manufacturing number (codes "07"))) service).1
    ≡ ok (number, codes "07")
get_product_info-reply_test =
    get_product_info-reply library settings (answering (manufacturing number (codes "07"))) service
      (ready (manufacturing number (codes "07"))) number (codes "07") info-IsDelivered

abbrev slots : List Text
slots = codes "DB01" ∷ codes "LC03" ∷ codes "0000" ∷ codes "0000" ∷ []

slot : IsField 4 (codes "0000")
slot = record { width = refl; ascii = refl; unpadded = refl }

slots-IsDelivered : IsDelivered (error_list slots) (answering (error_list slots))
slots-IsDelivered = record {
  well_formed = (
    refl,
    (
      record { width = refl; ascii = refl; unpadded = refl },
      (record { width = refl; ascii = refl; unpadded = refl }, (slot, (slot, tt))),
    ),
  );
  plain = ground arith;
  undisturbed = drain_error-exchange_with _;
  arrives = refl;
}

get_errors-reply_test : (get_errors library (answering (error_list slots)) service).1 ≡ ok slots
get_errors-reply_test =
    get_errors-reply library settings (answering (error_list slots)) service
      (ready (error_list slots)) slots slots-IsDelivered

abbrev frame : List Text
frame = replicate 10 (codes "+00120")

cell : IsField 6 (codes "+00120")
cell = record { width = refl; ascii = refl; unpadded = refl }

frame-IsDelivered : IsDelivered (weights frame) (answering (weights frame))
frame-IsDelivered = record {
  well_formed =
      (refl, (cell, (cell, (cell, (cell, (cell, (cell, (cell, (cell, (cell, (cell, tt)))))))))));
  plain = ground arith;
  undisturbed = drain_error-exchange_with _;
  arrives = refl;
}

get_loadcells-reply_example :
    (get_loadcells library (answering (weights frame)) service).1
    ≡ ok
        (sanitize_loadcells frame
          (asked library (answering (weights frame)) service).0.serial.now
          none).1
get_loadcells-reply_example =
    get_loadcells-reply library (answering (weights frame)) service settings frame
      (ready (weights frame)) frame-IsDelivered refl

plain_frame : (get_loadcells library (answering (weights frame)) service).1 ≡ ok frame
unfolding sanitize_loadcells
plain_frame =
    get_loadcells-reply library (answering (weights frame)) service settings frame
      (ready (weights frame)) frame-IsDelivered refl

get_loadcells_throttled_example :
    let s₁ = later 700000 (get_loadcells library (answering (weights frame)) service).0 in
    get_loadcells library (answering (weights [])) s₁ ≡ (s₁, ok frame)
get_loadcells_throttled_example =
    get_loadcells_throttled library (answering (weights frame)) service frame 700000
      (answering (weights [])) refl plain_frame (omega arith) (omega arith)

calibrate_clears_example :
    IsCalibrated service (calibrate library (answering (deadbolt_moved true)) service)
calibrate_clears_example = calibrate_clears library (answering (deadbolt_moved true)) service
