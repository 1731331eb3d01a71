-- ===== src/Api/Management.antt =====
-- What the handlers of src/api/v1/routers/management.py answer for what the board delivers.
use crk_io_board.Base.{
  ◌≡◌, ◌⊎◌, refl, ap, ◌∙◌, true, List, [], ◌∷◌, Text, length, le→leb, arith, Bool-cases, inl, inr,
  ==_iff,
}
use crk_io_board.Protocol.Library.{Construct}
use crk_io_board.Protocol.Format.{is_ascii}
use crk_io_board.Protocol.Frames.{AllFields, manufacturing, error_list, product_id_written}
use crk_io_board.Serial.State.{SerialModel}
use crk_io_board.Serial.Fetch.{Board}
use crk_io_board.Serial.Fetch.Contract.{IsReady}
use crk_io_board.Commands.{Service, set_manufacturing_number}
use crk_io_board.Commands.Delivery.{IsDelivered}
use crk_io_board.Commands.Replies.{
  get_product_info-reply, get_errors-reply, set_manufacturing_number-reply,
}
use crk_io_board.Api.ProductId.{IsProductId, valid_request_iff}
use crk_io_board.Api.{
  Body, manufacturing_number, sw_version, product_info, error_items, request_rejected, Response,
  replied, respond, outcome, manufacturing_response, all_of_four, error_list_response,
  valid_request, get_manufacturing_number, post_manufacturing_number, get_software_version,
  product_info_endpoint, errors_endpoint, info_number, info_version, info_both,
}

abbrev pub found : Body → Response
found b = record { status = 200; body = b }

-- A product ID of eleven characters passes the response model.
number_fits :
    (p : Text) → length p ≡ 11 → manufacturing_response p ≡ replied (manufacturing_number p)
unfolding manufacturing_response
number_fits p h = rw ((==_iff (length p) 11).1 h) refl

all_fit : (es : List Text) → AllFields 4 es → all_of_four es ≡ true
all_fit [] h = refl
all_fit (e ∷ es) (f, h) = rw ((==_iff (length e) 4).1 f.width, all_fit es h) refl

errors_fit :
    (es : List Text)
    → length es ≡ 4
    → AllFields 4 es
    → error_list_response es ≡ replied (error_items es)
unfolding error_list_response
errors_fit es l h = rw (all_fit es h, le→leb (length es) 4 (omega arith)) refl

module _ (L : Construct) (config : SerialModel) (board : Board) (s : Service)
    (ready : IsReady config board s.serial) where
  -- On a configured port that opens, when the board delivers its manufacturing data, the three
  -- endpoints that ask for it answer 200 with the product ID, the version, and both.
  pub product_endpoints-reply :
      (p v : Text)
      → IsDelivered (manufacturing p v) board
      → ((get_manufacturing_number L board s).1 ≡ found (manufacturing_number p))
        × ((get_software_version L board s).1 ≡ found (sw_version v))
        × ((product_info_endpoint L board s).1 ≡ found (product_info p v))
  unfolding get_manufacturing_number get_software_version product_info_endpoint respond
  product_endpoints-reply p v delivered =
      let e = get_product_info-reply L config board s ready p v delivered in
      (
        ap (λ r. respond (outcome info_number r)) e
            ∙ ap respond (number_fits p delivered.well_formed.0.width),
        ap (λ r. respond (outcome info_version r)) e,
        ap (λ r. respond (outcome info_both r)) e,
      )

  -- When it delivers its error codes, /errors answers 200 with them.
  pub errors_endpoint-reply :
      (es : List Text)
      → IsDelivered (error_list es) board
      → (errors_endpoint L board s).1 ≡ found (error_items es)
  unfolding errors_endpoint respond
  errors_endpoint-reply es delivered =
      ap (λ r. respond (outcome error_list_response r))
        (get_errors-reply L config board s ready es delivered)
      ∙ ap respond (errors_fit es delivered.well_formed.0 delivered.well_formed.1)

module _ (L : Construct) (config : SerialModel) (board : Board) (s : Service) where
  pub post_manufacturing_number_lem :
      (number echo : Text)
      → is_ascii number ≡ true
      → (IsProductId number → IsReady config board s.serial)
      → (IsProductId number → IsDelivered (product_id_written echo) board)
      → (IsProductId number
          × (post_manufacturing_number L number board s
              ≡ ((set_manufacturing_number L number board s).0, found (manufacturing_number echo))))
        ⊎ ((¬ IsProductId number)
            × (post_manufacturing_number L number board s
                ≡ (s, record { status = 422; body = request_rejected })))
  unfolding post_manufacturing_number respond
  post_manufacturing_number_lem number echo ascii ready delivered =
      elim (Bool-cases (valid_request number)) [
        | inl e ↦
            let p = (valid_request_iff number).0 e in
            inl (
              p,
              rw e (
                  ap (λ x. ((set_manufacturing_number L number board s).0, x))
                    (ap (λ r. respond (outcome manufacturing_response r))
                        (set_manufacturing_number-reply L config board s (ready p) number echo ascii
                          (omega (arith, p.width)) (delivered p))
                      ∙ ap respond (number_fits echo (delivered p).well_formed.width))),
            )
        | inr e ↦ inr (λ p. absurd (cc (e, (valid_request_iff number).1 p)), rw e refl)
      ]
