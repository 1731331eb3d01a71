-- ===== src/Commands/Throttle.antt =====
-- The throttle of `get_loadcells` in src/services/io_board/commands.py, and what `calibrate` does to it.
use crk_io_board.Base.{
  ℕ, ◌<◌, ◌≡◌, refl, sym, ◌∙◌, ap, none, some, List, [], Text, arith, ◌⊎◌, inl, inr,
}
use crk_io_board.Errors.{Result, ok, raise, Raised}
use crk_io_board.Protocol.Format.{Ctx, Fields}
use crk_io_board.Protocol.Library.{Construct}
use crk_io_board.Protocol.Frames.{weights, get_weights, request_frame}
use crk_io_board.Protocol.RoundTrip.{reply_ctx}
use crk_io_board.Protocol.Building.{build_request-frame}
use crk_io_board.Serial.State.{SerialModel, Serial, elapse}
use crk_io_board.Serial.Fetch.{Board}
use crk_io_board.Serial.Fetch.Contract.{IsReady}
use crk_io_board.Sanitizer.{sanitize_loadcells, reset_sanitizer}
use crk_io_board.Commands.{
  Service, CommandType, request, management_control, Subcommand, management, query,
  loadcell_weights, calibrate_loadcells, send_command, get_loadcells, calibrate, after_calibration,
  reset_loadcell_processing, stored, stored_from, loaded, cached_frame, loadcells_of, exchanged,
}
use crk_io_board.Commands.Delivery.{IsDelivered, received-reply}

-- The clock goes on by `d`.
abbrev pub later : ℕ → Service → Service
later d s = record s { serial = elapse d s.serial }

exchanged_serial_only :
    (L : Construct) (cmd sub : Text) (m : ℕ) (board : Board) (b : Result (List ℕ)) (s : Service)
    → (x : Serial) × ((exchanged L cmd sub m board b s).0 ≡ record s { serial = x })
exchanged_serial_only L cmd sub m board (raise e) s = (s.serial, refl)
exchanged_serial_only L cmd sub m board (ok b) s = (_, refl)

-- A command changes only the serial state.
serial_only :
    (L : Construct) (c : CommandType) (sc : Subcommand) (p : Fields) (board : Board) (s : Service)
    → (x : Serial) × ((send_command L c sc p board s).0 ≡ record s { serial = x })
unfolding send_command
serial_only L management_control (management k) p board s = exchanged_serial_only L _ _ _ board _ s
serial_only L management_control (query k) p board s = (s.serial, refl)
serial_only L request (management k) p board s = (s.serial, refl)
serial_only L request (query k) p board s = exchanged_serial_only L _ _ _ board _ s

-- What a frame that was stored leaves behind.
record IsStored (p : Service × Result (List Text)) (gap₀ : ℕ) (frame : List Text) : Type 0 where
  cache : p.0.loadcell_cache ≡ some frame
  stamp : p.0.loadcell_cache_ts ≡ p.0.serial.now
  gap : p.0.loadcell_min_gap ≡ gap₀

IsStored-values :
    (r : Result (List Text)) (s : Service) (frame : List Text)
    → (stored_from r s).1 ≡ ok frame
    → IsStored (stored_from r s) s.loadcell_min_gap frame
IsStored-values (raise e) s frame h = cc
IsStored-values (ok ws) s frame h = record { cache = ap some (cc h); stamp = refl; gap = refl }

stored-IsStored :
    (p : Service × Result Ctx) (frame : List Text)
    → (stored p).1 ≡ ok frame
    → IsStored (stored p) p.0.loadcell_min_gap frame
stored-IsStored (s, raise e) frame h = cc
stored-IsStored (s, ok c) frame h = IsStored-values (loadcells_of c) s frame h

-- A frame with a later clock, within the gap, is still served.
served :
    (gap d : ℕ) (s : Service) (frame : List Text)
    → 0 < gap
    → d < gap
    → s.loadcell_min_gap ≡ gap
    → s.loadcell_cache ≡ some frame
    → s.loadcell_cache_ts ≡ s.serial.now
    → cached_frame (later d s) ≡ some frame
served gap d s frame positive young g c t = ground (arith, positive, young, g, c, t)

cleared : (d : ℕ) (s : Service) → cached_frame (later d (reset_loadcell_processing s)) ≡ none
unfolding reset_loadcell_processing
cleared d s = ground arith

abbrev pub IsCalibrated : Service → Service × Result (Unit {0}) → Type 0
IsCalibrated s (s₁, r) =
    ((r ≡ ok tt)
      × ((d : ℕ) → cached_frame (later d s₁) ≡ none)
      × (s₁.sanitizer ≡ reset_sanitizer s.sanitizer))
    ⊎ (((e : Raised) × (r ≡ raise e))
        × (s₁.loadcell_cache ≡ s.loadcell_cache)
        × (s₁.sanitizer ≡ s.sanitizer))

after_calibration_lem :
    (x : Serial) (s : Service) (p : Service × Result Ctx)
    → p.0 ≡ record s { serial = x }
    → IsCalibrated s (after_calibration p)
unfolding reset_loadcell_processing
after_calibration_lem x s (s', ok c) e =
    inl (refl, (λ d. cleared d s'), ap (λ y. reset_sanitizer y.sanitizer) e)
after_calibration_lem x s (s', raise r) e =
    inr ((_, refl), ap (λ y. y.loadcell_cache) e, ap (λ y. y.sanitizer) e)

module _ (L : Construct) (board : Board) (s : Service) where
  abbrev pub asked : Service × Result Ctx
  asked = send_command L request (query loadcell_weights) [] board s

  from_wire : cached_frame s ≡ none → get_loadcells L board s ≡ stored asked
  unfolding get_loadcells
  from_wire h = ap (λ o. loaded L o board s) h

  from_cache :
      (frame : List Text) → cached_frame s ≡ some frame → get_loadcells L board s ≡ (s, ok frame)
  unfolding get_loadcells
  from_cache frame h = ap (λ o. loaded L o board s) h

  gap_kept : asked.0.loadcell_min_gap ≡ s.loadcell_min_gap
  gap_kept =
      ap (λ x. x.loadcell_min_gap) (serial_only L request (query loadcell_weights) [] board s).1

weights_answered :
    (L : Construct) (board : Board) (s : Service) (config : SerialModel) (ws : List Text)
    → IsReady config board s.serial
    → IsDelivered (weights ws) board
    → (asked L board s).1 ≡ ok (reply_ctx (weights ws))
unfolding send_command
weights_answered L board s config ws ready delivered = rw (build_request-frame L get_weights tt) (
    received-reply L (weights ws) (request_frame get_weights) s.loadcell_min_gap config board s
      ready delivered)

stored-answer :
    (p : Service × Result Ctx) (ws : List Text)
    → p.1 ≡ ok (reply_ctx (weights ws))
    → (stored p).1 ≡ ok (sanitize_loadcells ws p.0.serial.now p.0.sanitizer).1
stored-answer (s, r) ws h = ap (λ x. (stored (s, x)).1) h

module _ (L : Construct) (board : Board) (s : Service) where
  -- After a call that read a frame from the board, every call within the gap returns the same frame
  -- and changes nothing at all: nothing is sent.
  pub get_loadcells_throttled :
      (frame : List Text) (d : ℕ) (board' : Board)
      → cached_frame s ≡ none
      → (get_loadcells L board s).1 ≡ ok frame
      → 0 < s.loadcell_min_gap
      → d < s.loadcell_min_gap
      → let s₁ = later d (get_loadcells L board s).0 in get_loadcells L board' s₁ ≡ (s₁, ok frame)
  get_loadcells_throttled frame d board' none_cached returned positive young =
      let w = from_wire L board s none_cached in
      let i = stored-IsStored (asked L board s) frame (sym (ap (λ p. p.1) w) ∙ returned) in
      let s₁ : Service = (get_loadcells L board s).0 in
      let e : s₁ ≡ (stored (asked L board s)).0 = ap (λ p. p.0) w in
      let c : cached_frame (later d s₁) ≡ some frame =
        ap (λ x. cached_frame (later d x)) e
        ∙ served s.loadcell_min_gap d (stored (asked L board s)).0 frame positive young
            (i.gap ∙ gap_kept L board s) i.cache i.stamp in
      from_cache L board' (later d s₁) frame c

  -- A calibration that the board confirms empties the cache and starts the sanitizer afresh, so the
  -- next frame is read from the board; one that fails leaves both as they were.
  pub calibrate_clears : IsCalibrated s (calibrate L board s)
  unfolding calibrate
  calibrate_clears =
      let (x, e) = serial_only L management_control (management calibrate_loadcells) [] board s in
      after_calibration_lem x s _ e

  -- With nothing in the cache to serve, the frame that the board reports goes through the sanitizer,
  -- as of the time when it has been read, and its output is what `get_loadcells` returns.
  pub get_loadcells-reply :
      (config : SerialModel) (ws : List Text)
      → IsReady config board s.serial
      → IsDelivered (weights ws) board
      → cached_frame s ≡ none
      → (get_loadcells L board s).1
        ≡ ok (sanitize_loadcells ws (asked L board s).0.serial.now s.sanitizer).1
  get_loadcells-reply config ws ready delivered none_cached =
      let (x, e) = serial_only L request (query loadcell_weights) [] board s in
      ap (λ p. p.1) (from_wire L board s none_cached)
      ∙ stored-answer (asked L board s) ws (weights_answered L board s config ws ready delivered)
      ∙ ap (λ y. ok (sanitize_loadcells ws (asked L board s).0.serial.now y.sanitizer).1) e
