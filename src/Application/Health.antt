-- ===== src/Application/Health.antt =====
-- The verdict on the door that the health check of src/api/v1/routers/machine.py gets from
-- src/services/error_state_mgmt.py, in a run of the application of src/main.py.
use mathlib.Core.Path.{subst}
use crk_io_board.Base.{
  ℕ, zero, suc, ◌≡◌, refl, sym, ap, ◌∙◌, arith, Bool, not, Option, none, some, List, [], ◌∷◌, ◌++◌,
  ◌||◌, if◌then◌else◌, length, replicate,
}
use crk_io_board.Polling.{Item, source_result, source_error, get_nowait, next_item}
use crk_io_board.Commands.{DeadboltAction}
use crk_io_board.ErrorState.{
  ErrorState, door_error, deadbolt_error, is_overdue, observe, set_deadbolt_action, is_closed,
  wanted_state,
}
use crk_io_board.ErrorState.Verdicts.{Observation, observe_all, shows, deadbolt_error-history}
use crk_io_board.Stream.Session.{IoStatus}
use crk_io_board.Application.{
  Application, Step, error_state_pass, deadbolt_controlled, step, steps, watch_item,
  new_application, startup,
}
use crk_io_board.Application.Background.{Tasks}
use crk_io_board.Application.Constants.{steps-constants}
use crk_io_board.Application.Soundness.{IsSound}
use crk_io_board.Application.Runs.{step-IsSound, steps-IsSound, started-IsSound, run}
use crk_io_board.Application.Watching.{
  status_items, waiting, left_items, outlook, steps-outlook, IsView, IsSteady, IsSteadyAt,
  control_of,
}

watch-waiting :
    (i : Item IoStatus) (is : List (Item IoStatus)) (b : Bool) (s : Application)
    → waiting (watch_item (next_item (i ∷ is) b) s) ≡ is
watch-waiting i is b s = left_items _ s

pass-waiting :
    (i : Item IoStatus) (is : List (Item IoStatus)) (s : Application)
    → waiting s ≡ i ∷ is
    → waiting (step error_state_pass s) ≡ is
unfolding step get_nowait
pass-waiting i is s e =
    let b = (s.io_status.queues s.error_queue).shut_down in
    ap (λ l. waiting (watch_item (next_item l b) s)) e ∙ watch-waiting i is b s

-- A pass for every item that waits leaves none waiting.
abbrev pub passes : ℕ → List Step
passes n = replicate n error_state_pass

drained :
    (n : ℕ) (is : List (Item IoStatus)) (s : Application)
    → waiting s ≡ is
    → length is ≡ n
    → waiting (steps (passes n) s) ≡ []
drained zero [] s e l = e
drained zero (i ∷ is) s e l = absurd (omega arith)
drained (suc n) [] s e l = absurd (omega arith)
drained (suc n) (i ∷ is) s e l =
    drained n is (step error_state_pass s) (pass-waiting i is s e) (omega arith)

unpolled : (n : ℕ) → status_items (passes n) ≡ []
unpolled zero = refl
unpolled (suc n) = unpolled n

module _ {ℓ} {B : Type ℓ} (view : List (Item IoStatus) → ErrorState → B) where
  IsSteady-passes : (n : ℕ) → IsSteady view (passes n)
  IsSteady-passes zero = tt
  IsSteady-passes (suc n) = (tt, IsSteady-passes n)

  caught_up :
      (reads : IsView view) (xs : List Step) (s : Application)
      → IsSteady view xs
      → IsSound s
      → view [] (steps (passes (length (waiting (steps xs s)))) (steps xs s)).error_state
        ≡ view (waiting s ++ status_items xs) s.error_state
  caught_up reads xs s steady i =
      let s₁ = steps xs s in
      let n = length (waiting s₁) in
      let s₂ = steps (passes n) s₁ in
      sym (ap (λ l. view (l ++ []) s₂.error_state) (drained n (waiting s₁) s₁ refl refl))
      ∙ steps-outlook view reads (passes n) s₁ (IsSteady-passes n) (steps-IsSound xs s i)
      ∙ ap (outlook view s₁) (unpolled n)
      ∙ steps-outlook view reads xs s steady i

-- The time of the last poll that found the door closed; `t` when there is none.
abbrev pub last_closed : List (Item IoStatus) → Option ℕ → Option ℕ
last_closed [] t = t
last_closed (source_result (door, bolt) now ∷ is) t =
    last_closed is (if is_closed door then some now else t)
last_closed (source_error e now ∷ is) t = last_closed is t

abbrev closed_time : List (Item IoStatus) → ErrorState → Option ℕ
closed_time is e = last_closed is e.door_last_closed_time

closed_time-IsView : IsView closed_time
unfolding observe
closed_time-IsView (source_result (door, bolt) now) is e = refl
closed_time-IsView (source_error x now) is e = refl

closed_time-IsSteadyAt : (o : Option (DeadboltAction × ℕ)) → IsSteadyAt closed_time o
unfolding set_deadbolt_action
closed_time-IsSteadyAt none = tt
closed_time-IsSteadyAt (some (action, time)) = λ is e. refl

closed_time-IsSteady : (xs : List Step) → IsSteady closed_time xs
closed_time-IsSteady [] = tt
closed_time-IsSteady (x ∷ xs) = (closed_time-IsSteadyAt (control_of x), closed_time-IsSteady xs)

-- Whatever has happened since the start-up, once the tracking has caught up, after as many passes as
-- items were waiting, the door counts as all right exactly when the limit has not passed since the
-- last poll of the IO status that found it closed (a time of 0, or no such poll, counts as no time).
pub run-door_error :
    (tasks : Tasks) (door_limit deadbolt_limit : ℕ) (xs : List Step) (time : ℕ)
    → let s = run tasks door_limit deadbolt_limit xs in
      door_error time (steps (passes (length (waiting s))) s).error_state
      ≡ not (is_overdue door_limit time (last_closed (status_items xs) none))
unfolding door_error startup new_application
run-door_error tasks door_limit deadbolt_limit xs time =
    let s₀ = startup (new_application tasks door_limit deadbolt_limit) in
    let s = steps xs s₀ in
    let n = length (waiting s) in
    ap (λ t. not (is_overdue (steps (passes n) s).error_state.door_open_error time t))
      (caught_up closed_time closed_time-IsView xs s₀ (closed_time-IsSteady xs)
        (started-IsSound tasks door_limit deadbolt_limit))
    ∙ ap (λ l. not (is_overdue l.0 time (last_closed (status_items xs) none)))
        (steps-constants (passes n) s ∙ steps-constants xs s₀)

-- The observations among the items.
abbrev pub observations : List (Item IoStatus) → List Observation
observations [] = []
observations (source_result (door, bolt) now ∷ is) =
    record { door = door; bolt = bolt; timestamp = now } ∷ observations is
observations (source_error e now ∷ is) = observations is

abbrev pub Uncontrolled : List Step → Type 0
Uncontrolled [] = Unit
Uncontrolled (x ∷ xs) = (control_of x ≡ none) × Uncontrolled xs

IsSteady-Uncontrolled {ℓ} :
    {B : Type ℓ} (view : List (Item IoStatus) → ErrorState → B) (xs : List Step)
    → Uncontrolled xs
    → IsSteady view xs
IsSteady-Uncontrolled view [] h = tt
IsSteady-Uncontrolled view (x ∷ xs) (h, hs) =
    (subst (IsSteadyAt view) (sym h) tt, IsSteady-Uncontrolled view xs hs)

module _ (time : ℕ) where
  bolt_verdict : List (Item IoStatus) → ErrorState → Bool
  bolt_verdict is e = deadbolt_error time (observe_all (observations is) e)

  bolt_verdict-IsView : IsView bolt_verdict
  unfolding bolt_verdict observe
  bolt_verdict-IsView (source_result (door, bolt) now) is e = refl
  bolt_verdict-IsView (source_error x now) is e = refl

-- After a control of the deadbolt at `t`, and steps without another, once the tracking has caught up,
-- the deadbolt counts as all right exactly when a poll found it in the state asked for, be it one
-- that was still waiting at the control, or the limit has not passed since `t` (a `t` of 0 counts as
-- no time).
pub run-deadbolt_error :
    (tasks : Tasks) (door_limit deadbolt_limit : ℕ) (xs ys : List Step) (action : DeadboltAction)
    (t time : ℕ)
    → Uncontrolled ys
    → let s = run tasks door_limit deadbolt_limit xs in
      let s' = steps ys (step (deadbolt_controlled action t) s) in
      deadbolt_error time (steps (passes (length (waiting s'))) s').error_state ≡ (
        shows (wanted_state action) (observations (waiting s ++ status_items ys))
        || not (is_overdue deadbolt_limit time (some t)))
unfolding step set_deadbolt_action bolt_verdict startup new_application
run-deadbolt_error tasks door_limit deadbolt_limit xs ys action t time h =
    let s₀ = startup (new_application tasks door_limit deadbolt_limit) in
    let s = steps xs s₀ in
    let asked = step (deadbolt_controlled action t) s in
    let seen = observations (waiting s ++ status_items ys) in
    caught_up (bolt_verdict time) (bolt_verdict-IsView time) ys asked
      (IsSteady-Uncontrolled (bolt_verdict time) ys h)
      (step-IsSound (deadbolt_controlled action t) s
        (steps-IsSound xs s₀ (started-IsSound tasks door_limit deadbolt_limit)))
    ∙ deadbolt_error-history action t time seen s.error_state
    ∙ ap (λ l. shows (wanted_state action) seen || not (is_overdue l.1 time (some t)))
        (steps-constants xs s₀)
