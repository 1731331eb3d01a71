-- ===== src/ErrorState/Verdicts.antt =====
-- The two verdicts of src/services/error_state_mgmt.py over whole histories of observations.
use crk_io_board.Base.{
  ℕ, ◌≡◌, refl, ◌∙◌, ap, Bool, true, false, ◌||◌, not, none, some, List, [], ◌∷◌, ◌++◌, arith,
  if◌then◌else◌, Bool-cases, inl, inr,
}
use crk_io_board.Commands.{DoorState, opened, closed, DeadboltState, DeadboltAction}
use crk_io_board.ErrorState.{
  ErrorState, observe, door_error, deadbolt_error, set_deadbolt_action, wanted_state, is_overdue,
  is_late, is_closed, same_state, is_reached,
}

pub record Observation : Type 0 where
  pub door : DoorState
  pub bolt : DeadboltState
  pub timestamp : ℕ

abbrev pub observe_all : List Observation → ErrorState → ErrorState
observe_all [] s = s
observe_all (o ∷ os) s = observe_all os (observe o.door o.bolt o.timestamp s)

-- Some observation shows the deadbolt in the state.
abbrev pub shows : DeadboltState → List Observation → Bool
shows state [] = false
shows state (o ∷ os) = same_state o.bolt state || shows state os

abbrev pub AllOpen : List Observation → Type 0
AllOpen [] = Unit
AllOpen (o ∷ os) = (o.door ≡ opened) × AllOpen os

-- A settled deadbolt stays settled.
settled :
    (os : List Observation) (s : ErrorState)
    → s.deadbolt_engaged_state ≡ none
    → (observe_all os s).deadbolt_engaged_state ≡ none
unfolding observe
settled [] s h = h
settled (o ∷ os) s h = settled os (observe o.door o.bolt o.timestamp s) (ground (arith, h))

verdict_settled :
    (time : ℕ) (s : ErrorState) → s.deadbolt_engaged_state ≡ none → deadbolt_error time s ≡ true
unfolding deadbolt_error
verdict_settled time s h =
    ap (λ o. not (is_late s.deadbolt_apply_timeout time s.deadbolt_engaged_time o)) h

-- The deadbolt's state is wanted since `t`, with the limit.
record IsWaiting (limit t : ℕ) (state : DeadboltState) (s : ErrorState) : Type 0 where
  limited : s.deadbolt_apply_timeout ≡ limit
  since : s.deadbolt_engaged_time ≡ some t
  wanted : s.deadbolt_engaged_state ≡ some state

waiting :
    (limit t : ℕ) (state : DeadboltState) (time : ℕ) (os : List Observation) (s : ErrorState)
    → IsWaiting limit t state s
    → deadbolt_error time (observe_all os s)
      ≡ (shows state os || not (is_overdue limit time (some t)))
unfolding observe deadbolt_error
waiting limit t state time [] s w =
    ap (λ o. not (is_late s.deadbolt_apply_timeout time s.deadbolt_engaged_time o)) w.wanted
    ∙ ap (λ e. not (is_overdue s.deadbolt_apply_timeout time e)) w.since
    ∙ ap (λ l. not (is_overdue l time (some t))) w.limited
waiting limit t state time (o ∷ os) s w =
    let s' : ErrorState = observe o.door o.bolt o.timestamp s in
    elim (Bool-cases (same_state o.bolt state)) [
      | inl e ↦
          let gone : s'.deadbolt_engaged_state ≡ none =
            ap (λ x. if is_reached x o.bolt then none else x) w.wanted ∙ rw e refl in
          rw e (verdict_settled time (observe_all os s') (settled os s' gone))
      | inr e ↦ rw e (
          waiting limit t state time os s' (record {
            limited = w.limited;
            since =
                ap (λ x. if is_reached x o.bolt then none else s.deadbolt_engaged_time) w.wanted
                ∙ rw e w.since;
            wanted = ap (λ x. if is_reached x o.bolt then none else x) w.wanted ∙ rw e refl;
          }))
    ]

-- After a control request at `t` and any observations, the deadbolt counts as all right exactly when
-- one of them showed it in the state asked for, or the limit has not passed since `t` (a `t` of 0
-- counts as no time).
pub deadbolt_error-history :
    (action : DeadboltAction) (t time : ℕ) (os : List Observation) (s : ErrorState)
    → deadbolt_error time (observe_all os (set_deadbolt_action action t s))
      ≡ (shows (wanted_state action) os || not (is_overdue s.deadbolt_apply_timeout time (some t)))
unfolding set_deadbolt_action
deadbolt_error-history action t time os s =
    waiting s.deadbolt_apply_timeout t (wanted_state action) time os
      (set_deadbolt_action action t s) (record { limited = refl; since = refl; wanted = refl })

door_kept :
    (os : List Observation) (s : ErrorState)
    → AllOpen os
    → (observe_all os s).door_last_closed_time ≡ s.door_last_closed_time
unfolding observe
door_kept [] s h = refl
door_kept (o ∷ os) s (open_now, h) =
    door_kept os (observe o.door o.bolt o.timestamp s) h
    ∙ ap (λ d. if is_closed d then some o.timestamp else s.door_last_closed_time) open_now

limit_kept :
    (os : List Observation) (s : ErrorState)
    → (observe_all os s).door_open_error ≡ s.door_open_error
unfolding observe
limit_kept [] s = refl
limit_kept (o ∷ os) s = limit_kept os (observe o.door o.bolt o.timestamp s)

observe_all-append :
    (xs ys : List Observation) (s : ErrorState)
    → observe_all (xs ++ ys) s ≡ observe_all ys (observe_all xs s)
observe_all-append [] ys s = refl
observe_all-append (x ∷ xs) ys s = observe_all-append xs ys (observe x.door x.bolt x.timestamp s)

-- Over any observations, the door counts as all right exactly when the limit has not passed since
-- the last one that showed it closed, at `t` (a `t` of 0 counts as no time).
pub door_error-history :
    (xs ys : List Observation) (bolt : DeadboltState) (t time : ℕ) (s : ErrorState)
    → AllOpen ys
    → door_error time
        (observe_all (xs ++ record { door = closed; bolt = bolt; timestamp = t } ∷ ys) s)
      ≡ not (is_overdue s.door_open_error time (some t))
unfolding door_error observe
door_error-history xs ys bolt t time s h =
    let last : Observation = record { door = closed; bolt = bolt; timestamp = t } in
    let before : ErrorState = observe_all xs s in
    ap (door_error time) (observe_all-append xs (last ∷ ys) s)
    ∙ ap
        (λ o.
          not (is_overdue (observe_all ys (observe closed bolt t before)).door_open_error time o))
        (door_kept ys (observe closed bolt t before) h)
    ∙ ap (λ l. not (is_overdue l time (some t)))
        (limit_kept ys (observe closed bolt t before) ∙ limit_kept xs s)
