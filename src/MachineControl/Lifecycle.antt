-- ===== src/MachineControl/Lifecycle.antt =====
-- The way of the machine control through its states when everything that it asks succeeds.
mod Phases
use sugo_machine_application.Prelude.{
  ◌≡◌, refl, ap, ◌∙◌, Bool, true, false, List, [], ◌∷◌, ◌++◌, arith, some,
}
use sugo_machine_application.Framework.Message.{
  Message, filament_merger_control, filament_coil_control, request_switch_on, request_start_heating,
  request_set_motor_speed, request_start_feeding, request_start_coil, request_stop_feeding,
  request_stop_coil, tension_control, speed, nothing, NotificationTopic, notify_heating_up,
  notify_starting, notify_running, Component, RequestTopic, Payload, Response, success,
}
use sugo_machine_application.Framework.World.{World, Environment, Effect, sent, notified}
use sugo_machine_application.Framework.StateMachine.{process_next_event}
use sugo_machine_application.Framework.Stated.{run, run-append, handle_event_message}
use sugo_machine_application.MachineControl.Diagram.{State, Event, state_numbers, event_numbers}
use sugo_machine_application.MachineControl.{
  Config, Fields, ControlMachine, Input, event_message, merger_running_notification,
  merger_stopped_notification, coil_running_notification, coil_stopped_notification, event_round,
  init, step, transitions, switch_on, start_heating, start_machine, check_starting_state,
  stop_machine, check_stopping_state, notify_stopped, on_merger_feeding_running,
  on_merger_feeding_stopped, on_coil_running, on_coil_stopped,
}
pub use Phases.*

module _ (env : Environment) (obedient : Obedient env) where
  at_rest : Fields → List Effect → World Fields Event
  at_rest f h = record { fields = f; queue = record { events = []; max_size = 10 }; history = h }

  -- Each phase ends at rest: with an empty queue.
  power_on :
      (m : Message) (f : Fields) (h : List Effect)
      → (h' : List Effect) × (run
            (step env)
            (power_on_inputs m)
            (record { state = State.off; world = at_rest f h })
          ≡ record { state = State.stopped; world = at_rest f h' })
  unfolding at_rest run step process_next_event handle_event_message transitions switch_on
      notify_stopped
  power_on m f h = (
    notified NotificationTopic.notify_stopped nothing
        ∷ sent filament_coil_control request_switch_on nothing
        ∷ sent filament_merger_control request_switch_on nothing
        ∷ h,
    ground (
      arith,
      obedient h filament_merger_control request_switch_on nothing,
      obedient (sent filament_merger_control request_switch_on nothing ∷ h) filament_coil_control
          request_switch_on nothing,
    ),
  )

  warm_up :
      (m : Message) (f : Fields) (h : List Effect)
      → (h' : List Effect) × (run
            (step env)
            (warm_up_inputs m)
            (record { state = State.stopped; world = at_rest f h })
          ≡ record { state = State.heating_up; world = at_rest f h' })
  unfolding at_rest run step process_next_event handle_event_message transitions start_heating
  warm_up m f h = (
    notified notify_heating_up nothing
        ∷ sent filament_merger_control request_start_heating nothing
        ∷ h,
    ground (arith, obedient h filament_merger_control request_start_heating nothing),
  )

  start_up :
      (m : Message) (f : Fields) (h : List Effect)
      → (h' : List Effect) × (run
            (step env)
            (start_up_inputs m)
            (record { state = State.heating_up; world = at_rest f h })
          ≡ record {
            state = State.starting;
            world =
                at_rest
                  (record f {
                    merger_running = false;
                    coil_running = false;
                    motor_speed = f.config.speed_default;
                  })
                  h';
          })
  unfolding at_rest run step process_next_event handle_event_message transitions start_machine
  start_up m f h =
      let n = f.config.speed_default in
      let h₁ = sent filament_merger_control request_set_motor_speed (speed n) ∷ h in
      let h₂ = sent filament_merger_control request_start_feeding nothing ∷ h₁ in
      let h₃ = sent filament_coil_control request_set_motor_speed (speed n) ∷ h₂ in
      (
        notified notify_starting nothing
            ∷ sent filament_coil_control request_start_coil (tension_control true)
            ∷ h₃,
        ground (
          arith,
          obedient h filament_merger_control request_set_motor_speed (speed n),
          obedient h₁ filament_merger_control request_start_feeding nothing,
          obedient h₂ filament_coil_control request_set_motor_speed (speed n),
          obedient h₃ filament_coil_control request_start_coil (tension_control true),
        ),
      )

  come_up :
      (m : Message) (coil_first : Bool) (f : Fields) (h : List Effect)
      → f.merger_running ≡ false
      → f.coil_running ≡ false
      → (h' : List Effect) × (run
            (step env)
            (come_up_inputs m coil_first)
            (record { state = State.starting; world = at_rest f h })
          ≡ record {
            state = State.running;
            world = at_rest (record f { merger_running = true; coil_running = true }) h';
          })
  unfolding at_rest run step process_next_event handle_event_message transitions
      check_starting_state on_merger_feeding_running on_coil_running
  come_up m true f h a b = (notified notify_running nothing ∷ h, ground arith)
  come_up m false f h a b = (notified notify_running nothing ∷ h, ground arith)

  wind_down :
      (m : Message) (coil_first : Bool) (f : Fields) (h : List Effect)
      → f.merger_running ≡ true
      → f.coil_running ≡ true
      → (h' : List Effect) × (run
            (step env)
            (wind_down_inputs m coil_first)
            (record { state = State.running; world = at_rest f h })
          ≡ record {
            state = State.stopped;
            world = at_rest (record f { merger_running = false; coil_running = false }) h';
          })
  unfolding at_rest run step process_next_event handle_event_message transitions stop_machine
      check_stopping_state on_merger_feeding_stopped on_coil_stopped
  wind_down m coil_first f h a b =
      let h₁ = sent filament_merger_control request_stop_feeding nothing ∷ h in
      (
        notified NotificationTopic.notify_stopped nothing
            ∷ sent filament_coil_control request_stop_coil nothing
            ∷ h₁,
        ground (
          arith,
          obedient h filament_merger_control request_stop_feeding nothing,
          obedient h₁ filament_coil_control request_stop_coil nothing,
        ),
      )

  run-start :
      (config : Config) (m : Message) (coil_first : Bool)
      → (h : List Effect) × (run (step env) (start_inputs m coil_first) (init config)
          ≡ running_at config h)
  unfolding init at_rest
  run-start config m coil_first =
      let f : Fields = (init config).world.fields in
      let (h₁, e₁) = power_on m f [] in
      let (h₂, e₂) = warm_up m f h₁ in
      let (h₃, e₃) = start_up m f h₂ in
      let (h₄, e₄) = come_up m coil_first f h₃ refl refl in
      (
        h₄,
        run-append (step env) (power_on_inputs m) _ _
            ∙ ap (run (step env) _) e₁
            ∙ run-append (step env) (warm_up_inputs m) _ _
            ∙ ap (run (step env) _) e₂
            ∙ run-append (step env) (start_up_inputs m) _ _
            ∙ ap (run (step env) _) e₃
            ∙ e₄,
      )

  -- If every request to the two units succeeds, then after SwitchOn, Start, the notification that
  -- the merger is heated up and the two notifications that the units run, in either order, each
  -- followed by its rounds of the event thread, the machine that was off is running at its default
  -- speed with no event left; after Stop and the notifications that the units have stopped, in
  -- either order, it is stopped with no event left.
  pub start_and_stop_lem :
      (config : Config) (m : Message) (coil_first coil_first' : Bool)
      → let r = run (step env) (start_inputs m coil_first) (init config) in
        let q = run (step env) (wind_down_inputs m coil_first') r in
        (r.state ≡ State.running)
        × (r.world.fields.motor_speed ≡ config.speed_default)
        × (r.world.queue.events ≡ [])
        × (q.state ≡ State.stopped)
        × (q.world.queue.events ≡ [])
  unfolding at_rest
  start_and_stop_lem config m coil_first coil_first' =
      let (h, e) = run-start config m coil_first in
      let (h', e') = wind_down m coil_first' (running_at config h).world.fields h refl refl in
      let down = ap (run (step env) (wind_down_inputs m coil_first')) e ∙ e' in
      (
        ap (λ k. k.state) e,
        ap (λ k. k.world.fields.motor_speed) e,
        ap (λ k. k.world.queue.events) e,
        ap (λ k. k.state) down,
        ap (λ k. k.world.queue.events) down,
      )
