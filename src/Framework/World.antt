-- ===== src/Framework/World.antt =====
-- What the code of a component works on: the fields of its class, its event queue, and the calls
-- that it has made to the outside, newest first. A piece of code is an action on such a world.
-- What a call answers is up to the environment, which may look at all calls made before.
-- Code: ServiceComponent::send and ServiceComponent::notify
-- (libs/ServiceComponent/src/ServiceComponent.cpp), StateMachine::push
-- (libs/ServiceComponent/include/ServiceComponent/StateMachine.hpp).
use sugo_machine_application.Prelude.{ℕ, Bool, true, false, List, ◌∷◌, Option, none, some}
use sugo_machine_application.Prelude.Int.{ℤ}
use sugo_machine_application.Framework.EventQueue.{EventQueue}
use sugo_machine_application.Framework.EventQueue
use sugo_machine_application.Framework.Message.{
  Component, RequestTopic, NotificationTopic, Payload, StateMessage, Message, Response, is_success,
  default_response,
}

pub data Level : Type 0 where
  low high : Level

-- The GPIO outputs that the components switch.
pub data Pin : Type 0 where
  heater_pin light_power_pin light_run_pin light_ready_pin : Pin

pub data Observer : Type 0 where
  temperature_timer low_tension_observer high_tension_observer : Observer
  tension_overload_observer tension_repeat_timer : Observer

-- The calls of the hardware abstraction layer, the timers and the observer threads.
pub data HardwareCall : Type 0 where
  motor_set_speed : ℕ → HardwareCall
  motor_rotate : HardwareCall
  motor_reset : HardwareCall
  motor_stop : Bool → HardwareCall
  set_pin : Pin → Level → HardwareCall
  start_observer : Observer → HardwareCall
  stop_observer : Observer → HardwareCall

pub data Effect : Type 0 where
  sent : Component → RequestTopic → Payload → Effect
  notified : NotificationTopic → Payload → Effect
  called : HardwareCall → Effect
  client_notified : StateMessage → Effect

-- The answer of each call, given the calls made before it, and the temperature that a sensor
-- reads. A request that does not come through has no response.
pub record Environment : Type 0 where
  pub reply : List Effect → Component → RequestTopic → Payload → Option Response
  pub hardware : List Effect → HardwareCall → Bool
  pub sensor : List Effect → ℤ

pub record World (D E : Type 0) : Type 0 where
  pub fields : D
  pub queue : EventQueue E
  pub history : List Effect

abbrev pub Action : Type 0 → Type 0 → Type 0 → Type 0
Action D E A = World D E → A × World D E

infixl 5 ◌>>=◌ ◌>>◌
abbrev pub ◌>>=◌ : {D E A B : Type 0} → Action D E A → (A → Action D E B) → Action D E B
◌>>=◌ m f w = let (a, w') = m w in f a w'

abbrev pub ◌>>◌ : {D E B : Type 0} → Action D E (Unit {0}) → Action D E B → Action D E B
m >> k = m >>= λ _. k

module _ {D E : Type 0} where
  abbrev pub pure : {A : Type 0} → A → Action D E A
  pure a w = (a, w)

  abbrev pub skip : Action D E (Unit {0})
  skip = pure tt

  abbrev pub when : Bool → Action D E (Unit {0}) → Action D E (Unit {0})
  when true a = a
  when false a = skip

  abbrev pub get_fields : Action D E D
  get_fields w = (w.fields, w)

  abbrev pub set_fields : D → Action D E (Unit {0})
  set_fields d w = (tt, record w { fields = d })

  -- `StateMachine::push`; the actions ignore its result.
  unfoldable pub push_event : E → Action D E Bool
  unfolding EventQueue.push
  push_event e w = let (q, pushed) = EventQueue.push e w.queue in (pushed, record w { queue = q })

  unfoldable pub push : E → Action D E (Unit {0})
  unfolding push_event
  push e w = (tt, (push_event e w).1)

  -- `ServiceComponent::notify`; every caller ignores its result.
  unfoldable pub notify : NotificationTopic → Action D E (Unit {0})
  notify topic w = (tt, record w { history = Effect.notified topic Payload.nothing ∷ w.history })

  module _ (env : Environment) where
    -- A call of the layer below, and its result.
    unfoldable pub call : HardwareCall → Action D E Bool
    call c w = (env.hardware w.history c, record w { history = Effect.called c ∷ w.history })

    -- `ServiceComponent::send` with the response object that the caller passes in: it is only
    -- written when the broker got a response.
    unfoldable pub send_with :
        Response → Component → RequestTopic → Payload → Action D E (Bool × Response)
    unfolding is_success
    send_with response receiver topic parameters w = (
      outcome (env.reply w.history receiver topic parameters),
      record w { history = Effect.sent receiver topic parameters ∷ w.history },
    )
      where
        outcome : Option Response → Bool × Response
        outcome none = (false, response)
        outcome (some r) = (is_success r.result, r)

    -- `send(requestId, parameters)`.
    unfoldable pub send : Component → RequestTopic → Payload → Action D E Bool
    unfolding send_with default_response
    send receiver topic parameters w =
        let (answer, w') = send_with default_response receiver topic parameters w in (answer.0, w')

    -- `ServiceComponent::forward`: whether the request came through is not looked at.
    unfoldable pub forward : Message → Component → RequestTopic → Action D E Response
    unfolding send_with default_response
    forward message receiver topic w =
        let (answer, w') = send_with default_response receiver topic message.payload w in
        (answer.1, w')

    -- `ControlService::switchOffServiceComponent`
    -- (libs/MachineServiceComponent/include/MachineServiceComponent/ControlService.hpp).
    unfoldable pub switch_off_service_component : Component → Action D E Bool
    unfolding send
    switch_off_service_component receiver =
        send receiver RequestTopic.request_switch_off Payload.nothing
