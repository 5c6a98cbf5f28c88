-- ===== src/Framework/Message.antt =====
-- libs/MessageBroker/include/MessageBroker/Message.hpp and MessageHelper.hpp: messages and
-- responses, and the identifiers of the components, their requests and their notifications
-- (libs/MachineServiceComponent/conf/MachineServiceComponent.yaml).
-- JSON and protobuf are libraries: a payload is one of the JSON objects that the components
-- build, and what the library makes of a received payload is an argument of the handlers.
use Prim.Native.String.{String}
use sugo_machine_application.Prelude.{ℕ, Bool, true, false, if◌then◌else◌, Option, none, some}
use sugo_machine_application.Prelude.Int.{ℤ}

pub data Component : Type 0 where
  machine_control filament_merger_control filament_feeder_motor : Component
  filament_pre_heater filament_merger_heater filament_coil_control : Component
  filament_coil_motor filament_tension_sensor user_interface_control : Component

pub data RequestTopic : Type 0 where
  request_switch_on request_switch_off request_start request_start_heatless : RequestTopic
  request_stop request_increase_motor_speed request_decrease_motor_speed : RequestTopic
  request_get_motor_speed request_start_feeding request_stop_feeding : RequestTopic
  request_get_temperature request_set_motor_speed request_start_heating : RequestTopic
  request_start_motor request_stop_motor request_start_coil request_stop_coil : RequestTopic
  request_increase_motor_offset_speed request_decrease_motor_offset_speed : RequestTopic
  request_get_state : RequestTopic

pub data NotificationTopic : Type 0 where
  notify_stopped notify_heating_up notify_starting notify_running : NotificationTopic
  notify_switched_off notify_error_occurred notify_feeding_running : NotificationTopic
  notify_feeding_stopped notify_heated_up notify_start_motor_succeeded : NotificationTopic
  notify_stop_motor_succeeded notify_target_temperature_range_reached : NotificationTopic
  notify_target_temperature_range_left notify_coil_running : NotificationTopic
  notify_coil_stopped notify_tension_too_low notify_tension_too_high : NotificationTopic
  notify_tension_overloaded : NotificationTopic

-- `ResponseMessage::Result`.
pub data Result : Type 0 where
  success unsupported_request invalid_message invalid_payload error : Result

unfoldable pub is_success : Result → Bool
is_success success = true
is_success unsupported_request = false
is_success invalid_message = false
is_success invalid_payload = false
is_success error = false

-- The JSON objects that the components build; `nothing` is the empty one.
pub data Payload : Type 0 where
  nothing : Payload
  speed : ℕ → Payload
  tension_control : Bool → Payload
  temperature : ℤ → Payload
  state : ℕ → Payload
  error_reason : Result → Payload

-- The state message for the clients of the remote control.
pub record StateMessage : Type 0 where
  pub type : String
  pub result : String
  pub state_text : String
  pub machine_speed : ℕ

-- What the JSON library makes of `Json::parse(payload).at(key)`: it throws, or gives an empty
-- value, or a value.
pub data Parameter (A : Type 0) : Type 0 where
  missing : Parameter A
  empty_value : Parameter A
  given : A → Parameter A

pub record Header : Type 0 where
  pub id : ℕ
  pub sequence : ℕ

pub record Message : Type 0 where
  pub header : Header
  pub payload : Payload

pub record Response : Type 0 where
  pub header : Header
  pub result : Result
  pub error : Option Payload
  pub payload : Payload

-- A default constructed response: protobuf's zero values, of which the result's is `Success`.
unfoldable pub default_response : Response
default_response = record {
  header = record { id = 0; sequence = 0 };
  result = success;
  error = none;
  payload = nothing;
}

unfoldable pub refer_to : Message → Response → Response
refer_to m r = record r { header = m.header }

-- `createResponseMessage(message, result, payload, errorReason)`.
unfoldable pub create_response : Message → Result → Payload → Payload → Response
unfolding default_response refer_to is_success
create_response m result payload reason = record base {
  error = (if is_success result then none else some reason);
  payload = payload;
}
  where
    base : Response
    base = refer_to m (record default_response { result = result })

-- `createResponseMessage(message, payload)`.
unfoldable pub create_success_response : Message → Payload → Response
unfolding create_response
create_success_response m payload = create_response m success payload nothing

-- `createErrorResponseMessage(message, result)`: the reason is passed as the payload.
unfoldable pub create_error_response : Message → Result → Response
unfolding create_response
create_error_response m result = create_response m result (error_reason result) nothing
