-- ===== src/Lib.antt =====
-- The machine application: a machine that merges plastic filaments, heats and coils them.
--
-- The program is a set of service components, each with its own thread, event queue and state
-- machine, that send each other requests and notifications through a message broker. The machine
-- control drives the merger control (feeder motor, pre-heater, merger heater) and the coil control
-- (coil motor, tension sensor); the user interface control shows the state of the machine and takes
-- the commands of remote clients. The transition tables are generated from
-- libs/MachineServiceComponent/conf/MachineServiceComponent.yaml.
--
-- Prelude: Boolean tests, lists and integers over the native numbers.
-- Framework: what all components share.
--   EventQueue: libs/ServiceComponent/include/ServiceComponent/EventQueue.hpp.
--   Message: libs/MessageBroker/include/MessageBroker/Message.hpp and MessageHelper.hpp.
--   World: the fields, the queue and the calls of a component, and the monad of its code;
--     ServiceComponent::send, forward and notify of libs/ServiceComponent, and
--     ControlService::switchOffServiceComponent.
--   StateMachine: libs/ServiceComponent/include/ServiceComponent/StateMachine.hpp.
--   ExecutionGroup: libs/ServiceComponent/include/ServiceComponent/ExecutionGroup.hpp.
--   Stated: libs/ServiceComponent/include/ServiceComponent/StatedServiceComponent.hpp, and the life of
--     a component as a sequence of inputs.
-- MessageBroker: libs/MessageBroker/src/MessageBroker.cpp.
--   Identifier: the identifiers of messages, over libs/Common/include/Common/Hash.hpp.
--   Client, Server, Subscriber: libs/MessageBroker/src/Client.cpp, Server.cpp with Publisher.cpp, and
--     Subscriber.cpp.
--   Startup: ServiceComponent::start, over the subscriber.
--   Dispatch, Connections, Subscriptions: what is proved of these.
-- Heater, Motor, TensionSensor, CoilControl, MergerControl, MachineControl, UserInterface: the
--   components of libs/MachineServiceComponent/src and the services that they are built on. Each
--   has a module Diagram for its states and events and a module Transitions for its table against the
--   diagram; the service that it is built on, or its message handlers, may stand in a module Service
--   or Handlers; further modules are named for what they are about.
-- Common: libs/Common/include/Common/Timer.hpp.
-- Hal: the drivers of libs/HardwareAbstractionLayerImpl/Rpi.
--   Bus: the calls of the kernel and of libgpiod, what they answer, and the actions of the drivers.
--   Words: the words of 16 and 32 bits and their bytes.
--   Tic: src/TicController.cpp. Startup has its init, checkError and finalize; Buffers and Reading
--     are about the reading of the state, Commands about the bytes of the commands and Started about
--     a successful start.
--   Stepper: src/StepperMotor.cpp. Speed has the conversions of units and Motion the movements;
--     Power, Preparation, Rotation, Waiting, Feedback, Loss and Beginning are about what a motor
--     does.
--   Max31865: src/Max31865.cpp. Table has the table of the temperatures; Lookup and Faults are about
--     the conversion and about readings that fail. Heater/Fault composes these with a heater.
--   I2c: the device file of src/I2cControl.cpp, whose transfers are in Bus.
--   Pin: the opening of a pin in src/GpioPin.cpp, and in Opened what a pin is like then.
--   Spi: src/SpiControl.cpp, and in Opening what its init ends with.
--   Simulator: libs/HardwareAbstractionLayerImpl/Stub/src/Simulator.cpp.
-- ServiceGateway: libs/ServiceGateway/src/ServiceGateway.cpp, over Tokenizer, which is
--   libs/Common/include/Common/StringTokenizer.hpp.
-- RemoteControl: libs/RemoteControl/src/RemoteControlServer.cpp and src/Connection.cpp, with the
--   events that the web server library raises as an input. Sessions and Notifications are about what
--   is kept of a client and whom a notification reaches.
-- Tests: the code on concrete inputs.
--
-- How the code corresponds to the model. The name of a method becomes its name in lower case with
-- underscores. A method is an action: a function of the component's world to its result and the new
-- world. Each call to the outside (a request, a notification, a hardware call) is put at the front of
-- the world's history; its result is the answer of an environment, which may depend on all calls
-- before. Components run concurrently; of one component, the handling of a message, of a timer tick
-- and of an event are taken as one step each. Numbers of type unsigned are natural numbers, numbers
-- of type int are integers; the casts between them are written out, and sums of speeds and offsets
-- are taken to stay within 32 bits, as the configured speeds do.
--
-- In Hal an action works on the fields of the driver and the history of its calls. The result of
-- ioctl, the bytes that are read, the level of a pin and the time that a sleep takes are up to a
-- Bus, which may look at all calls before. A use of a deleted controller and a division by zero end
-- a call as crashed. An int wraps around at 2 ^ 32. Whether a motor has power is told from the power
-- commands that its controller has acknowledged; one that was not acknowledged counts as not taken.
--
-- Subscriber::unsubscribe reads an entry of its map after it has erased it. What this read gives is an
-- argument of the model.
--
-- Bounds: the event queue has size 10. Two loops are recursive on fuel: the reading of the
-- controller's state, whose fuel is one more than its 42 bytes, of which each round reads at least
-- one, and the wait for a standstill, which is given a number of polls and says so when they are used
-- up. All other functions are structural.
--
-- Not modelled: protobuf, JSON, JSON-RPC and azmq are libraries, and what they answer is an
-- argument; so is the web server. Logging, threads, configuration files, the start and stop of the
-- remote control server and of the service gateway, and the controls that make the drivers of the
-- Raspberry Pi. For a component, a tick of its timer is an input. A response is either received as
-- a whole or not at all by ServiceComponent::send; the broker's own send also has the cases between.
pub mod Prelude
pub mod Framework
pub mod MessageBroker
pub mod Common
pub mod Hal
pub mod Heater
pub mod Motor
pub mod TensionSensor
pub mod CoilControl
pub mod MergerControl
pub mod MachineControl
pub mod UserInterface
pub mod ServiceGateway
pub mod RemoteControl
pub mod Tests
