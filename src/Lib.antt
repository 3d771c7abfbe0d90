-- ===== src/Lib.antt =====
-- OpenEmber: a model of the parts of the robot middleware that decide, and what holds of them.
--
-- Launch models system/launch_manager: the process manager (process_manager.hpp and .cpp),
-- which starts the processes of a launch file, restarts those that end as their policy asks,
-- watches their heartbeats and shuts them down. Launch.Spec has the records of
-- launch_config.hpp, Launch.World the kernel and the clocks that the manager sees,
-- Launch.Process the members of the class, Launch.Start its StartAll, StartProcess and
-- StartOne, Launch.Stop its StopOne, StopProcess, MarkHeartbeat and CheckHeartbeatTimeouts,
-- Launch.Poll its Poll, HandleExit, ShouldRestart and StopAll, and Launch.Run the sequences of
-- calls that the main loop makes. A method is a function from the state to the state; a method
-- of one process is applied to the first process of a name or pid, as FindByName and FindByPid
-- find it. fork(), waitpid() and the clocks are parameters: the results of waitpid() are a list
-- for each Poll, and the clock readings depend on how often a clock was read. The loop of
-- StopAll goes on while there are lists of waits, and gives `none` when they run out; enough of
-- them bring it to its end. Launch.Config is launch_config.cpp; yaml-cpp is a parameter,
-- exceptions are values, and the loop of ReplaceAll runs on fuel, a round for each byte, which
-- is enough as each round moves on.
--
-- Checksum models components/algorithm/src/checksum.cpp; bytes and registers are numbers, and
-- every cast of the code is written out.
--
-- Modbus models apps/agri_station_demo/agri_modbus_tcp.hpp: the register bank (Modbus.Bank),
-- the server's HandlePdu (Modbus.Pdu) and ServeOneRequest (Modbus.Server), the client's
-- ReadHoldingRegisters and WriteSingleRegister (Modbus.Client), and ReadFull and WriteFull
-- (Modbus.Socket) over recv() and send(), which are parameters. A stream socket is described by
-- Modbus.Socket.IsStream: each call moves at least one byte, in their order. The loops run on
-- fuel, the number of bytes to move, which is enough as each round moves one. The server's
-- threads, its accept loop, the mutex of the bank and the opening of connections are not
-- modelled.
--
-- Sbus models platform/lpio/src/SBUSReader.cpp: decodeFrame (Sbus.Frame), readByte and
-- recvFrame with its exceptions as results (Sbus.Receive), over SerialPort::read of
-- platform/lpio/src/SerialPort.cpp. Whether the port is open and what ::read answers are a
-- parameter; a call that a signal interrupts is repeated by the code and counts as one. The
-- deadline is the number of readings that the clock allows, which is the fuel of the loops. The
-- configuration of the port and the scaling of channels to floats are not modelled.
--
-- Network models components/network/socket_uri.cpp: parse_endpoint, listen and connect
-- (Network.Uri) over the operating system layer's sockets, a parameter. Transport models
-- components/transport/src/key_builder.cpp (Transport.KeyBuilder).
--
-- ThreadPool models components/thread_pool (thread_pool.hpp and .cpp): ThreadPool.Pool has the
-- queue in the order of its tasks, post, shutdown, and worker_loop as the steps of a worker. A
-- step is a section in which a thread holds the mutex, and a run is any sequence of such steps,
-- so that it covers every interleaving. Sequence numbers wrap at 64 bits. Wake-ups are not
-- modelled: a worker may look at the queue at any time. A call of a task ends.
--
-- Actuator models components/actuator (mock_joint_controller.hpp and .cpp, joint_types.hpp):
-- Actuator.Joint has the data, Actuator.Controller the members and Start, Stop, Enable,
-- Disable, EmergencyStop, ClearFault and InjectFault, Actuator.Command SetCommand with its
-- validation, and Actuator.Step Step and the sequences of calls. Each call is one step, as all
-- hold the mutex. The floating-point numbers are a parameter, a record of the operations that
-- the code uses; clock readings are arguments of the calls. ReadState gives the mutex back while
-- it waits, and is two steps (Actuator.Read).
--
-- ConfigService models system/config_service/main.cpp: the parameter store
-- (ConfigService.Store) and the handlers of the get and set services with the events that they
-- publish (ConfigService.Handlers). A call of the store holds its mutex and is one step.
--
-- DeviceManager models system/device_manager/main.cpp: DeviceManager.Registry has the registry
-- with the reports that it receives, the initial devices, the queries and the two topic patterns
-- of its subscriptions. What these take of the hardware interface's messages is
-- HardwareInterface.Delivery, over the keys of Transport; Zenoh's matching of a key to a key
-- expression is a parameter of which one law is used, that a star stands for any one chunk.
--
-- HealthMonitor models system/health_monitor/main.cpp: HealthMonitor.Registry has the registry,
-- the events of its two subscriptions with the clock's readings, Snapshot, and the messages that
-- main publishes. A metric's value, a double in the code, is a whole number here, as the code
-- sets counts and milliseconds only.
--
-- HardwareInterface models services/hardware_interface: HardwareInterface.Endpoint has the data
-- and the virtual operations of an endpoint as a record of operations and laws, a parameter of
-- HardwareInterface.App, which has BuildEndpoints, Start and Stop of
-- src/hardware_interface_app.cpp. HardwareInterface.Publish has the messages that the service
-- builds, and HardwareInterface.Spin the turn of its loop; endpoints do not change within a
-- turn. HardwareInterface.JointEndpoint is endpoints/joint_controller_endpoint.cpp over the
-- model of the mock joint controller, with the turns of its thread's loop, and
-- HardwareInterface.JointTurns is its Stop, with any turns of the thread and of the subscriber
-- between the calls that Stop makes; HardwareInterface.JointStop fills the record. That the
-- thread comes to an end, so that the join returns, is not modelled.
-- HardwareInterface.Config is src/hardware_config.cpp; yaml-cpp and the floating-point
-- numbers are a record of operations (Prelude.Yaml), and exceptions are values.
-- HardwareInterface.Defaults has DefaultMockConfig. The endpoints of sensors and the
-- conversions of messages are not modelled.
--
-- These services talk through messages, which Messages has as records of the fields that they
-- read or set; their classes are generated by the build. What one service publishes, the others
-- receive in any order with other messages (HardwareInterface.Devices and
-- HardwareInterface.Health). The services' node information and their own heartbeats are left
-- out where they read no state of the service.
--
-- Prelude has what the parts share: lists, ordered maps, integers, texts as lists of bytes,
-- results of fallible steps, and machine words. Tests has runs at concrete inputs.
pub mod Prelude
pub mod Launch
pub mod Modbus
pub mod Sbus
pub mod Transport
pub mod Network
pub mod ThreadPool
pub mod Actuator
pub mod Messages
pub mod Checksum
pub mod ConfigService
pub mod DeviceManager
pub mod HardwareInterface
pub mod HealthMonitor
mod Tests
