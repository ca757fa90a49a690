-- ===== src/Lib.antt =====
-- The software of an RC airplane: a microcontroller sends the sticks of the transmitter and the readings
-- of an IMU over a serial line, a companion computer chooses an autopilot and answers with the
-- deflections of the control surfaces, and it publishes telemetry over message queues.
--
-- Which file models which part (paths from the root of the repository):
-- Common models impl/include/rcplane/common: State.hpp in Common/State, and Packet.hpp in Common/Packet.
--   A packet is a record with the fields of the struct; a `float` is its 32-bit pattern. Packet/Bytes
--   writes out the packed memory that goes over the line, on little-endian processors.
-- Autopilot models impl/src/autopilot: AutopilotUtility.cpp in Autopilot/Utility, ManualAutopilot.cpp in
--   Autopilot/Manual, StabilizeAutopilot.cpp in Autopilot/Stabilize, AutopilotManager.cpp in
--   Autopilot/Manager. Arithmetic of 8-bit integers is that of `int`, with each conversion back written
--   out.
-- Io/Serial models impl/src/io/SerialController.cpp, with the threads of `readPacket` in Async.
-- Io/Telemetry models impl/src/io/telemetry. Its Transport has the two interfaces with a contract, and
--   the classes over message queues as their implementation.
-- Io/Config models impl/src/io/ConfigManager.cpp, and Io/Journal impl/include/rcplane/io/Journal.hpp.
-- Som models impl/src/som: the constructor in Som/Setup, the handshake, a cycle of the main loop, the
--   loop, main, and the thread of the event loop in Som/IoThread.
-- Mcu models impl/src/mcu/mcu.ino. Link has the sketch and the controller at the two ends of a line,
--   from the handshake on, with what a pause of either does (Link/Lag) and what old bytes do (Link/Frames).
-- Station models control_station: the window in Station, the indicators in Station/Attitude and
--   Station/Pictures, the thread that receives in Station/Thread, main in Station/Main. In
--   Station/Interleaved the calls of the controller and of the thread come in any order.
-- Pc models impl/src/pc/main.cpp.
-- Double is the arithmetic of `double`, Base has the shared helpers, Tests runs the theorems.
--
-- How the parts interact: a cycle of Som reads two packets through Io/Serial, hands them to
-- Autopilot/Manager, writes the answer through Io/Serial, and sends three messages through
-- Io/Telemetry. The state of each class is a record, and an operation takes it, with the state W of the
-- world, and returns both. `none` is undefined behaviour (a conversion that does not fit, a null pointer
-- or a cast past the end of a buffer) or an exception that leaves the function; the exceptions of
-- `getValue` are told apart. RCPLANE_ASSERT gives
-- `exited`.
--
-- Parameters, for code outside the repository: `Double` for the arithmetic (with `IsIeee` for the laws,
-- which Double/Fixed meets), `SerialPort` for Boost.Asio (`IsSerialPort`; Io/Serial/Loopback meets it),
-- `MessageQueue` for Boost.Interprocess (`IsQueue`), `JsonLibrary` for nlohmann/json (`IsJson`), `Board`
-- for the Arduino libraries, `Qt`, `Scenes` and `Trig` for the texts and the scenes of Qt and the
-- trigonometry, `LogCore` for Boost.Log, and `Host` for the
-- event loop and the clock. A call of the port and its timer are one operation with one outcome, but in
-- Io/Serial/Async.
--
-- Bounds and fuel: the handshake recurses on its attempts. The main loop need not end, so its rounds are
-- bounded by fuel, and the theorems hold for every number of rounds. So are the loops of the programs on
-- the ground; a waiting message ends a wait at its first call.
--
-- Not modelled: the log records that the functions make on their way, but for those of received
-- messages, whose printing can throw; the user interface that is generated for control_station, and
-- what Qt does with the widgets; the libraries under third_party; the threads of the programs, but
-- for the two that `readPacket` uses, that of the event loop, and that of the control station
-- against the controller.
pub mod Base
pub mod Double
pub mod Common
pub mod Autopilot
pub mod Io
pub mod Som
pub mod Tests
pub mod Mcu
pub mod Link
pub mod Station
pub mod Pc
