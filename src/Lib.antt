-- ===== src/Lib.antt =====
-- bluetti-mqtt-node: reads Bluetti power stations over Bluetooth (MODBUS frames in GATT
-- notifications) and publishes what it reads to MQTT.
--
-- Parts, and the files that model them:
--   Common          shared names, lists, Boolean tests, `^` on numbers, JavaScript numbers, maps with
--                   strings for keys (StringMap), toLowerCase and includes (Texts)
--   Errors          src/bluetooth/errors.ts: the error classes, and results that may be thrown
--   Crc             src/core/crc.ts: modbusCrc, appendModbusCrc, hasValidModbusCrc
--   Commands        src/core/commands.ts: the command classes, their frames and response tests
--   Session         src/bluetooth/device-session.ts: the session's state machine; Session/Connect is
--                   connectAndInitialize and isRetryableInitializationError (session-utils.ts)
--   Helper          the requests to the helper process: Json (what JSON.parse gives, and the guards
--                   of helper-client.ts), Client (helper-client.ts and helper-request.ts in
--                   src/bluetooth), Client/Router (helper-line-router.ts)
--   Transport       src/bluetooth/transport.ts and its two implementations: Helper
--                   (helper-transport.ts) and Mock (mock-transport.ts); Calls is the methods of
--                   helper-client.ts that the transport calls
--   Manager         src/bluetooth/manager.ts: the sessions by address; Manager/Recovery puts it under
--                   the retry loops of App/Connection
--   Devices         src/devices: Field (field.ts), Struct (struct.ts), Builders (enums.ts and
--                   device-builders.ts), Definition (definition.ts), Device (device.ts), Registry
--                   (registry.ts)
--   App             src/app: Polling (polling-state.ts), Runner (device-executor.ts), Connection
--                   (device-connection.ts), Handler (the loop in `run` of device-handler.ts; its
--                   maps, connectAll and pollOnce are Handler/Setup), Queue (device-queue.ts, as a
--                   step relation), Server (server.ts)
--   Broker          src/broker: Payload (parseCommandValue, serializeValue in part), Options (the
--                   texts that enum fields take), Topic (COMMAND_TOPIC), Bridge (client.ts),
--                   Basic (basic-client.ts)
--   EventBus        src/core/event-bus.ts
--   Cli             src/cli: Shared (shared.ts), Config (cli-config.ts), Args (args.ts, but for
--                   normalizeValue)
--
-- A session is a record of the fields of `DeviceSession` with the timers and promises that the
-- JavaScript runtime keeps for it. `perform` is cut at its awaits: start_perform, write_failed,
-- finish_perform. A Uint8Array is a list of numbers, of bytes where a theorem says so. Shifts and
-- masks by constants are `/` and `%`; `^` is the native operation.
--
-- The helper client is a record in the same way: its map of pending requests, the armed timers and
-- the promises settled so far. `sendHelperRequest` is cut at its awaits: begin_request,
-- register_request, write_throws; the deadline, a line of the process and the events of the process
-- are further functions on the record, and Helper/Client/Phases has any sequence of them. A request
-- is named by its UUID.
--
-- The transports, the manager, the bridge, the server and the command line take what they call of
-- one another and of libraries as records of functions on the state of the world; a method of theirs
-- runs from its call to its end, without another one in between.
--
-- A polling loop is a function of one round; a reconnection recurs on the rounds that it may make.
-- The retry loop of connectAndInitialize recurs on the attempts left, CONNECT_RETRY_COUNT at first.
-- `runPackCommands` recurs on the packs left, packNumMax at first. The runner's collaborators are
-- the record `Environment` of functions on the state of the world, and a piece of queued work runs
-- when its turn has come; Queue models the turns of one address.
-- A decoded JavaScript number that is a quotient is kept as its numerator and its divisor.
-- A number of JSON that is no integer is a fraction n / 2 ^ k; its thousandfold, for an interval, is
-- rounded to 53 bits after ten halvings at most, as n has 53 bits and 1000 ten.
-- Not modelled: what lies behind the helper process and the MQTT library, error messages but for
-- the tests that read them, delays, the loops of several devices side by side, the spawning of the
-- helper process, the texts of numbers and of JSON, the output of the command line and most of its
-- arguments, and the log.
pub mod Common
pub mod Errors
pub mod Crc
pub mod Commands
pub mod Session
pub mod Helper
pub mod Transport
pub mod Manager
pub mod Devices
pub mod App
pub mod Broker
pub mod EventBus
pub mod Cli
