-- ===== src/Lib.antt =====
-- A verification library for dev_hub, the hub that joins serial devices, PLCs and TCP clients:
-- clients send commands as frames, transcations hand them to the devices of their kind, and a task
-- for each session collects the results.
--
-- The parts and their files, with paths from the repository's root:
-- - Base: numbers, lists, texts as lists of bytes, maps with number keys, `int`s and JSON values.
-- - Session: Communication/session.cpp. `Reader` is the state of the loop in `OnData`; `on_data`
--   returns the frames that `OnFrame` is called with, `on_datas` several reads, `send_message` what
--   `SendMessage` hands to the connection.
-- - Looper: Communication/eventlooperimp.cpp. `Looper` is the list of timers, the next id, and the
--   timers that libevent holds; `schedule_timer`, `cancel_timer` and `on_timeout` are the methods.
-- - Task: transcation/task.cpp with the replies of transcation/Transcation.cpp. A `Task` and the
--   `World` it works on: the looper, the messages sent, the balance's timer and the devices.
--   `update` is `Task::Update`, `on_timer` is `Task::OnTimer`.
-- - Server: Communication/CommServer.cpp and the closing of a session in Communication/session.cpp.
--   Sessions and connections are numbers; `Server` holds the subscriptions and the connections, and
--   which of these are not deleted.
-- - Command: transcation/Transcation.cpp, `DownInfo` (Command/Down) and `ProcessCmd` of the solder,
--   glue and balance transcations. They call the task's functions and list what is done with
--   devices. Command/Data is `UpdateInfo`, by which
--   a device's result becomes the reply. Command/Manager has the maps of `TranscationManager` and the loop of
--   `CommServer::OnConnection` that gives a session's task to its transcations.
-- - Reply and Solder: equipment/Sequence.cpp and equipment/SolderCtrl.cpp. `Hub` holds the machines
--   and the one machine that each shared state object points to; a `Step` gives the next hub and
--   what was written and sent.
-- - Log: tools/ut_log.c, the buffer and the files of a local log with its expiry (Log), and rotation
--   by number (Log/Shift). Log/Whole is what a rotated log holds, Log/Flush and Log/Line what a flush
--   and a call do to it.
-- - Misc: tools/ut_misc.c, hex conversion, reversal, case and blanks.
-- - Endian: the byte swaps of transcation/ev_respond.cpp.
-- - Plc: transcation/PlcFins.cpp and transcation/PlcProxy.cpp. A `Plc` is a link to a PLC;
--   Plc/Fins is `PlcFins`, which weighs for a PLC, with the `Plc` that it shares, and Plc/Proxy the
--   two proxies of the machines.
-- - Events: transcation/ev_respond.cpp. An `Event` reads frames through the operations of a proxy
--   (`ProxyOps`, which Events/Proxies fills with those of Plc/Proxy); Events/Sniff is
--   `SniffingPlcEvent` of all events. A `Reach` holds what the events of a machine share.
-- - Machine: transcation/machine.cpp. `Machine` has the events by name and the timers;
--   Machine/Split is `SplitString`, Machine/Build `BuildEvent` and `MachinePlcBuilder`,
--   Machine/Director the director with its map of machines and `OnFrame`.
-- - Scanner: equipment/Scanner.cpp with the table of equipment/key_code.h, and Balance:
--   equipment/ElecBalance.cpp with the timer of equipment/equipment.cpp. Balance/Weighed joins a
--   frame of the balance to what `PlcFins` sends.
-- - Connection: the class of Communication/connbase.h with its methods in connbaseimp.cpp. Its
--   sockets' world and evbuffers are a `SocketLib`; Connection/Delivery has the sequences of
--   operations, Connection/Waiting what stays in an evbuffer; Connection/Connector is
--   `ConnectorImp`, Connection/Reported counts its reports.
-- A server's frame goes to `down_info` of each subscribed transcation; a transcation's result comes
-- back through `update` of the task, whose timers are the looper's.
--
-- Parameters stand for code of other projects: JSON reading (`parse`) and writing (`styled`),
-- `std::stoi`, the stream output and input of a float (`convert`, `read_float`), `calendar` of a log's names, libfins (`FinsLib`),
-- libmodbus (`ModbusLib`), evbuffers and sockets (`SocketLib`), and the results of the system's
-- calls (what `event_new`, `event_add` and `write` do). Integers in JSON have any size, and a real
-- number is what the library says of it.
-- Bounds: `digits` runs on fuel above the number, which has fewer digits; `count` in Log/Shift runs
-- on fuel, and its theorem asks for more than there are files; `split_loop` runs on fuel above the
-- length of the text, and takes a character away in each round. Everything else recurses on its data.
-- `int`s of the replies are patterns of 32 bits, `timeval_diff` is taken in 64 bits.
--
-- Not modelled: the loops of libevent, acceptors, printing, threads and locks, the serial and
-- USB devices, the XML profiles of transcation/station.cpp, the configuration files, forked
-- rotation and remote logs, and the copies of other projects (libmodbus, mosquitto, TinyXML, SDS).
pub mod Base
pub mod Session
pub mod Looper
pub mod Task
pub mod Server
pub mod Reply
pub mod Solder
pub mod Misc
pub mod Log
pub mod Command
pub mod Connection
pub mod Endian
pub mod Plc
pub mod Events
pub mod Machine
pub mod Scanner
pub mod Balance
