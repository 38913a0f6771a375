-- ===== src/Lib.antt =====
-- The remote management agent for Linux: it polls a server by heartbeats and holds a WebSocket to it,
-- installs packages that the server asks for, updates itself, and lends the screen by x11vnc when the
-- user or the server consents.
--
-- The parts, and the files that model them:
--  - Session (internal/remotesupport/session_linux.go): `SessionManager`. The state under its lock is
--    the record `SessionStatus`; every method is a function on it that takes the time. `Call` and
--    `step` make a step relation of them.
--  - Vnc (internal/remotesupport/manager_linux.go, env_linux.go): `Manager`, the x11vnc process.
--    `start`, `stop` and `wait` take what the operating system answers as a record.
--  - Api (internal/api/client.go): the errors and the exchange of a request. Api.Retry is
--    `callRemoteWithRetry` of cmd/service/main.go.
--  - Remote (cmd/service/main.go): approval, rejection and the callbacks of remote support on one
--    agent state that holds the session, the x11vnc manager and what was sent and saved.
--    Remote.Server is the policy, the server's requests and ends, the prompt and the check in a
--    heartbeat. Remote.Events runs these in any order.
--  - Dedup (cmd/service/main.go): `taskDeduper`, which keeps a task from running twice, and its saving
--    to and seeding from the state file.
--  - Tasks (cmd/service/main.go, pkg/utils/hash.go): the install commands. Tasks.Command holds the
--    checks and names, Tasks.Install is `runInstallCommand`, and Tasks.Queue is `processCommands`, the
--    bounded queue and a worker's round; it uses Dedup as the guard. Tasks.Bounds runs command lists
--    and worker rounds in any order.
--  - Installer (internal/installer/installer.go): `Install` and `run`.
--  - SelfUpdate (cmd/service/main.go): `maybeApplySelfUpdate` up to the replaced executable;
--    SelfUpdate.Version is the update of the configuration file after that. They share the hash check
--    and the version's file name with Tasks, and `UpdateAgentVersion` with Config.
--  - Config (internal/config/config.go): `Load`, `Save`, `ResolvePath`, `UpdateAgentVersion`.
--  - ServerConfig (cmd/service/main.go): `applyServerConfig`.
--  - Ws (internal/wsconn/client.go): the address, the waits of `Run`, the handshake of
--    `connectAndServe`, and the callback of a message.
--  - Startup (internal/state/state.go, cmd/service/main.go): the state file and the agent that `main`
--    makes of it.
--  - Heartbeat (cmd/service/main.go): `sendHeartbeat` over the whole state, `Host`, which joins the
--    states of the parts. Heartbeat.Callbacks are the callbacks of the WebSocket client with the
--    parsers of their payloads, and Heartbeat.Loop runs all events in any order. Heartbeat.Ticker is
--    the loop at the end of `main` alone, and Heartbeat.Kinds says what each event may do with a
--    session.
--  - Ipc (internal/ipc/unixsocket_linux.go): an exchange over the local socket; Ipc.Handler is its
--    handler in cmd/service/main.go.
--  - Inventory (internal/inventory/inventory.go): the package list and its hash; Inventory.Sync is
--    `syncInventory` and the hash over the WebSocket in cmd/service/main.go. Services
--    (internal/services/collector.go): the systemd services.
--  - Announcement (internal/announcement): the tracker, and in Announcement.Notify the notifications.
--  - Prompt (internal/remotesupport/prompt_linux.go, display_linux.go): the question on the desktop
--    and the choice of the display.
--  - System (internal/system/info.go, profile.go): what the agent reads of its host.
--  - Base and Text: numbers, lists and Go's strings as the agent uses them. Tests: concrete runs.
--
-- Outside code is a parameter: the server, the clock, the file system, the operating system and the
-- YAML library are records of functions or plain function arguments. What an outside call gives is
-- indexed by the number of outside events before it, so it may change from call to call. A handler is
-- one step of the model: the locks of the code make its parts atomic, but two handlers of the code can
-- overlap where the model runs them one after the other.
--
-- Loops: the retries of requests and downloads recurse on the attempts that are left, three in all as
-- in the code; the wait for x11vnc polls at most as often as the code does; digits are printed with
-- fuel `n + 1`, which is enough because each round divides by ten. Integers are taken to fit 64 bits,
-- but for the intervals of the server, which wrap around as in the code; times are nanoseconds as
-- natural numbers. JSON numbers are taken to be at most 2^53, where float64 holds them exactly.
--
-- Not modelled: logging, JSON and YAML texts, the socket of the local requests, the wait for a signal of
-- the server, the uptime and the logged-in sessions, and the host information in a heartbeat or a
-- status, which passes through the agent unread.
mod Base
pub mod Text
pub mod Announcement
pub mod Api
pub mod Services
pub mod Session
pub mod Vnc
pub mod Remote
pub mod Dedup
pub mod Tasks
pub mod Config
pub mod SelfUpdate
pub mod Ws
pub mod ServerConfig
pub mod Prompt
pub mod Startup
pub mod System
pub mod Heartbeat
pub mod Installer
pub mod Inventory
pub mod Ipc
mod Tests
