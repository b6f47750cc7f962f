-- ===== src/Lib.antt =====
-- switch-agentd: the agent that serves a console over TCP (agent/source).
--
-- A connection passes through four layers, and the files follow them.
--
-- Json models agent/source/json.hpp and json.cpp. Json/Value has the class `Value` and its
-- accessors, Json/Write `write` and `write_string`, Json/Parse the struct `Parser` and `parse`,
-- Json/Number the C library's `%lld` and `strtoll`. A `double` is the pattern of its bits; `strtod`
-- and `%.10g` are parameters. An object is the sequence of its entries in the order of the map.
-- The mutual recursion of the parser runs on fuel: twice the length of the text and one unit more,
-- as every call either consumes a byte or hands on to a construct that does.
--
-- Wire models the frames of agent/source/server.cpp. Wire/Socket has `ReadExactEx`, `ReadExact`,
-- `WriteAll` and `SetRecvTimeout`; what the kernel does is a script of events for `recv` and one
-- for `send`, so every way to cut, interrupt, delay or break the stream is a value. Wire/Words has
-- the machine's words in memory, Wire/Frame `ReadFrame` and `WriteFrame`.
--
-- Server models the rest of agent/source/server.cpp: Server/Table the function `Dispatch`,
-- Server/Gate `CheckTier` and `SecureEqual`, Server/Auth `Authenticate`, Server/Serve
-- `ServeConnection`. The types of agent/source/protocol.hpp, `Fail` and `IsDryRun` are in Agent. The
-- handlers, the journal, the watchdog, the virtual pad, HMAC and the firmware version are fields of the
-- record `Host`, over a state `World` that they share. The loop over the frames runs on fuel: more
-- than one unit for each event and each byte on their way is enough, since every round uses up some.
--
-- Paths models agent/source/path.cpp and `ResolveDevicePath`; Config models agent/source/config.cpp,
-- with the files as their contents. MemSearch models the narrowing search of
-- agent/source/handlers/memsearch.cpp: MemSearch the scan, MemSearch/Requests the four handlers,
-- MemSearch/Direct the reads, writes and mappings. The
-- IPC calls to the cheat service are the record `CheatService`, fixed while one request runs. The
-- fuel bounds the chunks of one region: its size over 64 KiB, and two more, for a size of at most
-- 2^64 - 64 KiB; behind a larger one the offset wraps and the loop may have no end (MemSearch/Endless).
--
-- Guards models agent/source/handlers/guards.cpp, with the files on the card as contents. Power models
-- the requests that agent/source/power_state.cpp answers and the accept loop of `Server::Run`, as
-- scripts of requests and of what `accept` finds; the two threads meet in the record `PowerState`.
--
-- Files models agent/source/handlers/fs.cpp over the record `Storage`, the calls of the C library on a
-- state `Disk`: Files/Reading the reads, Files/Finding `WalkFind`, Files/Grepping `FsGrep`,
-- Files/Changing the writes, Files/Copying `CopyTree` with backup and restore. A directory is listed as
-- it was when it was opened, and a file is read without faults, but for its hash. A walk has the
-- source's thirteen levels; a copy runs on fuel, two more than the longest path that can be opened.
--
-- Saves models agent/source/handlers/savedata.cpp, Events events.cpp, Cheats cheat.cpp, Input input.cpp,
-- PowerControl the transitions, clocks and sleep plans of power.cpp, Titles titles.cpp, System the
-- settings, the clock, the network and the fatal reports of system.cpp, Diagnostics the processes, crash
-- reports and log of sysinfo.cpp, and Debug the breakpoints, the session (Debug/Session), memory,
-- threads, registers and modules (Debug/Inspect), the search (Debug/Searching) and the backtrace
-- (Debug/Backtrace) of debug.cpp, all beside them.
--
-- `FsCopy` of system.cpp is in Files/Changing. The loop of `Titles` has as many rounds as it is given,
-- more than there are records being enough.
-- Lockscreen models agent/source/lockscreen.cpp. What a service returns is a parameter in each, the
-- calls that drive the console are listed in their order, and a wait is a number of polls. HexText is
-- the C library's reading and printing of hexadecimal numbers. The product of a double with 32767 and
-- the conversion of an integer to a double are parameters of Input.
--
-- Numbers are natural numbers with their wrap-around written out; a signed integer is the pattern of
-- its two's complement. Not modelled: the log, the waits, the socket options beyond the receive
-- timeout, the setting up of the listener, the file that the first boot writes, brightness and
-- volume, what only prints the answers of services in system.cpp, sysinfo.cpp and power.cpp, the
-- handlers of album.cpp, hardware.cpp and screen.cpp, the USB transport, the server in Python and
-- the tools. Base holds the names and lemmas that all share, Checks runs of the theorems.
pub mod Base
pub mod Paths
pub mod Json
pub mod Wire
pub mod Agent
pub mod Server
pub mod MemSearch
pub mod Config
pub mod Guards
pub mod Power
pub mod HexText
pub mod Files
pub mod Saves
pub mod Events
pub mod Lockscreen
pub mod Cheats
pub mod Input
pub mod PowerControl
pub mod Debug
pub mod Titles
pub mod System
pub mod Diagnostics
pub mod Checks
