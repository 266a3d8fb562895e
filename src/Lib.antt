-- ===== src/Lib.antt =====
-- Joy Pi Health: a read-only health service for Raspberry Pi hosts, in Go.
--
-- The program resolves a startup configuration (internal/config), collects one snapshot of the host
-- at a time (internal/observe), validates and encodes it as JSON (internal/snapshot) and serves it
-- (internal/httpapi) under a process lifecycle (internal/app); internal/platform reads the kernel.
--
-- Which file models which part:
--   Text and its children: Go strings and byte slices as lists of bytes, with what the code uses of
--     `strings`, `bytes`, `strconv` and `unicode/utf8`.
--   Errors, Result, Numbers: Go errors and `errors.Is`; a value or an error; `float64` and
--     `time.Time` as parameters.
--   Config: internal/config/config.go. CommandLine has the functions (`Resolve` is `resolve`),
--     Address the IPv4 part of `net/netip`, Grammar, Environment, Laws and Precedence the theorems.
--   Snapshot: internal/snapshot/snapshot.go. Validate, Document (`buildDocument`), Json and Encode.
--   Observe.Outcome and Observe.Observations: internal/observe/outcome.go, and the observations with
--     the coordinator's checks on them.
--   Observe.Coordinator: internal/observe/coordinator.go. Cycle has `collect` and `finalize`,
--     Finalize the setters; what collectors, clocks and contexts answer is a record of answers.
--   Observe.Parsers and Observe.Generic: internal/observe/generic.go, the readers of the kernel's
--     files and the collectors; Generic has the probe of internal/observe/readiness.go as well.
--     Parsers.Topology, Parsers.Ranges (the grammar of CPU lists), Parsers.MemoryInfo, Generic.Sound and
--     Generic.Readiness hold the theorems.
--   Observe.Cpu: internal/observe/cpu.go: samples and the utilization between two of them, with
--     Utilization for its arithmetic. States has the observer's operations, Observer its states as
--     a step relation, Schedule the targets of `run`; the goroutine itself is left out.
--   Observe.Degradation: internal/observe/degradation.go; Active has the theorem.
--   Observe.Network: internal/observe/network.go, with Collect for `collectNetwork`. External describes
--     the external links, Fuel bounds the search, Names orders them, Sound and Reports hold the
--     theorems on `collectNetwork`.
--   Observe.RaspberryPi: internal/observe/raspberrypi.go: the firmware mask, and in Temperature the
--     collectors, whose theorem is in Sound.
--   Observe.Firmware: internal/observe/firmware_executor.go: its operations, and in Steps its callers,
--     its worker and its closing in any order; Invariant and Work keep what holds between the steps,
--     Ready and Slot have the theorems.
--   Observe.Coordinator.Shared: `Snapshot`, `run` and `fail` of internal/observe/coordinator.go on the
--     state that callers and cycles share; Steps has the step relation, Announced who hears of a defect,
--     Failure what stays for ever.
--   Observe.Production: the collectors of internal/observe/coordinator.go, which put the parts of the
--     observation together: a cycle as a function of what the platform answers.
--   HttpApi.Handler: internal/httpapi/handler.go: `serveHTTP` as one function, with Decision for what
--     it answers, and its parts as the steps of many requests in Admission.
--   App.Run: `run` and `shutDown` of internal/app/app.go, with Codes for the exit codes and the calls of
--     the server. App.Startup: `startHTTP`, with Release for its cleanup, and internal/app/runtime.go.
--   App.Gate and App.Logger: internal/app/readiness.go and internal/app/logger.go; Gate.Once has the
--     gate's steps, Logger.Lines the lines that are written.
--   Platform.FirmwareProtocol: internal/platform/firmware_protocol.go, with Properties for the
--     responses to a property request. Platform.FirmwareDevices: the fallback of
--     internal/platform/firmware_linux.go. Platform.Netlink: internal/platform/netlink.go for words of
--     little-endian machines, with RoundTrip for the attributes of a message.
--   HttpApi.Listener: the limited listener of internal/httpapi/server.go, with its slots in Slots.
--   Tests: runs at concrete inputs, and each theorem at an input that meets its hypotheses.
--
-- The floats are a parameter; two theorems assume that division by 1000 and comparison round as in IEEE
-- arithmetic, and say so. Loops are recursions on their lists; `FormatUint`
-- runs on fuel of its number plus one, which exceeds the number of decimal digits, and the schedule's
-- loop on fuel of the time plus one, where each round adds a second.
-- The search for external links runs on fuel of one more than the number of links, since none is
-- visited twice at a time. Concurrency is an order of steps, each of which holds one lock, uses one
-- channel or reads or sets one flag; a channel is a list or a counter of its tokens; only the
-- admission of the firmware executor, with its send, and what its worker does after a panic are one step
-- each, as are the tests of the handler behind an answer. The lines that the
-- HTTP server and the degradation reporter write to standard error are not among those of a run.
-- Not modelled: net/http, system calls and file reads (with the listing of thermal zones and the netlink
-- socket), the datagram to systemd, signal handling, the goroutine of the CPU observer and what it
-- does about a panic, the constructors' tests for nil, and the stubs for other platforms.
pub mod Prelude
pub mod Text
pub mod Result
pub mod Errors
pub mod Numbers
pub mod Config
pub mod Snapshot
pub mod Observe
pub mod HttpApi
pub mod App
pub mod Platform
pub mod Tests
