-- ===== src/Lib.antt =====
-- OT-sim, the Go modules: models of the message bus library, of the Modbus client and server, of the
-- logic and MQTT modules, of the SunSpec client and server, of the CPU module's metrics and module
-- control, and of the start-up, and what they guarantee.
--
-- A device is a set of modules, each a process of its own, that talk over a message bus (ZeroMQ).
-- Modules publish `Status` messages with the measured values of tags and `Update` messages with
-- values to set; the CPU module controls the others. Protocol modules such as Modbus answer
-- requests from the network from the tags and turn writes into updates.
--
--   Common       names from the library, lists, integers, and Go's maps (Common/Dict) as
--                association lists in the order that `range` visits them
--   Float        Go's float64, a parameter `FloatOps` with the laws `FloatLaws`; Float/Decimal is an
--                instance that meets them
--   Msgbus       src/go/msgbus: Types and Envelope (envelope.go, runtime.go, module.go, health.go),
--                Pusher (pusher.go), Metric (metric.go), Subscriber (subscriber.go)
--   Config       what the modules' `Configure` methods use of other libraries: the tree of elements
--                of an XML file and the conversions of strings, as parameters
--   Modbus       src/go/modbus: Bits (util/bytes.go), Register (util/register.go), Config (what the
--                `Configure` of client and server share), Server (server/*.go) with State, Read,
--                Write, Bus and Configure for the definitions, Client (client/client.go)
--   Logic        src/go/logic/logic.go: the state in Logic itself, Configure, Run (execute, the loop's
--                turn and the handlers), Functions (what initEnv gives to programs)
--   Mqtt         src/go/mqtt: the state in Mqtt itself, Configure (with types.go), Run
--   Sunspec      src/go/sunspec: Register (common/register.go, common/common.go), Model
--                (common/schema.go), Server (server/server.go) with Server/Configure, whose maps of
--                pointers share a heap, Client (client/client.go, client/util.go)
--   Cpu          src/go/cpu: Metrics (metrics.go), Control (internal.go, and StartModule of
--                execute.go up to its goroutine)
--   Startup      src/go/ot-sim.go: the registry of modules, ParseConfigFile and Start
--   Tests        runs at concrete inputs
--
-- Go's `int` is ℕ where the code keeps it from being negative, else ℤ; bytes and words are numbers
-- with the wrap-around written out. An error is a value, a run-time panic a constructor of its
-- own. A slice expression panics past the length: a slice's capacity is taken for its length. The
-- bytes of a request are below 256.
--
-- The word loops of the Modbus handlers (`for addr < start+count`, stepping by the register's
-- count) run on fuel, one more than the number of addresses. That is enough where every register
-- holds a word at least; running out is the answer `diverges`. The write handler of the
-- SunSpec server takes its fuel as an argument. The MQTT module's loop over its endpoints runs on
-- fuel, for which their number is enough where one answers, and the discovery of the SunSpec client
-- on fuel that is an argument.
--
-- The lock of the logic module is a field of its state: a step that finds it taken is `blocked`.
-- The other modules hold theirs for one access each, or for the whole of a handler, and a handler
-- is one step. The publications that the MQTT module begins, each a goroutine, are a list in its
-- state: when they run, and in which order, is left open. The goroutines of the CPU module set and
-- clear the channels of its modules between the names of a control message, by a schedule that is a
-- parameter. A loop of the subscriber keeps the flag and the handlers of its start.
--
-- `int(math.Abs(float64(n)))` of a Modbus register is the rounding to 53 binary digits and the
-- conversion of amd64 (`float_abs`); other numbers of float64 are the parameter.
--
-- Not modelled: the sockets and how threads take turns within a step (a handler is one step; what
-- ZeroMQ accepts is a parameter), the log lines, JSON (a parameter, `Json`, with the law that decoding undoes encoding),
-- the reading of XML, the print-out of the SunSpec client, the telnet, node-red and tailscale
-- modules, the CPU module's HTTP API and the life of the processes that it starts, and the modules
-- in C, C++ and Python.
pub mod Common
pub mod Float
pub mod Msgbus
pub mod Modbus
pub mod Logic
pub mod Mqtt
pub mod Startup
pub mod Sunspec
pub mod Cpu
pub mod Config
mod Tests
