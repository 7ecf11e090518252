-- ===== src/Lib.antt =====
-- kettlingar-go: a micro-framework for services with an HTTP interface (kettlingar/). This library
-- models its own logic and states what it does.
--
-- Parts, and the files that model them:
-- * kettlingar/msgpack_to_json.go (MsgpackJsonConverter: decodeNext, decodeArray, decodeMap,
--   decodeExtension, readUintN, Convert) is Msgpack. The reader is the list of bytes that is left
--   and the writer the list of bytes written (Msgpack/Reader). Msgpack/Convert has one function for
--   each method; Msgpack/Document describes MessagePack documents apart from the converter.
-- * kettlingar/logtee/logtee.go (hub, FanoutHandler, Subscription, ParseLevel, LevelString,
--   Format) is Logtee. The hub is a record, each method a function from it to the new one.
-- * kettlingar/logging/buffer.go (BufferHandler, teeHandler) and kettlingar/logging/rotate.go
--   (rotatingWriter) are Logging: Buffer, Tee and Rotate, with Rotate/Descriptor for the open file
--   and the errors of the calls on it, and Rotate/Faults for gzipFile and for what fails in a rotation
--   without ending it. kettlingar/logging/logging.go (BaseHandler, replaceAttr) and
--   syslog_unix.go are Logging.Choice and Logging.Destination: a sink is a value, and a world has
--   the lines written and the numbers of the sinks that are open.
-- * kettlingar/logging.go (InstallLogging, ConfigureLogging, resolveLogConfig) is LogSetup: Settings,
--   Configure, Steps for the sequences of what a process does with its logging, and Client
--   (SetupClientLogging, and hasForegroundFlag of kettlingar/default_main.go).
-- * kettlingar/metrics.go (Metrics, MetricsCount, MetricsSample, RenderOpenMetrics and others) is
--   Metrics: Registry, Labels, Histogram, Render and Access (PublicApiMetrics).
-- * kettlingar/service.go (RegisterService, authenticate, handleRPC, handleFunction,
--   handleGenerator, setMimeType, ForgivingJSON) and ping of kettlingar/default_methods.go are Rpc.
--   Make is MakeService with generateSecret, over random bytes that it is given, and over what
--   HandleFunc of net/http takes as a pattern (`takes`).
--   Registration reads the data that reflection gives of a method; Call takes one request from its
--   arguments to the calls on its http.ResponseWriter and to the metrics it counts, with a panic
--   as a value and a generator as the sequence of what the service's select receives.
-- * kettlingar/default_main.go is Cli. Commands is addRpcCommands and what it calls, with the groups
--   and commands of cobra's root as lists, and none where pflag panics at a flag that is defined twice; Values is parseValue and the parameters of doCall. The
--   others are the life of a server: Ready (signalReady, awaitChildReady), StateFile (autoDiscover,
--   probeOrStopServer), Server (startServer in the foreground, as far as it serves) and Start
--   (startServer in the background, spawnBackground, and the shutdown). A world has the state file,
--   the readiness pipe and the trace of what happened. dashedName is Text.Dashed.
--   Flags is the flags of a service's fields and the fields set from them. Call is doCall behind its
--   parameters (what it asks, and what it shows of the answer, with the decoder of a MessagePack
--   stream as the parameter `next_raw`) and Output is printOutput, with reflection over the return
--   type as the parameter `Shown`. Main is DefaultMain with its help and fetchManifest, over the
--   parameter `Shell` and the flags that addServiceFlags asks pflag for.
-- * kettlingar/client.go is Client: the endpoints of a client's fields and one call, with Client/Loop
--   on the loop of a stream.
-- * EndToEnd puts a call of Cli.Call or of Client in front of handleRPC: the calls on the service's
--   writer are, by Cli.Call.Wire, the answer that is read.
-- * kettlingar/datadir.go is DataDir.
-- Text models what the program uses of fmt (%d, %x, %q) and of strings, Slog what it uses of
-- log/slog, Dict Go's maps with string keys.
--
-- The service's responses are encoded as MessagePack and handed to the converter where JSON is
-- wanted; the loggers of a service write to the fan-out, whose base is first the tee of the buffer
-- and of stderr.
--
-- Bounds and fuel. decodeNext recurs on fuel for the nesting and Convert on fuel for its rounds;
-- both get one more than the length of the stream, and a document consumes at least one byte.
-- The loops that read a stream in doCall and in MakeClient get as much; an error of the decoder that
-- stays uses up any fuel of the latter (Client/Loop).
-- uint64 counters wrap modulo 2^64, and so does the limit of a log file's size in bytes; the int64
-- count of dropped records is a plain number. Numbers of bytes are plain numbers: a 64-bit int holds
-- every length that the format can announce.
-- math.Log2 is exact logarithm rounded up, since the rounding of floats shows only above the last
-- bucket.
--
-- The loop of a generator is over the list of what it receives; at the end of the list it waits.
--
-- What the system answers is a parameter where a theorem depends on it: LogSetup.Settings.Env,
-- Cli.StateFile.Processes, Cli.Server.Host, DataDir.Machine, Cli.Main.Shell, Cli.Flags.Viper
-- and, for cobra, Cli.Commands.Tools.
--
-- Not modelled: printing of floats and of times and the table of printable runes (the parameter
-- Msgpack.Convert.Printers), what a method does with its arguments and how its values are encoded
-- (the parameter Rpc.Call.Reflected), what a hook of a service does besides what it returns, the
-- text that slog makes of a record, the attributes of the service's log lines, reflection, net/http,
-- cobra and viper, and the parts of the program that only call them; the example service (main.go),
-- whose methods print and sleep. Locks make the methods under them single steps.
pub mod Prelude
pub mod Text
pub mod Dict
pub mod Cli
pub mod Client
pub mod DataDir
pub mod EndToEnd
pub mod LogSetup
pub mod Logging
pub mod Logtee
pub mod Metrics
pub mod Msgpack
pub mod Rpc
pub mod Slog
pub mod Tests
