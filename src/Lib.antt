-- ===== src/Lib.antt =====
-- BandMaster starts and stops the services of a program in the order of their dependencies. This
-- library models the package and the services that come with it.
--
-- The parts and how they interact. A program registers services with a Maestro (AddService), each
-- under a name, with the names it depends on. StartAll checks the registry (hasMissingDeps,
-- hasCircularDeps), then runs a goroutine for each service, which waits on the channels of its
-- dependencies (Started), calls the service's own Start until it succeeds or the attempts are used
-- up, and announces the outcome to its own subscribers (ServiceBase.start). Errors travel over the
-- channel that StartAll returns. StopAll does the same in the other direction: a goroutine waits on
-- the channels of the services that depend on its own (Stopped). ServiceReady waits for one service.
--
-- Base        the names that the other modules share: outcomes of Go code (returned, panicked,
--             blocked for ever), membership, maps as association lists, families over addresses.
-- Errors      errors.go: ErrorKind, Error and its text.
-- Channel     Go's buffered channels of errors: make, send, close and receive.
-- ServiceBase service.go: Defs has the state and the methods; Channels, Invariant and Flow are
--             about its invariant, Broadcast and Sends about subscribers, Dependencies about
--             addDependency.
-- Registry    maestro.go: Maestro, AddService, AddServiceWithBackoff, Service, GlobalMaestro.
-- Deps        maestro.go: hasMissingDeps and hasCircularDeps, as runs over the channel errC. Graph
--             has their specification, the graph of dependencies of a registry.
-- Retry       maestro.go: the loop of attempts of start and of stop, as a function.
-- Goroutines  maestro.go: the state that the goroutines of StartAll or StopAll share. Grows is about
--             what none of them undoes, Ledger about their errors, Attempts about their loops of
--             attempts, Serving and Waiters about the channels at which they wait, Silence about
--             channels without an error, Ranks about how many steps they have left.
-- Boot        maestro.go: StartAll. Defs has its goroutines as a step relation over all
--             interleavings, StartAll the checks, the launch and the wait around them. Objects,
--             Knowledge and Order are about the order in which services start, Refinement about an
--             abstract boot, Checks about what is checked first, Reports and Returns about what
--             StartAll leaves behind, Serving, Waits, Crashes, Moves and Progress about when a
--             goroutine can go on, Ranks and Ends about for how long, Smooth and Completes about a
--             boot without an error, Attempts about the loop of attempts in the steps and in Retry,
--             Stranded about waits without an end, Cancelled about a context that has ended before,
--             Absent about services without a goroutine, Later about the registry behind it.
-- Shutdown    maestro.go: StopAll, in the same way: Defs has its goroutines, StopAll the launch and
--             the wait around them. Order is about the order in which services stop, Orderly and
--             AfterBoot about it behind a StartAll, Cycle about StopAll behind StartAll, Later about
--             the registry behind it, and the others are as in Boot.
-- Lifetime    maestro.go: a program that uses a Maestro. Defs has its calls, one behind the other,
--             Invariant, Registers and Keeps are about what holds between them, Restart about a stop
--             and a start behind them.
-- Ready       maestro.go: ServiceReady, over what others do to the service while it waits.
-- Services    services/*/service.go and env.go: Start and Stop of each service over its client
--             library, the access to it, and the configuration; Environment has NewEnv, Assertions
--             the type assertions. Kafka/Texts has the texts of Kafka's versions and compression
--             codecs, Kafka/Watch services/kafka/helpers.go, which watches the events of a
--             consumer or a producer, and Kafka/Deliveries what the callers of a producer hear.
-- Example     example/main.go: Defs has main, Reports and Lines are about what it prints about the
--             errors of StartAll and of StopAll, Registered about the services that it registers.
-- Tests       the theorems at concrete inputs.
--
-- How code becomes definitions. A service is a pointer: an address in a store of objects. A method
-- under a lock is one function on the state, since the lock is held throughout. Code that may panic
-- or wait for ever returns an Outcome beside the state, which keeps what was written before. A Go
-- map is an association list: the order of its iteration is random in Go, so the theorems are about
-- every list. Integers of Go that are only stored are natural numbers; the counter of attempts and
-- the wait, which the loop changes, wrap around at 64 bits. A client library is a parameter: a
-- record of its functions over a world of an arbitrary type, of which some theorems suppose what the
-- library documents, that a constructor returns a value exactly when it returns no error.
--
-- A goroutine of StartAll or of StopAll is known by the address of its service, so the model has one
-- for each service, and the code has one for each entry of the map. These are the same where no
-- service stands under two names, which AddService does not refuse; the second goroutine of a
-- service that does is not modelled, and the theorems on its steps are about the first alone.
--
-- Fuel. The loop of attempts takes max 1 maxRetries rounds and hasCircularDeps a stack deeper than
-- the number of services; the theorems show both to be enough.
--
-- Not modelled: the debug log, the package envconfig and the client libraries, which are parameters,
-- the example's logger, its sleeps and its lines of progress, and the tests.
pub mod Base
pub mod Errors
pub mod Channel
pub mod ServiceBase
pub mod Registry
pub mod Deps
pub mod Retry
pub mod Goroutines
pub mod Boot
pub mod Shutdown
pub mod Lifetime
pub mod Ready
pub mod Services
pub mod Example
pub mod Tests
