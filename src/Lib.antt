-- ===== src/Lib.antt =====
-- Rootforge: the control plane that turns incident Events into Cases and durable investigation
-- tasks, and the heap dump analyser hprofx: its reader, object graph and dominators.
--
-- How the program works. A POST of an Event (internal/transport/httpapi/handler.go) goes to the
-- intake (internal/workflow/intake.go), which has the Case service (internal/casefile) record it
-- and then makes sure that the Outbox (internal/storage/local/outbox.go) has an investigation task
-- for the Case. A Case holds an Incident (internal/incident/incident.go), which collects the Events
-- (internal/trigger/event.go) of one fingerprint. The Case store (internal/storage/local/cases.go)
-- and the Outbox each keep their state in memory and in a JSON file, which they replace at every
-- change (internal/storage/local/jsonfile.go). Workers lease tasks from the Outbox and complete or
-- retry them. At start, and on a ticker, the intake reconciles pending Cases with the Outbox.
--
-- Which file models what.
--   Trigger        internal/trigger/event.go: Event, Normalize, Validate, Fingerprint
--   Incident       internal/incident/incident.go: New, Apply, sameEvent
--   Casefile       internal/casefile: Case, MemoryStore, Service
--   CaseStore      internal/storage/local/cases.go: CaseStore, validateStoredCase, OpenCaseStore
--   JsonFile       internal/storage/local/jsonfile.go: writeJSONAtomic, readJSONFile
--   Investigation  internal/investigation/outbox.go: Task and its status
--   Outbox         internal/storage/local/outbox.go: InvestigationOutbox and its methods
--   Intake         internal/workflow/intake.go: RecordEvent, ReconcilePending
--   HttpApi        internal/transport/httpapi/handler.go and api/v1alpha1/types.go
--   Hprof          heapdump/hprofx/hprof.go: reader, header, roots, class dumps, names, LoadMeta, layouts
--   Heap           heapdump/hprofx/graph.go (Objects, Lookup, Edges, Csr, Graph: BuildGraph and its
--                  readers; Passes: against LoadMeta), dom.go (Walk, Dominators) and inspect.go
--                  (Inspect)
--   Text, Clock, Dict, Sort, Failure, Platform: strings, time.Time, maps, sort.Slice, errors, and
--                  what is taken from the platform
--   Prelude        shared names, tests and lists;  Tests  the theorems at concrete inputs
--
-- How the model stands to the code. A method takes the state of its object and returns the new one
-- beside its result; an error is a value of `Failure.Error`, without its message. A mutex makes
-- each method one step, so an interleaving of goroutines is a list of calls (`Outbox.History`). A
-- string is its bytes. A map is an association list without repeated keys; the order of the list is
-- the order of iteration. A Time is a number of nanoseconds with its zone, so time does not
-- overflow in the model. A uint32 or uint64 counter wraps at 2 ^ 32 or 2 ^ 64 where the code adds
-- to it. sort.Slice is insertion sort: every order that the code sorts by is total on the
-- identifiers, which are unique.
--
-- hprofx reads a dump three times: LoadMeta takes the strings, classes, traces and roots, the first
-- pass of BuildGraph the objects, the second one their references; Dominators then walks the graph
-- from a virtual root. A slice of a fixed length is a `Prelude.Slices.Slice`, and an index out of
-- range, a short file or an unknown tag, which panic, are `none`; the index -1 of dom.go and of
-- Lookup is `none` too. An int32 or int64 is kept as its bits, and sums wrap. Node indices and
-- lengths of slices are taken to fit int32, as the code does.
--
-- What is a parameter. The decimal form of a line number (fmt.Sprint), SHA-256, Unicode's lower-
-- casing of strings that are not ASCII (`Text.Lower.LowersWide` says what is relied on), the random
-- lease token, the generator of Case identifiers, the clock, the error of a context, the JSON codec,
-- and the error that each call of the operating system returns (`JsonFile.Answers`). Of the codec
-- two things are relied on, both documented of encoding/json: a state whose strings are valid UTF-8,
-- whose times are in UTC and whose statuses are known is read back as it was written
-- (`Platform.IsFaithful` over `Outbox.Plain.IsPlainState`), and a state whose times lie in the years 1
-- to 9999 is encoded without an error (`Outbox.Progress.Encodes`). A failure text that `truncate` cut
-- inside a rune is not valid UTF-8.
--
-- A rename replaces the file at once. A write that fails may leave any bytes in the temporary file,
-- and a crash may leave any bytes under a name whose file was not synced since it was written
-- (`JsonFile.Disk`); the sync of the directory after the rename is best effort in the code and left
-- out, so whether a crash undoes the rename is open, and either file is allowed.
--
-- Bounds and fuel. The loops over bytes (`Hprof.Reader.skip`, `Hprof.Header.open_dump`, and those of
-- `Hprof.LoadMeta`, `Heap.Objects` and `Heap.Edges`) run on fuel: each turn consumes at least one
-- byte, and the fuel is the number of bytes to skip or that are left, or one more. The walk of
-- `Heap.Walk` has one turn for each node and each edge. sort.Search has the length of the slice,
-- and build of buildLayouts one call more than there are classes. In
-- `Heap.Dominators` the path of compress and a bucket have at most as many nodes as Vertex, since
-- numbers fall along ancestors and a node joins one bucket; that these two suffice is not proved.
-- All other loops are structural.
--
-- Not modelled: routing, size limits and the encoding of responses; constructors and options, which
-- check for nil; flags and process set-up in cmd/rootforged; className of hprof.go;
-- names and labels of graph.go; rendering and strings of inspect.go; the commands and reports of
-- hprofx (main.go, cmds.go, cmd_amqp.go, util.go); the packages that hold only a package comment.
pub mod Prelude
pub mod Text
pub mod Dict
pub mod JsonFile
pub mod Sort
pub mod Platform
pub mod Investigation
pub mod Outbox
pub mod Trigger
pub mod Incident
pub mod Casefile
pub mod CaseStore
pub mod Intake
pub mod HttpApi
pub mod Clock
pub mod Failure
pub mod Hprof
pub mod Tests
pub mod Heap
