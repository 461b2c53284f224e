-- ===== src/Lib.antt =====
-- Verification of CasaOS-Common, the Go packages that the CasaOS services share: pkg/stats, which records
-- measurements minute by minute, answers queries and raises alerts; the gateway port watcher, the internal
-- secret and the client of the user service in external/; and utils/version, utils/jwt, the start scripts of
-- utils/command and the archives of utils/file.
--
-- How the program works: a service records samples into a store (pkg/stats/store.go), which sums up the
-- samples of a minute and commits them when the next one starts. Each item has a ring file of 10080
-- minutes (pkg/stats/ring.go): two checksummed copies of a header, a column of stamps and three
-- columns of 32-bit floats for each series. Each committed minute of an item goes to the evaluator
-- (pkg/stats/evaluator.go), which counts runs of high minutes against the rules of the item
-- (pkg/stats/rules.go), fires and resolves alerts, saves its state as JSON and hands the events to a
-- callback through a queue.
-- The services of a box trust a request that comes from loopback with the secret that the gateway wrote at its
-- start (external/internal_auth.go). They take the key that signs tokens from the user service, or let it parse a
-- token, and keep the last key and the tokens that it refused (external/user_service.go). Downloads of several
-- files are archives that are written while their trees are walked (utils/file/file.go).
--
-- Common: names and lemmas shared by all parts; Common.Text for strings as lists of bytes, Common.Int
-- for signed integers, Common.Map for Go maps as association lists.
-- Stats.Errors, Stats.Limits: the error values and constants of pkg/stats/types.go.
-- Stats.Floats: float64 and float32 as an interface of operations and laws, since the proofs use no
-- more of them; Stats.Floats.Toy satisfies it.
-- Stats.Ring: pkg/stats/ring.go. Buffer, Layout and Disk are the memory and the file, Header and its
-- children `encodeHeader` and `decodeHeader`, Write `writeHeader`, `addSeries`, `setForgotten` and
-- `writeMinute`, Open `createRing`, `openRing` and `parseRing`, Window `readWindow` and
-- `newestMinute`. State passes through a monad; each write and sync of a header, a series or a minute may
-- fail, and a failing write may be cut short at any byte. The calls of `createRing` and `parseRing` have outcomes
-- as arguments, and those of a window or of the newest minute a file each, since a reader takes no lock.
-- Recover, Create, Torn, Durable and Forget are proofs about the header, Words to Lookup about the minutes.
-- Stats.Rules: pkg/stats/rules.go.
-- Stats.Evaluator: pkg/stats/evaluator.go. Item has the state of one item and `onMinute` on it, Machine
-- the state of the evaluator, `OnMinute`, `rules`, `put`, `save`, `Resolve` and `Prune`, Reconcile and Settings
-- `reconcile`, `Rebuild` and `SetRules`, Queue `do` and `drain` as steps of goroutines in any order.
-- There the modules Key, Minute, Run and History take `onMinute` apart into one machine for each key,
-- Recount, Agree and Backwards treat `reconcile`, and Drain the drainer of the queue left alone. Load has `newEvaluator` and `load`, Replace `writeFileAtomic` with the
-- files as they are after each call. Invariant, Sound, Kept, Loaded and Calls have what holds between
-- operations, from the file on.
-- Stats.Store: pkg/stats/store.go, over the interface Rings of what it calls of a ring, which Files fills with
-- the operations of Stats.Ring on rings whose published mark is that of the header. Sample has `clean`
-- and the sums of the pending minute, Entry `commit` and `record` of one item, State the store and `entry`,
-- Calls `Record`, `Forget` and `remove`, Sweep `Sweep`, Reads `Items` and its kin, Lifetime `open` and `Close`. Entries are shared by
-- pointer, so the store is a heap of entries with a map from names to indices; what other calls do while a
-- Record holds no lock is a function of the store. Counts, Held, Invariant, Safety, Answers, Values, Totals,
-- Minutes and Steady are the proofs.
-- Stats.Query: pkg/stats/query.go, with `buckets` against the minutes in Buckets and the times of an answer
-- in Grid. Stats.Units: pkg/stats/units.go and `ParseRange`.
-- Stats.Live: pkg/stats/live.go. Stats.Partial: `IsPartial` of pkg/stats/types.go.
-- External.GatewayPort: external/gateway_port_watcher.go. Config reads gateway.ini, Refresh has the state of a
-- watch and `refresh`, Watch `Watch` and its two loops over a list of the cases that their selects took; Reads
-- finds the configs read without their state. Reports, Polling and Stops are proofs.
-- External.InternalAuth: external/internal_auth.go, with the file of the secret as a value. External.UserService:
-- external/user_service.go; what a request gives is an argument of each call, and the cache of the package ecache
-- an interface of what that documents. Refusals and Keys follow sequences of calls.
-- Utils.File: parts of utils/file/file.go. Archive has `archiveWriter`, and an archiver as any program that writes
-- through it; Walk `addTree` over the visits of WalkDir and `WriteArchive`; Sized `openSame` and `sizedFile`;
-- Prefix `CommonPrefix`. Refused, Perfect, Fed and Whole are the proofs about WriteArchive.
-- Utils.Version: utils/version, with `ParseVersion` and `Compare` in the parent, Legacy and Words for
-- version.go and Migration for migration.go. Utils.Command: `ExecuteScripts` of utils/command/command.go, with
-- the proofs in Output, Shebang and Scripts. Utils.Jwt: utils/jwt/jwt.go and authorization.go, over the interface
-- Tokens of what golang-jwt documents, and jwt_helper.go in Keys, with base64 in Base64.
--
-- Integers: fields of the file are machine words, written with `% 2 ^ w`. Minutes and times in memory
-- are integers without a bound: the int64 of the source is wide enough for any clock. Recursion is on
-- the structure of lists and on numbers of cells, so no fuel is needed, but for the bytes of a big.Int, which are
-- at most as many as the number itself.
--
-- Parameters: the CRC-32 checksum is any function into 32 bits; json.Marshal, utf8.ValidString,
-- filepath.Clean and the outcomes of calls of the file system are arguments of a model, as are the values
-- that the ini package reads, the run of a process and the answer of an HTTP request. Strings of utils/version and utils/jwt, tokens,
-- secrets and shebang lines are ASCII. The rounds of a Record that other calls disturb, and the cases that a select takes, are
-- lists of any length.
--
-- Not modelled: the locks of the store and of the evaluator; in utils/file what only calls the file system
-- (copies, moves, sizes), the names of duplicates and os-release; the clients of the gateway, the message bus and
-- the other services, which are requests and JSON without state; the rest of utils/, middleware/ and model/, most
-- of which are wrappers of the system or tables; and the generated codegen/.
pub mod Common
pub mod External
pub mod Stats
pub mod Utils
