-- ===== src/Lib.antt =====
-- pbuf-registry: a registry of protobuf modules. Modules have stable tags, each with its files and
-- its dependencies on tags of other modules, and draft tags that expire. The repositories of
-- internal/data keep them in PostgreSQL, the middlewares of internal/middleware decide who may
-- call what, and internal/background compares the versions of a module for drift.
--
-- Prelude holds the Boolean tests, the list helpers and their lemmas. Database models what all
-- repositories share. Tables has the rows of the tables and the Go structs they are scanned into.
-- Io is a call of a repository: a function from a World, which has the tables and the answers that
-- the database will give, to a result and a World. Each statement takes the next answer, so a
-- statement may fail anywhere; what was written before stays, unless a transaction is rolled back.
-- Keeps, Triples, Outcomes, Rows, Total and Quiet are the rules by which properties of calls are
-- proved: of the tables after any outcome, of the value of a call that succeeds or of the error of
-- one that fails, and of calls that never fail. Where the code does not ask rows.Err(), the rows
-- of a result may be cut short without an error. Errors has the errors of the repositories and of
-- the middlewares. The SELECTs without ORDER BY of PullModule and GetModuleDependencies give their
-- rows in any order, the others in the order of their insertion, which PostgreSQL does not
-- promise; Orders is about the rows that are read.
--
-- Registry models internal/data/registry.go (registryRepo). Modules: RegisterModule, GetModule,
-- DeleteModule. Tags: PushModule, PullModule, GetModuleTagId, DeleteModuleTag. Drafts:
-- PushDraftModule, PullDraftModule, DeleteObsoleteDraftTags; the JSON library is the record Json.
-- Dependencies: AddModuleDependencies, GetModuleDependencies, GetTransitiveDependencies, whose
-- loop runs on fuel and returns none when the fuel is spent; as many rounds as there are direct
-- dependencies and stored tags are enough, since a tag enters the queue once. Calls puts the
-- operations into histories; WellFormed, Invariant, Frozen and Immutable are about histories,
-- Pulls about pulls, Pushed and Repushed about pushes, Transitive and Ends about the search for
-- transitive dependencies. ListModules is not modelled: its query is a text put together from a
-- decoded token.
--
-- Access models internal/data/acl.go (Acl), internal/data/users.go (Users; pgcrypto's crypt is a
-- parameter), getRequiredPermission of internal/middleware/authz.go (Requests), the middlewares of
-- auth.go, authz.go and config.go (Middleware) and their installation in internal/server/grpc.go
-- and http.go (Server). Checks, Authorized, Grants and Closed are about them, and Policy about the
-- methods of api/pbuf-registry/v1 and the permissions that they need.
--
-- Drift models internal/background/driftdetection.go: Numbers is parseProtoNumber and the keys of
-- fields, Protos the parsed files, Extract the maps made of them, Severity the severity of a
-- change; Store has the reads of internal/data/drift.go and internal/data/metadata.go that
-- detectDrift makes, and Detect is detectDrift. Maps are association lists in which a key stands
-- once. A number of 32 bits has at most ten digits, which bounds the printing of numbers. Declared
-- says what a file declares without the maps; Puts, Collected, Compatible, Breaking, Versions and
-- Detected are about them. Events, Hashes and Statuses are the other operations of
-- internal/data/drift.go, with SHA-256 as a parameter, and Recorded, Hashed and Worst are about
-- those.
--
-- Metadata models internal/utils and internal/data/metadata.go: Texts the functions of Go's
-- `strings`, Refs, Retrieve, Packages and Metadata the metadata of parsed files, Parsers the
-- parsing and the validation of files with go-protoparser as the record Parser, Store the metadata
-- repository. A nil body, on which the code panics, makes these functions return none. Daemons is
-- internal/background/protoparsing.go and compaction.go. Processed, Kept, Runs, Gathered and
-- Bounds are about them.
--
-- Servers models the handlers of internal/server: Api what they share, Users users.go, Registry
-- registry.go, Metadata metadata.go and Drift drift.go; Tokens and Accounts are about the users,
-- Published and Pushes about pushes and pulls. UUIDs are texts there, read and written by
-- parameters, and random bytes are a parameter.
--
-- Sqlite models the repositories of internal/data/sqlite: Users users.go, with sha256hex of db.go
-- as a parameter, Acl acl.go, and Modules RegisterModule, GetModule, GetModuleTagId and
-- DeleteModule of registry.go. A parameter says which connections enforce foreign keys, since Open
-- turns them on for one connection of the pool. Tokens, Granted and Removed are about them.
--
-- Not modelled: the rest of registry.go, drift.go and metadata.go of internal/data/sqlite,
-- ListModules, generated code, configuration and process start-up. UUIDs are numbers, times are
-- numbers of microseconds, of seconds in SQLite, and requests run one after another.
pub mod Prelude
pub mod Database
pub mod Registry
pub mod Access
pub mod Drift
pub mod Metadata
pub mod Servers
pub mod Sqlite
