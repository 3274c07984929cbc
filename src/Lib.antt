-- ===== src/Lib.antt =====
-- gcp-emulator-provisioner creates Pub/Sub topics and subscriptions, Cloud Storage buckets and local
-- service account key files from one YAML file, against emulators or Google Cloud. This library
-- models its core.
--
-- The parts of the program and the files that model them:
--   * internal/config/config.go is Config: Config/Schema (the types), Config/Strategy
--     (`EffectiveStrategy`), Config/GoTime and Config/Duration (`ParseDuration` and what it calls of
--     Go's packages time and strconv), Config/Names (the name patterns), Config/Expand
--     (`expandEnvVars`, `expandMap`, `expandConfig`; Config/Expand/Texts lists what they reach),
--     Config/Validate with its children (`validate` and every check that it calls, in the order of the
--     code) and Config/Load (`Load`).
--   * internal/client/pubsub.go and internal/client/storage.go: Client/Resources has the
--     transport-neutral types, Client/Errors the errors and the tests on them, Client/Messages what the
--     code uses of the messages of Pub/Sub, Client/Convert `toProtoSubscription` and
--     `fromProtoSubscription`, Client/PubSub the calls of `PubSubClient`, Client/Connect
--     `ConnectPubSub`, and Client/Storage `StorageClient` with `ConnectStorage`.
--   * internal/provisioner: Provisioner/Admin (options and interfaces), Provisioner/Labels,
--     Provisioner/Topics, Provisioner/Subscriptions with its children, Provisioner/Buckets,
--     Provisioner/Update (`applyPaths`), Provisioner/Keys (`ensureCredential`) and
--     Provisioner/Sections (`ProvisionPubSub`, `ProvisionStorage`, `Run`). Provisioner/Readback,
--     Provisioner/Served and Provisioner/Buckets/Served put the handlers over the clients of
--     internal/client, Provisioner/Sendable has why what they send fits into a message, and
--     Provisioner/Frame follows what a run leaves as it was.
--   * internal/credentials/credentials.go is Credentials.
--   * internal/client/client.go is Client/Retry (`retryUntilReady`), and Client/Paths has the names of
--     resources in internal/client/pubsub.go, Client/Endpoint the address of internal/client/storage.go.
--   * cmd/gcp-emulator-provisioner/main.go is Command (`run` and what it reads of the environment),
--     Command/Connect (`connectPubSub`, `connectStorage`) and Command/Main (`main`).
--   * cmd/gcp-token-stub/main.go is TokenStub, with the handler in TokenStub/Handler. Logging has the
--     levels of the log of both commands.
--   * Samples and the modules named Tests hold data and runs at that data.
--
-- How they interact: `Load` reads, expands and validates a configuration; `Run` goes through the
-- credentials, the topics, the subscriptions and the buckets in that order. Each handler looks a
-- resource up through an interface, compares it with the one that it builds from the configuration,
-- and creates or updates it. Provisioner/Effects gives the handlers their state: the world behind the
-- interfaces and the log so far. What was done before an error stays done. The clients implement the
-- interfaces of the handlers over the interfaces of the Google Cloud libraries, and the command opens
-- them before the run and closes them behind it, the last one first.
--
-- How the code is represented: a Go string is a list of bytes, a map an association list in the order
-- of iteration, a pointer an option, a `time.Duration` or `int` an integer with the wrap-around of
-- `int64` written out where the code can reach it. A validation error is the path and the kind of
-- problem with the values that its message quotes. The log keeps the lines that name a resource at
-- the levels info and warn.
--
-- Parameters: the services behind `PubSubAdmin` and `StorageAdmin`, the operating system and the
-- cryptography (the record System), the reading of files, the parser of YAML and the environment (the
-- record Sources), and the functions of Go's library that rest on Unicode tables, floating point or a
-- grammar of their own (the record Runtime). Provisioner/Service states what internal/provisioner/update.go
-- says of a Pub/Sub service: it checks a whole mask before it touches a resource. The clients of
-- package apiv1 and package storage are interfaces, with their constructors in PubSubLibrary and
-- StorageLibrary; package durationpb is the record Durations with its documented laws; the passing of
-- time is the record Clock. Of package http the token stub takes the answer to a client, the end of a
-- server and the cleaning of a path.
--
-- Fuel: the parser of durations recurses on fuel equal to the length of its text; Config/GoTime/Rounds
-- has why that is enough. `retryUntilReady` recurses on the number of attempts that are left, which the
-- code bounds by 16. All other loops are structural.
--
-- Not modelled: the parsing of the command line and the delivery of signals, which are the standard
-- library's, the transport behind the clients and behind the server of the token stub, lines of the log
-- at the level debug and those that name no resource, and the texts of validation messages.
pub mod Prelude
pub mod Config
pub mod Runtime
pub mod Logging
pub mod Client
pub mod Provisioner
pub mod Credentials
pub mod Command
pub mod TokenStub
pub mod Samples
