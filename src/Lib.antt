-- ===== src/Lib.antt =====
-- The ACH payment retry orchestrator: a payment is created over HTTP, a Temporal workflow sends it
-- to the ACH network, waits for 72 hours for a return, routes the return code, and presents the
-- payment again at most twice. PostgreSQL holds the payments and an append-only audit log of their
-- states; Redis holds the trace numbers that were sent.
--
-- The parts, and the files that model them:
--
-- - internal/domain: Domain/Payment (PaymentState, Payment), Domain/Rules (AllowedTransitions,
--   IsTransitionAllowed, IsTerminalState, RetryDelayFor) and Domain/Rcode (rCodeTable, the map that
--   init builds, RouteRCode, AllRCodeDefinitions). A Go map is an association list; a lookup of a
--   missing key is `none`.
-- - internal/db: Db/Repository has each method of the repository as a function on the tables, which
--   are lists of rows in the order of insertion (World/Tables). A method that changes its argument
--   `*p` returns the new value.
-- - internal/redis: Redis has the client; the keys stand in the world with the time at which they
--   expire.
-- - internal/activities: Activities has the activities that the workflow calls.
-- - internal/workflow: Workflow/Types, Workflow/Helpers and Workflow/Loop have PaymentWorkflow with
--   its helpers. Each round of its loop takes one event, which says what its selector waited for:
--   the settlement timer or a signal. The list of the events is an argument; when it is used up,
--   the result is `waiting`. Workflow/Spec has the abstract life of a payment for the same events.
--   Workflow/Channel has the selector itself, which gives the events from the times at which
--   signals arrive and selectors start; those times are arguments.
-- - internal/activities/notify_webhook.go: Webhook has NotifyWebhook, over the HTTP client, the
--   cancellable wait and the encoder as a record of parameters.
-- - internal/nacha: Nacha/RecordType, Nacha/Parser (ParseFile) and Nacha/Generator
--   (GenerateReturnFile), over bytes. A slice that is out of range is `none`; the texts of the date
--   and the time are arguments.
-- - internal/simulator: Simulator has both ways to signal a return, over the Temporal client as a
--   parameter.
-- - internal/api/handlers.go: Api/Responses has the requests and answers, Api/Handlers the handlers
--   behind the decoder, Api/Router the routes. An answer is a status with the value that is
--   encoded. The number parser, the Temporal client, the reader of UUIDs, the fresh UUID and the id
--   that the database drew for the row of an audit entry are parameters. System and System/Settled
--   follow a payment from its creation to the endpoints that show it; System/Quiet has
--   ExecuteWorkflow there as a run of PaymentWorkflow on the input and the events of its id.
-- - internal/api/health.go: Api/Health has the three goroutines as steps on their statuses and the
--   mutex, one goroutine at a time in any order, and the answer. The error of each call is a
--   parameter.
-- - cmd/server, cmd/worker, NewRepository and NewClient: Process has `main` as a function with its
--   effects, its deferred calls and its exits; Cmd, Cmd/Server and Cmd/Worker have the two programs
--   over the environment, the answers of the services, and the registry of the Temporal worker.
--
-- A Go function that has effects is an `Action` (World/Monad): it takes the world and returns a
-- result, a value or an error, with the world after it. The world (World/Tables) is the store, a
-- clock in nanoseconds, and a script that says which of the next calls of a service fail. A panic
-- is an error (`nil_pointer`, `out_of_range`). Texts are lists of bytes. Times and counts are
-- natural numbers: none is ever negative.
--
-- Services/Contract is the interface to code that is not in this repository: the transactions of
-- pgx, EXISTS and SET NX of Redis, the execution of an activity and the sleep of Temporal, the
-- text of a UUID, and what PostgreSQL keeps of an amount and of a time. It is a record of operations and laws. A transaction is all or nothing, though
-- the answer to its commit may get lost; an activity runs at least once and at most as often as its
-- options allow, or Temporal gives up, and nobody else touches the payment in between, since its
-- workflow is the only writer. Services/Simple meets the contract with concrete functions, so that
-- the theorems have witnesses and the code runs in Tests. Services/Healthy says what it means that
-- no service fails; Activities/Healthy, Workflow/Progress and Workflow/Completion are about such
-- runs.
--
-- The loop of the workflow is structural recursion on the events, that of the parser on the lines,
-- and `decimal` has fuel 20, which is enough for an int64. World/View says what the store holds of
-- one payment; the theorems on the workflow are about this view. Workflow/Frame and Workflow/Keeps
-- have the rules for what every run keeps of a payment, its own or another one; Workflow/Evolution,
-- Workflow/Invariant, Workflow/Isolation and Workflow/Notice apply them. Db/Update writes out what a
-- step leaves in the row and in the audit log; Workflow/Submissions and Workflow/Refused count what
-- SubmitToACH sends.
--
-- Not modelled: log lines, other than the one by which SubmitToACH sends; contexts and timeouts;
-- the decoding of columns, whose failure is a failure of the call; the constraints of the tables,
-- other than the primary key of payments; the matching of routes and the encoding of
-- answers (internal/api); the settings of the HTTP server; the dashboard.
pub mod Base
pub mod Domain
pub mod World
pub mod Services
pub mod Db
pub mod Redis
pub mod Activities
pub mod Workflow
pub mod Nacha
pub mod Simulator
pub mod Webhook
pub mod Api
pub mod System
pub mod Process
pub mod Cmd
pub mod Tests
