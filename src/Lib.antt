-- ===== src/Lib.antt =====
-- keyrus: the Ledger of merchants' entries, the publisher of its events, and the rules of the service
-- that consumes them.
--
-- The Ledger (services/ledger) confirms entries and their reversals in PostgreSQL, numbers the entries
-- of each merchant, answers a repeated request from the stored response of its idempotency key, and
-- writes one event for each entry into an outbox in the same transaction. A publisher process leases
-- events of the outbox, hands them to RabbitMQ and marks them. The consolidation service
-- (services/consolidation) reads the events, keeps daily balances from them and reports how current
-- they are.
--
-- Files of the Ledger, with the code under services/ledger/internal that each one models:
--
-- - Base and below: arithmetic tests, lists, results, byte texts, decimal and hexadecimal notation,
--   dates of package time, and patterns of characters. No code of the repository.
-- - Ledger/Errors: domain/errors.go, application/errors.go.
-- - Ledger/Money: domain/money.go (NewMoney, ParseBRL, String). Money/Parse and Money/Accepts compare
--   ParseBRL with a relation between texts and amounts.
-- - Ledger/Identifier: domain/id.go (ParseID, NewUUIDv7), with its patterns in Parse and Generate.
-- - Ledger/Traceparent: application/traceparent.go (ValidateTraceparent).
-- - Ledger/Entry: domain/entry.go (ParseEntryType, Opposite, NewEntry, NewReversal); rules in Rules.
-- - Ledger/Calendar: domain/calendar.go (ParseBusinessDate, NewCalendar, Resolve); its window of days
--   in Window.
-- - Ledger/Tables: the four tables of the migrations, and transactions as state passing that stops at
--   the first error.
-- - Ledger/Store: adapters/outbound/postgres/repository.go, one function for each statement, with the
--   constraints that can refuse it; Store/Read has the readers of a transaction.
-- - Ledger/Wire: the inputs, results and event payload of application/service.go.
-- - Ledger/Service: application/service.go (CreateEntry, ReverseEntry, executeIdempotent). Steps inverts
--   a successful run, Keeps carries an invariant through executeIdempotent, Invariant and Settled are
--   the invariants of the tables, Replay and Again are repeated requests.
-- - Ledger/Reader: GetEntry, OwnerOf and SourcePosition of both files, and in Watermark what a position
--   says.
-- - Ledger/Outbox: outbox/store.go (Claim, MarkPublished, MarkFailed); Leases and Steps say who may
--   change an event, Backoff is retryDelay and Worker is NewWorker, publishOne and ProcessOnce of
--   outbox/worker.go, Worker/Publish when an event becomes published.
-- - Ledger/Tests: runs on concrete inputs.
--
-- Files of the consolidation, with the code under services/consolidation/internal:
--
-- - Consolidation/Event: domain/event.go (ParseEntryConfirmed, Validate, Canonical, FinancialEffect) and
--   ClassifyFailure of application/projector.go; Event/Rules and Event/Canonical say what passes.
-- - Consolidation/Contract: the payload of the Ledger's insertOutbox against the consumer's rules.
-- - Consolidation/Days: the rows of daily balances of one merchant and the SQL statements of
--   adapters/outbound/postgres/store.go on them; Days/Closing, Days/Fill, Days/Totals and Days/Keeps say
--   what the statements keep and close.
-- - Consolidation/Projection: the tables of the store, its constraints, advanceProgress and
--   processRecomputeBlock.
-- - Consolidation/Store: Apply, resolveDuplicate, ResumeNext and the reads of the same file. Store/Steps
--   and Store/Calls say how a call ends. Store/Refines and Store/Runs compare the totals with the inbox,
--   Store/Gaps the progress with the receipts, Store/Once is redelivery, Store/Conflicts a
--   reused identity, Store/Queue the recompute jobs,
--   Store/Settled and Store/Resumed the closing balances, and Store/Closings what Balance answers.
-- - Consolidation/Projector: Apply, ApplyPayload and ResumeRecompute of application/projector.go.
-- - Consolidation/Query: the state of an answer in application/query.go, MerchantProgress of
--   domain/balance.go.
-- - Consolidation/Answer: GetDailyBalances of application/query.go, where each of its three reads sees the
--   tables as they are by then. Answer/Complete is what a definitive answer has seen.
-- - Consolidation/Consumer: adapters/inbound/rabbitmq/consumer.go (processDelivery,
--   classifyApplyFailure, escalate, backoffDelay) with the rows of
--   adapters/outbound/postgres/pending_store.go that it writes;
--   Consumer/Acks says which deliveries are acknowledged, Consumer/Outcomes how often one comes back.
-- - Consolidation/Reconciliation: internal/reconciliation/worker.go (Reconcile, streamSourceEntries,
--   attemptStream, compareEntrySets). Reconciliation/Counts and Reconciliation/Converged say when a
--   comparison finds no difference, Reconciliation/Runs what is persisted.
-- - Consolidation/DeadLetters: internal/reconciliation/dlq.go (Reprocess); DeadLetters/Replays says what
--   a replay keeps and counts.
-- - Consolidation/Tests: runs on concrete inputs.
--
-- Files of what both services share, with the code under internal/platform:
--
-- - Access: HasAll of auth/identity.go, PublicEdgePolicy and Authorize of auth/policy.go, and Authorize of
--   tenancy/guard.go, with Access/Owners on the latter and Access/Tests. OwnerOf is the argument that
--   stands for its answer.
--
-- How the state corresponds. A table is the list of its rows, newest first where rows are appended. A
-- call of a use case is a function of its input, of the tables, and of what it draws from its clock,
-- its generator of identifiers and the commit (Draws). Row locks make the writers of one merchant wait
-- for each other, so calls are sequential steps. A statement that PostgreSQL refuses ends the
-- transaction, and the tables are as before. Identifiers are kept in lower case in uuid columns. Instants
-- are natural numbers, dates are of year 0 and later, texts are lists of bytes, and a description is
-- its list of code points.
--
-- SHA-256, JSON, the jsonb column and the time zone database are fields of the record Platform, with
-- two laws: a stored result is read back as it was written, and an empty text is no JSON. RabbitMQ, the
-- clock and the random factor of the publisher are fields of a Round. SHA-256, RFC 3339 and the clock of the
-- consolidation's store are fields of StorePlatform. The JSON decoder and the RFC 3339
-- timestamps of the consumer are fields of Decoder; the order in which Go visits the map in Validate is
-- a list.
--
-- Bounds. Money and positions are checked against the int64 range that the code and the bigint columns
-- have. The loops are structural: the steps of retryDelay count down from the attempt, and a batch of
-- ProcessOnce has one round for each of its at most BatchSize events. The recursive query for the
-- contiguous position has the fuel of the positions up to the source position, where the query stops,
-- and a recompute block covers at most 31 days. Reconcile has the three attempts of its code.
--
-- Not modelled: ListEntries and the cursors of the Ledger, the gRPC adapters, the verification of tokens,
-- RabbitMQ confirms and topology, metrics and logs, and of the consolidation its connection to RabbitMQ.
pub mod Base
pub mod Ledger
pub mod Consolidation
pub mod Access
