-- ===== src/Lib.antt =====
-- A model of the services behind an assistant for mailboxes, with the theorems that make it correct.
--
-- The program (src/ of the repository) is a NestJS server cut into bounded contexts. Messages of a
-- tenant's mailbox are classified, assessed for threats and prioritised; the verdicts are written back
-- to the mailbox as facets; events travel between the contexts through a table of events and a set of
-- queues. Each context has aggregates (classes with mutating methods that collect domain events),
-- repositories over one PostgreSQL database, and services that load an aggregate, call it and save it.
--
-- Which file models which part:
--
--   Threat       src/threat-detection: the value objects in Threat/Values, the aggregate
--                ThreatAssessment in Threat/Assessment, its stored form (toJson, fromJson) in
--                Threat/Json, its repository in Threat/Repository. Histories of calls stand in
--                Threat/History; the proofs in Threat/Locking, Threat/Policy, Threat/Score,
--                Threat/RoundTrip and Threat/Stored.
--   Writeback    src/mailbox-writeback: FacetApplication in Writeback/Facet, the failure reasons in
--                Writeback/Failure, the aggregate MessageWriteBackState in Writeback/State, the
--                repository and MessageWriteBackService in Writeback/Service, the adapters of the two
--                platforms in Writeback/Adapters; the proofs in Writeback/Platforms,
--                Writeback/Idempotence, Writeback/History, Writeback/Quarantine,
--                Writeback/Isolation and Writeback/Completion.
--   Classify     src/classification: RuleSignalEvaluator in Classify/Signals, the aggregate
--                MessageClassification in Classify/Labels, ClassificationService with its adapter and the
--                save of its repository in Classify/Service; the proofs in Classify/Outcome, and in
--                Classify/Headers what the classification reads of an envelope that the ingestion stores.
--   Rollout      src/classification/services: CanaryRolloutService in Rollout/Canary with its hash in
--                Rollout/Hash, GracefulDegradationService in Rollout/Degradation; the proofs in
--                Rollout/Slices, Rollout/Restart, Rollout/Hash and Rollout/Outages.
--   Identity     src/identity-access: ScopeSet in Identity/ScopeSet, the aggregate in
--                Identity/Authorization, the repository and MailboxAuthorizationService in
--                Identity/Service; the proofs in Identity/Scopes, Identity/Silence,
--                Identity/Revocation and Identity/Cascade.
--   Outbox       src/queue: EVENT_QUEUE_ROUTING in Outbox/Routing, OutboxRelayWorker.relay in
--                Outbox/Relay; the proofs in Outbox/Delivery, Outbox/Sweep, Outbox/Attempts and
--                Outbox/Healthy.
--   Billing      src/tenant-subscription: the aggregates Subscription and UsageMeter in
--                Billing/Subscription and Billing/Meter, the repository, the payment webhook and the
--                controller's change of plan in Billing/Service; the proofs in Billing/Versions,
--                Billing/Overage and Billing/Webhook.
--   Notify       src/notification-alerting: the preferences and the aggregate
--                NotificationSubscription with its stored form in Notify/Subscription, its repository in
--                Notify/Repository, AlertDispatch in Notify/Dispatch; the proofs in Notify/Authorized,
--                Notify/RoundTrip, Notify/Repository and Notify/CoolDown.
--   Ingestion    src/mailbox-ingestion: MessageEnvelopeFactory in Ingestion/Envelope, SyncCursor and the
--                adapters' cursors in Ingestion/Cursor, RateLimiterAdapter in Ingestion/Limiter,
--                src/database/tenant-transaction.ts in Ingestion/Database, the two repositories in
--                Ingestion/Messages and Ingestion/Connections, the worker and the controller of the
--                webhooks in Ingestion/Webhook; the proofs in Ingestion/Once, Ingestion/Quota,
--                Ingestion/Advance, Ingestion/Failures and Ingestion/Rejection.
--   Contacts     src/contact-graph: the signals and the score in Contacts/Classification, the aggregate
--                SenderProfile in Contacts/Profile, its repository in Contacts/Storage; the proofs in
--                Contacts/Personal, Contacts/Frequency, Contacts/Vip and Contacts/Announced.
--   Priority     src/prioritization/domain: ScoreComponent and ScoringWeights in Priority/Score, the
--                aggregate MessagePriority in Priority/Message; the proofs in Priority/Bounds,
--                Priority/Fractions, Priority/Escalation and Priority/RoundTrip.
--   Feedback     src/feedback-learning: CorrectionRecord with its value objects and its repository in
--                Feedback/Correction, SenderReputationCache in Feedback/Reputation; the proofs in
--                Feedback/Corroboration, Feedback/Reload, Feedback/Observations and
--                Feedback/MostLikely.
--   Api          src/common and src/api/v1: the guards, the decorator and the interceptor of a request in
--                Api/Guards, the controllers in Api/Settings, Api/Messages and Api/Mailboxes; the proofs
--                in Api/Access, Api/VipList and Api/Corrections.
--   Prelude      what these share: Boolean tests and equality, lists, maps and sets in insertion order,
--                integers and their texts, calls that throw, JSON values, UTF-16 units, and tables.
--
-- How code and model correspond. A class is a record, a method a function from the record to the new
-- record with the source's name in snake case, and a union of string literals a data type. A method
-- that throws is a `Result` with the message of the error, or an `Option` where only the fact matters.
-- Events that an aggregate collects are a field, without the time stamp that their constructor
-- adds; events that a service emits are returned. Every
-- reading of the clock is an argument, one per call. A JavaScript Map or Set is a list in insertion
-- order. Files outside the repository are parameters: a table is a record of the queries that the code
-- makes with their documented behaviour (Prelude/Store, and the records in Identity/Service,
-- Outbox/Relay and Ingestion/Database), and so are the mailbox platforms, the OAuth providers, the plan catalogue and the
-- message broker. Calls of one process are taken one after the other.
--
-- Numbers. Counters and times are natural numbers, and usage an integer. The score of a
-- lookalike domain and the weights of a sender's signals are counted in tenths and a confidence in
-- thousandths, where the source adds decimal fractions in floating point; the comparisons with the
-- thresholds are those of the exact values. The weights of scores and of reputations, whose rounding
-- matters, are types of their own with the operations that the code calls (Weighing in Priority/Score,
-- Weight in Feedback/Reputation) and the laws that a theorem uses. Numbers that are read from a text and
-- printed are exact up to 2 ^ 53. The
-- hash of a tenant is 32-bit arithmetic with its wrap-around written out. All loops are structural
-- recursion; only the printing of a number in decimal has fuel, which is the number itself and never
-- runs out, since each digit divides by ten.
--
-- Not modelled: network adapters, the remaining HTTP controllers (billing, OAuth, health), log lines,
-- wiring, the SQL schema, and the legacy copies of aggregates.
pub mod Prelude
pub mod Threat
pub mod Writeback
pub mod Rollout
pub mod Outbox
pub mod Billing
pub mod Identity
pub mod Contacts
pub mod Priority
pub mod Feedback
pub mod Ingestion
pub mod Classify
pub mod Api
pub mod Notify
