-- ===== src/Lib.antt =====
-- The post-call processing pipeline: when a phone call ends, durable task rows carry its recording,
-- its LLM analysis and the follow-up work through retries, under a shared LLM quota.
--
-- Parts and files:
--  * Json, Models, Db, Context: the columns and rows of src/models, the tables inside one open
--    transaction as lists (flush, SELECT, UPDATE; the foreign key of a new task row, whose breach is
--    an IntegrityError), and what an operation reads from outside (clock, correlation id, uuid, one
--    random draw).
--  * Audit: src/services/audit_logger.py and src/services/token_ledger.py, the append-only tables.
--  * Dispatcher: src/scheduler/task_dispatcher.py. Each function of the file has its name here:
--    `enqueue_step`, `claim_due_tasks`, `mark_in_progress`; in Dispatcher/Outcomes `mark_completed`,
--    `mark_for_retry`, `mark_dead_letter`, `expire_stale_leases`. Dispatcher/Backoff, Attempts,
--    Exhaustion, Claims, Order, Enqueue and Sweep hold the proofs.
--  * Redis: the sorted-set commands that the limiter uses, as an interface with the documented effect
--    of each command; Redis/Model is a store that meets it.
--  * Limiter: src/scheduler/rate_limiter.py and its script src/scheduler/lua/check_quota.lua, which
--    Redis runs atomically. Limiter/Window, Totals, Quota, Settle, Isolation and Runs hold the proofs;
--    Limiter/Grants is the specification, a list of grants, and Limiter/Refinement compares the two.
--  * Budget: src/scheduler/budget_manager.py over the limiter, with Budget/Cache for the rows of
--    customer_llm_budgets that it keeps in the process. Budget/Counts, Tiers, Isolation,
--    Settlement and Reads hold the proofs.
--  * Workers: one attempt at each step, over the dispatcher. Workers/Downstream is
--    src/tasks/workers/signal_worker.py, lead_stage_worker.py and crm_worker.py with
--    src/services/signal_jobs.py; Workers/Recording is src/services/recording_poller.py with
--    src/services/recording.py; Workers/PostCall is the data of src/services/post_call_processor.py
--    with what src/tasks/workers/llm_worker.py makes of it, and Workers/Llm the rest of the worker;
--    Workers/Processor is the rest of the processor. Workers/RateLimit is the regular expression of
--    `_is_rate_limit_error`. Workers/Attempts, Probes, Polls, FanOut, Analysis and RateLimit/Pattern
--    hold the proofs.
--  * Backpressure: src/scheduler/backpressure.py over the budget manager's `utilization`, with exact
--    fractions in place of floats. Backpressure/Curve holds the proofs.
--  * Harness: `_process_one` of src/tasks/celery_tasks.py, around every worker. Harness/Dispatch
--    holds the proofs.
--  * Strings: the operations on texts that the classifier uses.
--  * Classifier: src/classifier/pre_classifier.py, from the transcript to the lane.
--    Classifier/Matching and Lanes hold the proofs.
--  * Endpoint: src/api/endpoints.py, `end_interaction` over the classifier and the dispatcher;
--    Endpoint/Loading is what it reads of the interaction. Endpoint/Rows, Outcome and Skipped hold
--    the proofs, and Endpoint/Agreement compares it with the properties of an interaction, which
--    Models/Transcript models.
--  * Crypto: src/security/transcript_crypto.py over Crypto/Library, the interface of AES-GCM, base64
--    and json. Crypto/Sealed holds the proofs.
--  * Dialler: src/api/dialler.py, over the backpressure controller and the budget manager.
--    Dialler/Update holds the proofs.
--  * System: the registered tasks of src/tasks/celery_tasks.py with their executors, and the program
--    as a step relation: calls end, messages are delivered, lost and repeated, pollers claim rows
--    and sweep leases, over the committed tables. Committed transactions are taken one after the
--    other. System/Keys, Evolution and Effects are about what a transaction may do to the tables;
--    Executors, Calls, Analyses, Deliveries, Requests and Polling show that each handler does no
--    more; Routing is about the messages, Charging about the token ledger, Changes and Invariant put
--    the steps together, and Handover shows what the workers after the analysis get of it.
--  * Observability: src/observability/logging.py, the context variables and the dict that a line is
--    made of; Observability/Values is `_make_serialisable`, and Observability/Setup the set-up of
--    the root logger. Observability/Lines holds the proofs.
--  * Metrics: src/services/metrics.py over the two commands of Redis that it uses. Nothing calls it.
--
-- The workers end an attempt through the dispatcher, which appends to the audit trail; the LLM worker
-- asks the budget manager first, and that asks the limiter for the customer's bucket and then for the
-- global one.
--
-- Bounds: no function runs on fuel; every loop is over a list. Numbers are unbounded as in Python.
-- Times are in microseconds (task rows) or milliseconds (limiter). Random draws are exact fractions.
--
-- Not modelled: which lines are logged, the SQL engine and Redis themselves, asyncio and Celery
-- scheduling, and the HTTP services. A transaction that raises is rolled back by its owner. Formatted texts
-- (f-strings) are arguments where they hold a number or an exception.
mod Prelude
pub mod Json
pub mod Models
pub mod Db
pub mod Context
pub mod Audit
pub mod Dispatcher
pub mod Redis
pub mod Limiter
pub mod Budget
pub mod Workers
pub mod Backpressure
pub mod Harness
pub mod Strings
pub mod Classifier
pub mod Endpoint
pub mod Crypto
pub mod Dialler
pub mod System
pub mod Observability
pub mod Metrics
