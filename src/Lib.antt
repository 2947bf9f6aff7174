-- ===== src/Lib.antt =====
-- Lead Engine: job leasing, job state machine, providers, facts, deduplication and domain rules.
--
-- A worker (runtime/worker.py) claims a job, runs its handler and reports through fenced writes;
-- the handlers call providers through the gateway and judge leads by the pure rules of domain/. An
-- older engine (lead_engine/) has its own jobs table with a manager and a queue, a router to its
-- providers, a store of facts and a pipeline that merges duplicate leads. All state but that of
-- the pipeline and of the rate limiter is in SQL tables, so a component is modelled as functions
-- on lists of rows, one function per statement or transaction, and what other connections do is a
-- history of such calls.
--
-- Prelude, Prelude/Tests, Lists, Texts: numbers, Boolean tests, lists and texts (lists of codes).
-- Sql, Sql/Keyed, Sql/Ordered: UPDATE, SELECT, COUNT, DELETE and ORDER BY … LIMIT on lists of
--   rows, and what they do to the row with a given primary key.
-- Job, Leasing, Leasing/Rows: runtime/leasing.py on the table runtime.jobs of
--   migrations/0008_runtime_events_agents.sql. A function has the name it has there: create_job,
--   claim_next, heartbeat, set_phase, save_checkpoint, request_cancel, resume_job, park,
--   wake_parked, complete, fail, reclaim_expired, apply_cancellation, finish_cancelled, get_job,
--   list_jobs, active_job_count, append_job_event. Leasing/Rows has the WHERE clauses (claimable,
--   fenced, lapsed, …) and SET lists (claim_row, …). Leasing/Calls, Steps and Histories make a
--   history of calls a list and say what it does to one row; Claim, Fencing, Ends, Attempts,
--   Reaper and Parking hold the properties.
-- Worker: runtime/worker.py, one turn of a worker (run_once); Turns is about the lease of a turn.
-- Domain/Verification, Scoring, Policy, Icp: domain/intelligence/verification.py and scoring.py,
--   domain/governance/policy.py, domain/acquisition/icp.py and domain/shared/types.py, each with a
--   child for its properties.
-- Jobs, Jobs/Transitions: lead_engine/jobs.py, the table TRANSITIONS and JobManager. Each
--   statement commits by itself (Database.execute of lead_engine/db.py), so a record Others is
--   what other connections commit between the statements of a method, and says whether the INSERT
--   into job_events succeeds. Jobs/Audit, Manager and Events: the trail of job_events; Finality
--   and Recovery: final states, restarts.
-- Queue: lead_engine/queue.py on the same rows as Jobs; `pg` tells PostgreSQL from SQLite.
--   Queue/Histories makes its calls a list; Leases, Attempts and Backoff hold the properties.
-- Outreach: lead_engine/policy.py, the suppression list and the gate that every send passes.
-- Relay: infrastructure/events/relay.py, OutboxRelay.tick (dispatch is one round of its loop) and
--   IdempotentConsumer (deliver, on_failure). Passes and Runs say what a step does to one event;
--   Limits is about histories of passes.
-- Gateway, Gateway/Ledger: infrastructure/providers/gateway.py with contracts/providers/base.py,
--   the effect ledger (reserve, complete), registration and the waterfall (execute).
--   Gateway/Booking and Waterfall: sums over the ledger, and what a request costs its job; Replay:
--   a request executed again.
-- Truth, Truth/Rows: lead_engine/truth.py, FactsStore. Recording is record_fact, Verdicts
--   verify_fact and resolve_conflict, Reading the freshness of facts and the snapshot of a field.
--   Truth/Histories makes the calls a list; Honesty, Keeping and Calls are about VERIFIED facts
--   and OPEN conflicts, Trail about what a row says, Views about snapshots. Notes has visited
--   pages and open questions.
-- Dedup: lead_engine/pipeline/dedup.py. Forest is the union-find of DedupEngine.run, Stages its
--   three stages, Merge the groups and _merge_group. Roots and Unions compare find and union with
--   plain roots; Domains, Clusters, Exact and Companies are about the domains of a group, Grouping
--   about the records.
-- Router, Router/Registry: lead_engine/router.py with lead_engine/registry.py, the request level
--   of lead_engine/cache.py, the daily budget of lead_engine/entitlements.py and rotate_key of
--   lead_engine/providers/base.py. Loops is about the loop over keys, Choice and Openness are
--   about who is called.
-- Tick: lead_engine/worker.py, run_worker_tick over the calls of Queue; Freed is about the lease
--   it ends.
-- LegalGate: lead_engine/pipeline/legal_gate.py, which records may be stored; Denial has its
--   properties.
-- Limiter: lead_engine/ratelimit.py, RateLimiter.allow; Bounds is about what it lets through.
-- Examples: the theorems on concrete inputs.
--
-- UUIDs, times and JSON documents are numbers and texts. A clock reading is an argument, and a
-- fresh UUID is an argument that the table may already hold. Counts are not bounded, as the
-- columns are int and bigint with values far below their limits. Two loops are on fuel. Dedup's
-- `find` has its index as fuel, which is enough as no parent is above its child; the router's loop
-- over keys has the number of keys and two more, as a turn that goes on uses up a key or one of
-- two retries. Each other loop is over a list. SHA-256, urlparse, SequenceMatcher and the
-- normalization of texts by regular expressions are parameters, and so is what an adapter returns
-- or raises. A history assumes that each call of runtime/leasing.py is one atomic step: FOR UPDATE
-- SKIP LOCKED of claim_next, which passes over a row that another claim has locked, is taken as a
-- claim that comes after it. Events of runtime.job_events are written with the row of a new job
-- and are not kept through a history.
--
-- Not modelled: HTTP APIs, the web front end, adapters of providers and of databases, pipeline
-- handlers, research agents, notifications, observability, migrations and deployment files.
pub mod Prelude
pub mod Sql
pub mod Job
pub mod Leasing
pub mod Worker
pub mod Truth
pub mod Dedup
pub mod Router
pub mod Tick
pub mod LegalGate
pub mod Limiter
pub mod Outreach
pub mod Domain
pub mod Jobs
pub mod Queue
pub mod Relay
pub mod Gateway
pub mod Examples
