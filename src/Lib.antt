-- ===== src/Lib.antt =====
-- Verification library of the marketing agentic system: the task queue and its worker, the lifecycle
-- of a campaign, the approvals that gate it, the scheduling that follows a launch, the sending of e-mails,
-- the assignment of recipients to the variants of a test, unsubscribing, the
-- webhooks of providers, and the calendar of a strategy.
--
-- How the parts interact. An agent's work is a row of the task table (app/orchestrator/queue.py); a
-- worker (app/orchestrator/worker.py) claims a ready row, runs the handler that is registered for
-- its skill (app/orchestrator/registry.py) and settles the row. A campaign moves through its
-- lifecycle by `campaign_sm` (app/orchestrator/state_machine.py), whose guards read the campaign's
-- content assets and whose hooks write them and enqueue tasks. Reviewers decide on assets one by
-- one or in a batch (app/api/approvals.py); a decision may drive the campaign on. A launch gives
-- each approved asset a slot of the strategy's calendar and enqueues its dispatch
-- (app/agents/distribution.py); a pause, by a transition or by `pause_campaign`, cancels what
-- waits, and a resumption enqueues it again. The dispatch of an e-mail (app/agents/distribution.py) loads the
-- audience, keeps the slice that an A/B test gives the asset, leaves out whom it wrote to before or too
-- often, sends through the tool (app/tools/email_dispatch.py), which leaves out suppressed and
-- malformed addresses, records an attempt for each recipient, and may take the campaign live. A link in the
-- e-mail leads to app/api/unsubscribe.py, which adds a suppression. What a
-- provider reports comes in as webhooks (app/webhooks/dispatcher.py), whose handlers check a shared secret and
-- turn a body into events. The slots of a strategy are laid
-- out by app/agents/_calendar.py under the tenant's hard caps. Two other parts that are not modelled write a
-- campaign's status themselves: the assistant's tools (app/assistant/tools.py) and the analytics
-- agent (app/agents/analytics.py). A recipient of an asset under test sees the variant that was
-- first assigned (app/ab_testing/assignment.py).
--
-- Which file models what:
--   Common, Common/Tests, Common/Lists, Common/Text   names, Boolean tests, list lemmas and Python's
--                  string methods that the rest shares
--   Queue          the rows of `task` and all operations of app/orchestrator/queue.py: enqueue_task,
--                  claim_next, complete, fail, reap_expired_leases, cancel_queued_for_campaign; its
--                  children prove the invariant, the claims, the idempotency keys, the retries, the
--                  cancellation, and what happens when workers die
--   Worker         run_once with the registry, and its one child what a round leaves
--   Data           the rows of app/db/models.py and app/db/enums.py that are used, one database value
--                  that a function takes and returns, and the errors; Data/Agents the get-or-create
--                  functions of the agents' rows
--   StateMachine   Transition, register and apply; Guards and Machine the built-in guards, hooks and
--                  transitions; Registry, Graph, Submission and Launch the proofs
--   Distribution   Schedule holds schedule_approved_assets, Suspension pause_campaign and
--                  resume_distribution_for_campaign; Attempts, Recipients, Sends, Publishing and
--                  Email hold dispatch_email_asset; the other children prove what a launch, a
--                  pause, a resumption and a dispatch leave
--   Approvals      thresholds, edits and decisions of app/api/approvals.py, with require_role of
--                  app/api/deps.py; Endpoints the endpoints
--                  approve_asset and reject_asset and app/approvals/auto_advance.py; Batch the
--                  endpoint batch_approve; the other children are proofs, on the gate of an
--                  approval, the filters, counts and dry runs of a batch, what a rejection leaves,
--                  and the attempts to advance the campaign
--   Mail           the tables behind e-mails: audiences, suppressions, attempts, caps, settings
--   EmailDispatch  Address, Footer and Tool hold app/tools/email_dispatch.py; Screened is a proof
--   Unsubscribe    app/api/unsubscribe.py and the links that lead there; Tokens and RoundTrip the proofs
--   Webhooks       the tables, registry and loop of app/webhooks; Dispatcher dispatch_webhook, Handlers
--                  the built-in handlers; Ingested, Answers, Replay and Authentic the proofs
--   Calendar       enforce_hard_caps of app/agents/_calendar.py; Generation generate_calendar; Windows,
--                  Caps, Spread and Generated the proofs; Frequency detect_frequency_warnings;
--                  Crowded, Grouped and Warned the proofs
--   Content        the pure parts of app/agents/_content_planner.py and app/agents/_variants.py; Variants
--                  a proof
--   AbTesting      app/ab_testing/assignment.py: pick_variant_index and assign_variant; Buckets,
--                  Assigned and Stable the proofs
--   Examples       concrete rows, and each theorem at them
--
-- Conventions. A function that reads or writes the database takes it and returns the new one; a
-- request that raises returns an error and no database, because its transaction is rolled back. The
-- clock, the random jitter, the hash of a recipient, what other sessions lock or write in between,
-- the registered handlers, the e-mail provider, the signing of links, the reading of JSON, of ISO
-- times and of timestamps, the floating-point share of touches, and the errors of a write are
-- arguments, so that the theorems hold for all. UUIDs are numbers that a counter gives out, times
-- are microseconds, dates are days, amounts are cents; the source bounds none of these by a machine
-- width, apart from the small integers of `attempt`, `max_attempts` and `priority`, which the model
-- takes as natural numbers: a write of more than 32767, which raises in the database, is not
-- modelled. Where the source says nothing about the order of a query's rows the model keeps the
-- order of the table, and a set keeps the order in which its members came. Python's `strip` and
-- `lower` change ASCII blanks and letters only, and a handler reads the clock once. All loops of the
-- modelled code run over a list and are structural recursions, so no fuel is used.
--
-- Not modelled: the two hooks that seed content (app/agents/content_creator.py) and write the report
-- (app/analytics/report.py), which are the record `Hooks` of arguments; the dispatch of social posts
-- and the rate limits of providers; the worker's endless loops, which only repeat rounds; who acted,
-- in the audit entries; queries that only list; rows that the model assumes to be one and that are
-- two, at which a query raises, apart from the credentials of a provider; and everything that calls
-- a language model or a provider.
mod Common
pub mod Queue
pub mod Worker
pub mod Data
pub mod Distribution
pub mod Approvals
pub mod AbTesting
pub mod Mail
pub mod EmailDispatch
pub mod Unsubscribe
pub mod Webhooks
pub mod Calendar
pub mod Content
pub mod StateMachine
mod Examples
