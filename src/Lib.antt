-- ===== src/Lib.antt =====
-- Legal workbench: the domain layer of the backend, apps/backend/src/legal_workbench, with some of the
-- services over it: a service in which messages from Feishu are analysed by agents, become candidates,
-- matters and work items, and end in reviewed replies.
--
-- Parts, with the file or folder that models each. Paths are those under
-- apps/backend/src/legal_workbench. A folder holds the definitions' laws and, in Examples, instances.
--   Prelude      domain/errors.py, domain/common.py: exceptions, datetimes; strings, lists, JSON values
--   Feishu       domain/feishu.py: Message (FeishuMessage.transition_to), Checkpoint
--                (FeishuSyncCheckpoint.claim, renew, succeed, fail), Authorization
--                (FeishuOAuthAttempt.consume, FeishuUserAuthorization.rotate, clear_pending_rotation)
--   Candidate    domain/candidates.py: MessageCandidate and its methods
--   WorkItem     domain/work_items.py: WorkItem.create, apply, confirm_priority,
--                touch_dependency_change, and WorkItemDependency
--   Agents       domain/agents.py: Attempt (AgentRunAttempt with its lease), Run (AgentRun), Plan
--                (AgentPlanStep, AgentExecutionPlan.ready_waves, validate_steps)
--   Proposal     domain/matters.py: MatterUpdateProposal.create, review, supersede
--   Review       domain/reviews.py: ReviewPackage, ReviewRecord, Communication
--   Knowledge    domain/knowledge.py: KnowledgeDocument.update_metadata,
--                is_current_formal_legal_basis
--   TokenBudget  application/token_budget.py: split_text_for_token_budget,
--                select_budgeted_knowledge
--   AttemptStore application/agent_attempts.py (Service: AgentAttemptService and
--                AgentExecutionLeaseService) over SqlAlchemyAgentRunAttemptRepository of
--                infrastructure/repositories.py (AttemptStore itself)
--   Audit        domain/audit.py, application/idempotency.py: audit events, outbox events, and the
--                records by which a repeated request is answered
--   WorkItemService  application/work_item_lifecycle.py: WorkItemLifecycleHandler.execute and
--                ResolveDependencyHandler.execute (Action, Resolution); application/workflow_handlers.py:
--                CreateDependencyHandler.execute (Creation); laws in Effects, Replay, Blocking
--   Eligibility  application/message_analysis_eligibility.py: MessageAnalysisEligibility.evaluate
--   AnalysisGate application/automatic_analysis_gate.py: request_if_allowed, with exists_pending and add
--                of infrastructure/repositories.py
--   Outbox       infrastructure/outbox.py: OutboxDispatcher (Outbox itself: claims and failures;
--                Requeue: dead letters; Delivery: sending a communication; Dispatch: OUTBOX_HANDLERS and
--                publish_batch; Steps: several workers as a step relation)
-- A message that goes through its statuses starts a run of an agent; workers hold attempts of that run
-- by leases; the run ends in a candidate; a person decides the candidate; work items carry the work on
-- a matter; a review package approves the text that a communication sends. Knowledge documents are
-- selected under a token budget for the prompt of a run. The handlers write an outbox event in the
-- transaction of each change; the dispatcher claims the events, starts tasks and sends communications.
--
-- Correspondence. A class is a record with the source's fields, an enum a data type, a method a
-- function of the same name without the leading underscore that takes the record and returns the new
-- one, or the exception, as a Result. `validated` is `__post_init__`. A method of the source raises
-- before it writes, so an exception leaves the object as it was: `after`. A history is a list of calls
-- (`Call`, `perform`, `run`). A table is a list of rows (Prelude.Rows), a transaction a function from
-- tables to tables; one that raises writes nothing. In Outbox.Steps each transaction of a worker is a
-- step, and a call to the client of Feishu lies between two of them.
--
-- Parameters. `clock` is the time that utc_now reads, `id` a fresh uuid4, `hash` the function text_hash
-- (SHA-256), `render` is str() on values that are no strings. A Codec is a printer with its parser and
-- the law that parsing undoes printing (UUIDs, numbers). Library holds what the work item handlers use of the
-- standard library, World what a dispatch meets: whether the task queue takes a task, what the client
-- answers.
--
-- Abstractions. Messages and details of exceptions are left out. UUIDs are numbers, strings lists of
-- code points, dates day numbers, floats their bit patterns. Comparing a timezone-aware datetime with a
-- naive one raises TypeError, as Python does. A version is a natural number: it starts at 1 and only
-- grows. The versions that SQLAlchemy counts when it writes a row (version_id_col) are left out: the
-- dispatcher does not read those of communications, and the work item handlers assign their own.
-- JSON values keep datetimes apart (Prelude.Values.is_json): json.dumps refuses them, so the audit
-- event of an action that has a deadline is not stored. The clock of the database, which the updates
-- of attempts read, may differ from that of the worker.
--
-- Fuel. Agents.Plan.waves has one unit for each step of the plan and removes at least one step for
-- each unit. TokenBudget.pieces has one unit for each character of the text and moves on by at least
-- one character.
--
-- Not modelled: the constraints of the database beyond primary keys, the key of idempotency records and
-- the unique columns of attempts (so the unique original_event_id of a dead letter is not), the queues,
-- the HTTP interface, the agents' processes, the Feishu API, the application services that are not named
-- above, and the user interface.
pub mod Prelude
pub mod WorkItem
pub mod Review
pub mod Agents
pub mod AnalysisGate
pub mod Candidate
pub mod Feishu
pub mod Knowledge
pub mod TokenBudget
pub mod Proposal
pub mod AttemptStore
pub mod Audit
pub mod Eligibility
pub mod Outbox
pub mod WorkItemService
