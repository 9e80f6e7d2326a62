-- ===== src/Lib.antt =====
-- Pynchy runs language model agents in containers, one per chat group, from a host process. This
-- library models the parts of it that decide: which group's work runs when, and what an agent may
-- do. Paths are from the repository's root.
--
-- The host's queue (Queue and its child modules) is the class GroupQueue of
-- src/pynchy/host/orchestrator/concurrency.py. Its state is the record GroupQueue: `_groups` as a
-- dictionary, `_active_count`, `_waiting_groups`, the flags, the asyncio tasks that run (`runs`)
-- and those that sleep before a retry (`retries`), and a log of what the queue does to containers
-- and files. Every method is a function on that state with the method's name, and every way a run
-- ends is one too (finish_messages, finish_task, end_sleep). A run of the program is a list of
-- events, calls and completions in any order; `step` takes one. Queue/Invariant and its users are
-- about every moment of a run, Queue/Protocol is the abstract life of one group, and Queue/Life
-- relates the code to it.
--
-- The security of a container's requests (Security and its child modules) is in
-- src/pynchy/host/container_manager/security and src/pynchy/host/container_manager/ipc. Policy is
-- SecurityPolicy of middleware.py, Gate the registry and resolve_security of gate.py, Service the
-- handler of handlers_service.py with cop_gate.py, Bash the check of handlers_security.py, with
-- the answer of handlers_approval.py. Mounts, MountChecks and MountSearch are mount_security.py,
-- which decides what of the host a container sees. Classify and the rest of Bash are the
-- container's side, in src/pynchy/agent/agent_runner/src/agent_runner: security/classify.py,
-- security/bash_gate.py and agent_tools/_ipc_request.py.
--
-- The configuration that decides who may speak to an agent (Config and its child modules) is in
-- src/pynchy/config: Refs is refs.py, Merge is merge.py with the records of models.py, Access and
-- Users are access.py. Config/Reach says which users a list grants, by an inductive description;
-- Config/Walk follows the recursive resolution; UserLaws, AccessLaws, MergeLaws and RefLaws are
-- about the four components.
--
-- What is delivered (Delivery and its child modules) is in src/pynchy/state: Cursors is
-- channel_cursors.py, Outbound is outbound.py with the tables of schema.py and the retry loop of
-- src/pynchy/host/orchestrator/messaging/reconciler.py, whose other parts are in Chat/Reconcile. A
-- table is a list of rows or a dictionary from its primary key, a constraint that is broken is a
-- call that raises, and a statement is a function on the tables. Fresh holds the invariant of the
-- ledger, Promised the queues that it stands for.
--
-- A human's approval of a request (Approvals and its child modules) is in
-- src/pynchy/host/container_manager/security/approval.py,
-- src/pynchy/host/orchestrator/messaging/approval_handler.py and
-- src/pynchy/host/container_manager/ipc/handlers_approval.py. Files holds the pending and the
-- decision files, a folder per group, each file either unreadable or as it is written; Pending
-- creates, lists and finds requests and writes the notification, Commands is what approve, deny
-- and pending do in a chat, Decide is process_approval_decision, Sweep is sweep_expired_approvals.
-- The effects are answers to containers, audit rows, dispatched handlers and chat messages. Times
-- are microseconds there, and the random draws of a short id are an argument.
--
-- What runs on a schedule (Schedule and its child modules) is in src/pynchy/state/tasks.py and
-- host_jobs.py (Rows, Tasks, Jobs), src/pynchy/utils.py (NextRun),
-- src/pynchy/host/container_manager/ipc/handlers_tasks.py (Requests) and
-- src/pynchy/host/orchestrator/task_scheduler.py (Poll, Agent). Calendar stands for croniter and
-- for the writing and reading of ISO times; IsCalendar is what the code relies on: the text of a
-- later time is not before that of an earlier one and a cron's next time is later. Tests has a
-- concrete calendar. RequestLaws serves any list of requests, from any groups, and OwnRows is what
-- it says of other groups' rows; QueueLaws joins the loop to the host's queue.
--
-- What becomes of a chat's messages (Chat and its child modules) is in
-- src/pynchy/state/messages.py (Messages), src/pynchy/host/orchestrator/messaging/commands.py
-- (Commands), pipeline.py with formatter.py (Pipeline), inbound.py (Inbound, Loop) and
-- reconciler.py (Reconcile); Meanwhile is about what happens during a wait, Hands is a turn of the
-- loop as the sequence of its calls. A turn of process_group_messages takes what the agent puts
-- out and how it ends as arguments and returns the cursors, the effects in order and whether an
-- exception leaves it; what other coroutines do to the chat while it waits for an agent, a list of
-- stored messages, routed commands and messages piped to the container, is an argument too
-- (Happening), and between its other steps nothing happens.
--
-- The questions that an agent asks a user (Questions and its child modules) are in
-- src/pynchy/host/orchestrator/messaging/pending_questions.py (Files) and ask_user_handler.py
-- (Answer); their times are microseconds.
--
-- Dictionaries are association lists in the order of insertion, as Python's are. Text that is
-- searched or split is a list of code points. Times are natural numbers in the queue and the
-- gates, ISO texts in the tables; a natural number is also the result of a plugin's handler, of
-- which nothing is read. Handlers return the list of their calls in order. The loops are
-- structural recursions; drain_waiting_loop goes by the list it empties, and two take fuel:
-- drop_assignments, the regular expression's repetition, the text's length, which is enough since
-- every round takes one character at least; and resolve_into, the depth of the calls for user
-- groups, one more than the number of groups, since a call within is made only for a group that
-- was not seen.
--
-- The file system and the environment are a record of functions (System) in the mount checks, with
-- `os.path.relpath` written out for paths that are already absolute and normal, as the results of
-- `os.path.realpath` are. Not modelled: Docker, subprocess and HTTP I/O, the chat channels, the
-- rest of the SQLite schema, plugins around external services; of the scheduler the idle timer and
-- a job's directory; of the pipeline reactions, typing, the output of a direct command, the notice
-- about a dirty repository, and a message's metadata; the router of the agent's outputs, the
-- sessions and their containers. The secrets scanner, the inspector (a language model) and a
-- plugin's handler are parameters: their results are arguments. Log lines and audit rows are left
-- out, except where they are in a handler's list of calls.
pub mod Approvals
pub mod Base
pub mod Chat
pub mod Config
pub mod Delivery
pub mod Queue
pub mod Questions
pub mod Schedule
pub mod Security
