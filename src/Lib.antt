-- ===== src/Lib.antt =====
-- hedloom: durable execution of declared computations. A record is a directory for one declared
-- computation; its journal is an append-only log of events, one immutable manifest per try, and a
-- standing result. A controller launches, reconciles, cancels and prunes; the log is the only memory
-- between processes, and each decision is made from what it folds to, under the record's claim.
--
-- What models what (paths from the repository's root):
--   Journal      exec/src/hedloom_exec/journal.py. Types holds its dataclasses, Fold `_fold_events`, World
--                the directory and the instance, Disk what the methods read and write, Store the methods
--                of `AttemptJournal` under their own names.
--   Attempt      exec/src/hedloom_exec/attempt.py. Env is what the functions are given, with their helpers;
--                Launch is `_launch_or_attach_locked`, one function per stage of its body; Reconcile is
--                `reconcile`, `request_cancel` and `accept_for_reuse`.
--   Durability   `execute` of exec/src/hedloom_exec/durability.py, at both levels.
--   Transport    exec/src/hedloom_exec/transport.py: the protocol as a record, and `InProcessTransport`.
--   Reuse        `input_digest` of exec/src/hedloom_exec/reuse.py.
--   Pins         `pin`, `unpin`, `pins_of` of exec/src/hedloom_exec/pins.py.
--   Prune        exec/src/hedloom_exec/prune.py: units, policies, the survey, its application.
--   Protocol     the operations as steps of one record's life, in any number of processes.
--   Identity     exec/src/hedloom_exec/identity.py: the identity of a record, the names of its tries.
--   Flow         flow/src/hedloom_flow/model.py, the plans that authors make: Values has its dataclasses, Contracts
--                their `__post_init__`, Graph `_has_dependency_cycle`, Check the helpers and the loops of
--                `Plan.validate`, Validate the method, Accepted what a plan that it returns is like.
--   Run          what executes a ready invocation. Execution is run/src/hedloom_run/execution.py, the dispatch
--                references with their gate; Binding is `resolve` and `build_bundle` of
--                run/src/hedloom_run/binding.py and what `_run_one_here` of run/src/hedloom_run/graph.py adds;
--                Placement is `select_transport`, `_placement_of`, `_admission` and `_task_key`; Worker is
--                `_run_handle`, with what `_run_one` does as an argument; Controller is one run of
--                run/src/hedloom_run/controller.py, whose coroutines change it by steps.
--   Json, Result, Base   JSON values and `dict` operations, the exceptions, shared helpers.
--
-- State. A method is a function of `World`, which holds the directory (`disk`), the instance (`claim_held`,
-- `next_seq`), a clock, and the outside world, whose type is a parameter. It returns or raises, and what it
-- wrote before a raise stays. Each flushed append, each rename and each call of `submit` is one durable step.
-- `fuse` counts the durable steps that are left before the process is killed; `none` is a process that
-- lives on. A kill shows as the error `killed`, after which only a restart is possible with a new instance.
-- `submissions` is a history of the calls of `submit`. Interleaving is by whole claimed operations, since
-- the claim excludes all others; an operation that finds the claim taken raises and changes nothing.
-- Each restart opens a new journal instance: an instance that goes on appending after another one has
-- appended, with its cached sequence number behind the log, is not among the steps.
-- Fuel. The loops of exec are recursions on a list or a text. `visit` of a plan's graph has one more level than
-- there are vertices, since the stack holds each once; the loops over the parents of a boundary have one or
-- two turns more than there are boundaries, since `visited` grows. That they always answer is proved.
-- A dispatch reference is another directory, shared by the processes of a run. A method of its gate holds a
-- lock and makes one rename or link, so that it is one step; a caller that is killed afterwards has heard no
-- answer. The identifier and the times are arguments.
--
-- The invariant. `Journal.Sound.Intact` says that the log is whole, numbered from 0 without gaps, folds, and
-- that what it folds to agrees with manifests, standing result and submissions (`Journal.Ledger.Ledger`).
-- `Journal.Hoare` has the rules for contracts of methods that may raise, `Journal.Extends` those for
-- methods that only add to a record, and `Journal.Claimed` what the body of a claim starts from.
--
-- Parameters. The substrate behind a transport, the digest function, the login name, `uuid4`, the publisher
-- of selections, `capture_outputs`, `write_diagnostics` and the accessibility of borrowed outputs (the
-- record `Env`), the clock, `datetime.fromisoformat` and the path checks of a survey (`Site`), the
-- workspace operations of pins (`PinSite`). They are arbitrary functions: no hypothesis restricts them.
-- In flow and identity: `sha256`, `blake2b`, `str.isidentifier`, `float(s) > 0`.
-- A launch supposes that the placement of its bundle has no key `try`, which the journal would read as
-- the number of another try (`IsPlaced`).
--
-- Not modelled: an append that is torn by a kill, a failing disk, a manifest file with JSON that is no
-- object, a log with numbers or times of other types than the journal writes, network file systems, and
-- the notes that attempt.py adds to an exception in flight. Of a plan's validation: the messages of
-- issues, checks that only a value of another type than the dataclass declares would fail, `to_data`, and
-- the limit of the interpreter on recursion, which a chain of some hundred edges can meet in `visit`. Of
-- retention: a workspace whose root is a link, which the survey refuses before it measures or removes. Of
-- run: executions that runs share, capacities and priorities, a controller that breaks, the link of a run
-- to its reference, directories and temporary files, a failing disk, a policy whose name is no text. Of
-- the other packages: authoring in flow, the application.
pub mod Base
pub mod Json
pub mod Identity
pub mod Result
pub mod Journal
pub mod Transport
pub mod Reuse
pub mod Attempt
pub mod Durability
pub mod Protocol
pub mod Prune
pub mod Pins
pub mod Flow
pub mod Samples
pub mod Run
