-- ===== src/Lib.antt =====
-- Verification of Locus, a control plane that places inference requests on engines.
--
-- The program and the files that model it:
--
--   crates/core -> Core. `Core/Context` is the operation context (context.rs): deadline,
--     cancellation, and the race of a call with both. What a call reads of its surroundings, the
--     clock and the shared flags, is the argument `World`. `Core/Identity` holds the identities,
--     requests, capabilities, snapshots and state descriptors that placement reads (identity.rs,
--     input.rs, execution.rs, state.rs). Identifiers are texts; instants and durations are numbers.
--
--   crates/runtime/src/traffic.rs -> Traffic, the admission controller. `Policy` is the configuration
--     with `validate` and `new`; `State` the record behind the mutex with its counters; `Candidates`
--     `normalize_idle_vruntime_locked` and `choose_candidate`; `Schedule` `schedule_locked` and
--     `release`; `Admission` `admit`, `cancel_waiter`, the end of a wait and `record_termination`;
--     `Drain` `begin_drain`, `resume` and the rounds of `drain`. Each operation takes the state at the
--     time it locks the mutex and returns the state it leaves; `none` stands for a failed `expect`.
--     `channels` is what the oneshot senders have delivered and nobody has received. A BTreeMap is
--     an association list; the order of its entries decides nothing that is returned, for
--     `choose_candidate` sorts by virtual runtime and key. `Counters` and `Invariant` carry the
--     proofs: `Invariant` says that the counters are exact (that of queued tokens up to its
--     wrap-around), the limits kept, the tickets unique, the queues configured, and that nothing is
--     queued while draining.
--
--   crates/planner/src/lib.rs -> Planner, the cost-based planner: the search goes through candidates
--     and state paths in the order of the source.
--
--   crates/planner/src/executor.rs -> Executor, the execution of a plan. The registry, the adapter,
--     the store and the clock are the record `Backend` of what each call answers; a run is the list
--     of its calls with its result. `run` looks at the context before it polls a call; an answer says
--     whether the call was polled, and only then is it in the list.
--
--   crates/planner/src/calibration.rs -> Calibration, the calibrator of the planner's estimates: the
--     policy and one metric; `Records` the state, observations, shadow decisions and persistence, with
--     serde_json and the file system as the parameter `Storage`; `Promotion` `promotion_status`.
--
--   crates/parser/src/lib.rs -> Parser, the streaming parsers of model output, over the bytes of the
--     text. `Reasoning` is the parser of one tagged reasoning section and `Tools` the parser of tagged
--     tool calls, with serde_json as the parameter `Json`. `Find` has the facts on searching in text
--     that more text follows; the modules below each parser carry the proofs.
--
--   crates/engine/src/lib.rs -> Engine, the registry of engines: generations, permits of executions,
--     lifecycles. `Drain` has `drain` and `drain_all`, with what other tasks do to the registry between
--     any two of the locks that they take as an argument. `Steps` lists the operations as steps.
--
--   crates/runtime/src/lib.rs -> Runtime, what the service does between admission and the planner:
--     `discover`, `planning_input` (Planning), the estimates, the audit's exclusions. The adapters and
--     the store answer through the arguments `Engines` and `Store`.
--
--   Base has what these share: texts and numbers as keys, ordered maps, lists, machine words with
--   their wrap-around and saturation, and Rust's `Result`. Examples applies the theorems and runs the
--   definitions on concrete inputs.
--
-- The traffic controller gives its permit to a request before the planner sees it; the service makes
-- the planner's input of what the registry's routable engines and the store answer; the planner's plan
-- is what the executor takes.
--
-- `schedule_rounds` has as fuel one more than the number of waiting requests, and every round takes
-- one of them out of its queue. The loops of `push` have one more than the length of the held text,
-- for every round but the last drains a delimiter, and so has `complete_call`, which goes past one.
-- All other loops follow a list.
--
-- Not modelled: `infer`, `select_plan`, the control of placement and the streams of the service,
-- `apply` and the loading of a file in the calibrator, rendering of metrics, JSON and HTTP, the
-- servers, tokenizers, the engine adapters and the store's protocol; and the text of errors, which `Backend` gives as functions.
pub mod Base
pub mod Core
pub mod Traffic
pub mod Planner
pub mod Executor
pub mod Calibration
pub mod Parser
pub mod Engine
pub mod Runtime
pub mod Examples
