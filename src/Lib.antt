-- ===== src/Lib.antt =====
-- A verification library for the Resonate Rust SDK. The SDK runs durable functions: a promise is the
-- record of a function's outcome, a task is the lease under which one worker runs it. The SDK talks to
-- a server, and in local mode it carries the server itself (`LocalNetwork`), whose state machine is the
-- largest part modelled here. On the worker's side a context creates promises through a cache
-- (`Effects`), in call order (`CreationSequencer`), with payloads that a codec encodes.
--
-- Files and code (paths from the repository's root):
--   Prelude, Prelude/*        Rust's Option, HashMap, HashSet, i64 and texts; no code of the repository
--   Error, Types              resonate/src/error.rs, types.rs: the errors, the states
--   Json                      the interface of serde_json::Value; Examples/Values is an instance
--   Server                    resonate/src/network.rs: `ServerState`, `DurablePromise`, `Task`, deadlines,
--                             messages
--   Server/Timers             set_p_timeout .. del_t_timeout, send_execute_message
--   Server/Request, Handler   require_str, extract_ttl, extract_tags, extract_action_data; responses
--   Server/Settle             enqueue_settle, resume_awaiters, notify_subscribers, try_auto_timeout,
--                             preload, timeout_state
--   Server/Promises           promise_get, promise_create, promise_settle, promise_register_listener
--   Server/Tasks/*            task_create (Create), task_acquire, task_release, task_heartbeat (Lease),
--                             task_fulfill (Fulfill), task_fence (Fence), task_suspend (Suspend)
--   Server/Schedules          schedule_create, schedule_get, schedule_delete, schedule_search
--   Server/Tick, Apply        tick in its five phases; apply: the auto-timeouts and the dispatch
--   Network                   LocalNetwork::send, one round of the loop of start, the request envelope
--   Effects                   resonate/src/effects.rs: insert_monotonic, absorb, create_promise,
--                             settle_promise
--   Codec                     resonate/src/codec.rs: encode, decode, decode_promise
--   Sequencing                resonate/src/sequencing.rs: the slots and their tasks, await_created_id
--   Registry, Heartbeat, Ids  resonate/src/registry.rs, heartbeat.rs, ids.rs
--   Transport, Sender         resonate/src/transport.rs; send.rs: its results, Envelope (send_envelope and the
--                             parse functions), Requests (the typed requests)
--   Info, Context             resonate/src/info.rs; context.rs: the context, its ids, deadlines; Context/Requests
--                             the create requests and the builders
--   Workflow                  resonate/src/context.rs: slot and terminal operations of rpc, sleep, promise and
--                             detached, the flush; Workflow/Run the two of run, with durable.rs
--   Workflow/Program          the operations of a workflow function, one after the other
--   Workflow/Replay           a context over the cache of Effects
--   Client                    resonate/src/resonate.rs: do_run, do_rpc, subscriptions; handle.rs: decode_result
--   Core                      resonate/src/core.rs: on_message, execute_until_blocked and its loop
-- and proofs:
--   Server/Step, Step/*       an abstract transition system of promises, tasks and deadlines, and the
--                             refinement of every handler and of tick
--   Server/Durable, Lifecycle, Deadlines
--                             what every transition keeps: promises, the diagram of a task, deadlines;
--                             Lifecycle/Pace how often one request bumps a version
--   Server/Records, Idempotence, Expiry, Tick/Settles, Wakeup/*, Notify,
--   Schedules/RoundTrip
--                             what single operations do to the records of promises and to tasks
--   Network/History, Fencing, Exclusion
--                             any sequence of requests and ticks
--   Effects/Monotonic, Codec/RoundTrip, Sequencing/Prefix, Timers/Lookup
--   Context/Bounds, Naming    deadlines and ids of children
--   Workflow/Lineage/*        what the create requests of a workflow have in common
--   Workflow/Suspension/*     what a suspended workflow leaves for the flush
--   Core/Protocol, Messages, Termination
--                             the requests of a worker in their order, and what keeps its loop from ending
--   Client/Roots, Results, Subscriptions, Refresh
--                             root promises with their workflows, the way of a result to a handle, done
--   Sender/Answers            which answers the sender accepts
--   Examples/*                runs of the code and the theorems at concrete inputs
--
-- How the code is read. A handler is a function from the state to a result and a state; what it wrote
-- before an error stays written. The lock of `LocalNetwork` makes requests and ticks follow one another,
-- so a history is a list of them, each with its time, which is arbitrary and may even go back. Numbers of
-- type i64 are integers whose `+` wraps at 64 bits, as in a release build, and `saturating_add`
-- saturates. A HashMap is an association list and the theorems hold for every order of it. Loops of the
-- code run over lists, so no fuel is needed, but for the loop of core.rs, which runs again whenever the
-- server redirects it: its fuel is the number of runs, and
-- Core/Termination says what an execution does that uses it up. `serde_json`, base64, UTF-8, the
-- encryptor and the sender are interfaces; where a theorem relies on one, it has the laws as a hypothesis. `to_record` is a
-- record with the fields of the JSON object, and a response keeps its fields as they are.
--
-- A workflow function is a program: a tree of the terminal operations of its context, where each result
-- decides on the rest; a durable function of either kind may return or panic. A spawned task runs where it
-- is spawned, which is one of the schedules of tokio, and its outcome waits for the flush. The clock is read
-- once in each operation. The worker's requests, the functions and the codec are an interface of Core; a
-- theorem about their order takes a journal that they keep.
--
-- Not modelled: the text of JSON and of the envelopes, tokio's scheduling and its channels beyond what the
-- step relations of Sequencing and the critical sections of Heartbeat say, calls of Effects that overlap,
-- join handles that are dropped, HTTP, Postgres and the macros, the dependency map, and of the client
-- (resonate.rs) its construction and its schedules.
mod Prelude
pub mod Error
pub mod Types
pub mod Json
pub mod Server
pub mod Network
pub mod Effects
pub mod Codec
pub mod Sequencing
pub mod Registry
pub mod Heartbeat
pub mod Ids
pub mod Info
pub mod Context
pub mod Workflow
pub mod Core
pub mod Transport
pub mod Sender
pub mod Client
mod Examples
