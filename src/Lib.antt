-- ===== src/Lib.antt =====
-- A model of the order pipeline, the Python services under backend/.
--
-- The program takes restaurant orders over an API, and workers take each order through its lifecycle
-- by calls to a simulator of the restaurants and couriers. The services share nothing but a database:
-- the API inserts an order with its first task; a worker claims a task under a lease, calls the
-- simulator outside any transaction, and commits what the answer means in a second transaction; an
-- operator may cancel an order, or reset its failed tasks, and watches a dashboard. A load generator
-- sends order requests to the API.
--
-- Which file models which part:
--   Common/StateMachine, Common/TaskTypes, Common/EventTypes: backend/common/state_machine.py,
--     task_types.py and event_types.py.
--   Store: the tables orders, order_tasks and order_events of backend/alembic/versions, as lists of
--     rows with the statements that the services run on them (Store/Table, Store/Query), and the
--     partial unique index on the keys of active tasks (Store/Constraints).
--   Worker: backend/worker/tasks.py. Settings and Errors: the readers of the environment, the delays
--     and _short_error. Specs and Results: the tables and dataclasses. Downstream: the four callers.
--     Claim and Lease: claim_one_task and the updates guarded by the lease. Rows: the queries that
--     begin a transaction and the checks after them. Prepare, Finalize, Followup, Reschedule and
--     Transition: a transition task and a courier assignment. Poll, Ready and Delivery: the two poll
--     tasks. Dispatch: claim_and_process_one_task. The functions have the names of the source without
--     the leading underscore.
--   Api/OrderStore: create_or_get_order and cancel_order of backend/api/order_store.py.
--   Api/TaskStore: retry_failed_tasks_for_order of backend/api/task_store.py.
--   Store/Changes: how the row of an order may change, column by column, for the statements of theorems.
--   System: the transactions of all services as one type (System/Transactions), the databases that
--     they reach in any order, and what holds of those. A worker's transaction is first shown to be one
--     of four effects (System/Effect, System/Phases); the invariant and the moves of an order are then
--     proved of the effects (System/Invariant, System/Moves, System/Births, System/OrderRows,
--     System/Keys, and for the audit log System/Log and System/Trail). System/Fencing is on the lease,
--     System/Prepared on the transactions before a call, System/Progress and System/Stages on
--     successful calls, System/Changes, System/Later and System/Requests on requests with one
--     key over time, System/Turn and System/Delivered on the rounds that deliver an order, and
--     System/Rounds on the round of a worker as a sequence of transactions.
--   Api/Http: the handlers of backend/api/app.py that change orders.
--   Simulator: backend/downstream_sim/app.py. Library: what it takes from Python and FastAPI. Config,
--     Delay and Phases: the settings, the delay of an order in a phase and the constants of the
--     endpoints. KillSwitch: the switches. Endpoints: the five endpoints and their responses. Stages:
--     the worker's call and the endpoint in each state of an order; Contract, Switching and
--     System/Simulated take the two together, and System/Verdicts the worker's calls with any server.
--   Worker/Loop and Worker/Heartbeat: backend/worker/main.py and heartbeat.py.
--   Loadgen: the class LoadGenerator of backend/loadgen/app.py, its state and the sections of its
--     methods in Controller, and their interleavings in Actions.
--   Dashboard: backend/api/dashboard_store.py. Select: the clauses of its statements. Settings, Counts,
--     Health, Attention and Details: its queries.
--   Common/Pool: the connection pool of backend/common/db.py.
--   The other files beside the definitions hold proofs, and Examples the theorems at sample databases.
--
-- How the state corresponds: a database is the lists of the rows of its tables. A statement that
-- addresses a row by primary key updates the first row with that key. Every database transaction is
-- atomic, and a worker's two transactions for a task have any others in between. What the finalization
-- read may be older than the order row that it updates, so commit_transition takes the row that was
-- read and the database apart. Operations return the database and a result. The kill switches are an
-- association list, as the dictionary of the source. The state of the load generator counts its producer
-- loops by where they wait, and holds its requests in flight; an action is what runs between two awaits.
-- The rows of a query that tie in its order come in the order of the table.
--
-- Conventions and bounds: a UUID is a number; an instant or a duration is a whole number of
-- microseconds, the resolution of the database and of Python, an instant counted from 1970; a JSON
-- number is a whole number of microseconds that a float can hold, where it stands for a duration; a
-- dedupe key is its three parts; a text is a list of code points. The only fuel is that of the decimal
-- digits of a number n in a message or a key: n + 1 rounds, enough since each divides by ten. The delay
-- of the simulator is rounded to the nearest microsecond, without the rounding of floats before that.
--
-- Parameters, for code that is not in the repository: the HTTP client is a function from a request to
-- a response or an exception; the conversion of an environment variable to a float is a function; the
-- rows locked by other transactions at a claim are a predicate; the hash functions, the JSON encoder
-- and the text of a UUID are the fields of Simulator/Library; whether a pool gets ready is a function.
-- That uuid4() returns unused keys is the hypothesis DrawsFresh; that digests are bytes is the
-- hypothesis Bytes; that a finite float is encoded as its number is a hypothesis of ask-served.
--
-- Not modelled: the trigger that sets updated_at, since each statement sets that column; the overflow
-- of a datetime by a setting (that by a hint of the simulator is modelled, as an error of the handler
-- that changes nothing); deadlocks and lost connections, which roll a transaction back; logging and the cache
-- of logged claims; the base URL and the timeout of the simulator; the column check of the
-- finalization, whose only caller passes courier_ref; the latency statistics of the dashboard; the
-- health checks, the CORS origins and the routes that only forward; the times between two requests of
-- the load generator and the shape of its status; the start and the end of the processes, signals and
-- threads; the later migrations, which only add indexes (backend/alembic); and the user interface
-- (frontend), which is in another language.
pub mod Prelude
pub mod Common
pub mod Store
pub mod Worker
pub mod Api
pub mod Simulator
pub mod Loadgen
pub mod Dashboard
pub mod System
pub mod Examples
