-- ===== src/Lib.antt =====
-- The tools of the ScyllaDB on Kubernetes example: a migration from vnodes to tablets with a rolling
-- restart, a loader and a query runner, and scripts around Alternator tables.
--
-- Convert models sample_app/convert_to_tablets.py. Its parts and the files that model them:
--   Convert/Api        `api`, `api_alive`: the REST API of one node
--   Convert/Kube       class `K8s`: the Kubernetes API
--   Convert/Nodes      `Node`, `discover_nodes`, `resolve_api_host`, `pick_control`
--   Convert/Status     `ks_status` to `wait_node_mode`: the migration as the cluster reports it
--   Convert/Restart    `wait_for` to `restart_node`
--   Convert/Blob, Convert/Preflight   `decode_extension` to `preflight`
--   Convert/Report     `print_status`, `confirm`
--   Convert/Phases     `rollback` and `migrate`; each paragraph of them is a function
--   Convert/Main       `connect`, `main` and the last `except`
-- The phases call the parts above them in this list. A step (Exec) reads a world `Env` and a state
-- `St`, and returns a result or an exception with the state after it. The state holds the history of
-- calls, queries, output, sleeping and questions, the latest first, and the two fields of a node
-- that change, under its host ID. The world is any function that answers each call, question and
-- reading of the clock from the history before it, so a theorem about all worlds speaks of every
-- behaviour of the cluster, the user and the clock. A `Node` of the source is its other fields.
-- The driver's metadata (hosts and schema) is an argument.
--
-- Loader models sample_app/loader.py: Loader/Ranges the division of the ids, Loader/Row one row,
-- Loader/Insert the workers. What `random`, `faker` and the driver give is a parameter. Query models
-- the keys and the counters of sample_app/query.py, which looks up what the loader writes. Connection models
-- sample_app/scylla_connection_library.py, with the file system as a parameter and the arguments of
-- the driver's `Cluster` as the result. Cleanup models
-- sample_app/alternator-client/cleanup_userid_mt.py, with a token counted from the least one and the two statements of a user
-- as a parameter, which Cleanup/Rows describes, and
-- Alternator the attribute codec of encode_alternator.py and decode_alternator.py beside it, and
-- Faker the batches of cql-faker.py there.
--
-- Script models the scripts that speak to the database through the driver: a step reads a world, that
-- is what the driver answers after each history of events, and the clock; it extends the history and
-- returns, raises a text or exits with a code. Script/Session is `build_cluster_and_session` and
-- `resolve_connection` in such a step. Script/Open counts what is opened and closed, Script/Sends
-- (with Script/Blocks and Script/Timed) which statements are sent, Script/Steps what a step that
-- returned has done, Script/Clock what a clock promises along a run. In it stand
--   Loader/Main          `create_schema`, `_worker_insert_range`, `insert_data_parallel`, `main` of loader.py
--   Query/Main           `TableQueryRunner` and `main` of query.py
--   Tools/SlowLoader     sample_app/slow_loader.py
--   Tools/Tombstone      sample_app/tombstone.py
--   Tools/CounterCopy    sample_app/copy_counter_table_vnodes_to_tablets.py
--   Tools/Vnodes         sample_app/create_vnodes_ks_index_mv_counters.py
--   Tools/Twcs           sample_app/twcs/device_read_data_demo.py: Window its windows, Cluster its
--                        connection, Seed the schema and the readings, Demo its status and `main`
-- The statements are the texts of the source. The loader's workers run one after the other and so do
-- the rows of a batch, of which the driver raises the first error, as it does unless told otherwise.
-- (Loader/Insert counts the rows without the session, for any results and exceptions of a batch.) Decimals are exact, counters are not
-- negative, local time is UTC (Base/Calendar), and lines of elapsed time leave out the time.
-- Examples holds a cluster of two nodes and inputs of the other tools.
--
-- Bounds and fuel. Times of the migration are whole seconds and its clock counts nanoseconds; the
-- two waiting loops get one round more than the seconds of their timeout, since each round sleeps
-- for at least one second, and a loop whose clock does not follow its sleeps ends as `diverged`;
-- `Ticks` in Convert/Waits says what the clock has to do for the rounds to be enough (the modules
-- called Ends follow it through the program). The
-- loader's ids start at one and its loops get a round per id or missing character; Cleanup gets a
-- round per token. The query runner, whose clock
-- counts microseconds and whose interval is in milliseconds, gets a round for each millisecond and one
-- more. With a batch size of zero, or a generator of
-- empty sentences only, the loader and the slow loader never end; Loader/Insert says so,
-- Loader/Main leaves open what a run does there (the parameter `endless`), and Tools/SlowLoader
-- raises a text. Options that are numbers are not
-- negative.
--
-- Not modelled: the parsing of command lines, a failure of the driver to connect, an interrupt from
-- the keyboard, threads, sessions of the Alternator scripts, logging outside of what is named
-- above, and the scripts that only call libraries. Numbers in JSON are whole, and texts inside lists
-- print without escapes; `str.lower` is that of ASCII; texts of schema extensions stay bytes.
pub mod Base
pub mod Json
pub mod Exec
pub mod Convert
pub mod Script
pub mod Tools
pub mod Loader
pub mod Query
pub mod Faker
pub mod Examples
pub mod Connection
pub mod Alternator
pub mod Cleanup
