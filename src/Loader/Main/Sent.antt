-- ===== src/Loader/Main/Sent.antt =====
-- The statements of a worker (sample_app/loader.py, `_worker_insert_range`).
use scylla_k8s_example.Base.{List}
use scylla_k8s_example.Base.{nat_eq}
use scylla_k8s_example.Script.{Script}
use scylla_k8s_example.Script.Sends.{Statement, Sends}
use scylla_k8s_example.Loader.Row.{Row}
use scylla_k8s_example.Loader.Main.{Options, bound, insert_cql}

-- The insertion of a row.
abbrev pub inserted : Options → Row → Statement
inserted opts r = (insert_cql opts.keyspace opts.table, bound r)
