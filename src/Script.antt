-- ===== src/Script.antt =====
-- Runs of the scripts that talk to a database through the driver: sample_app/loader.py,
-- slow_loader.py, tombstone.py, create_vnodes_ks_index_mv_counters.py,
-- copy_counter_table_vnodes_to_tablets.py, twcs/device_read_data_demo.py and the scripts of
-- alternator-client. A run adds to a history, the oldest event first, and the driver answers from it.
pub mod Open
pub mod Sends
pub mod Steps
pub mod Session
pub mod Timed
pub mod Blocks
pub mod Clock
use scylla_k8s_example.Base.{
  ℕ, zero, suc, ◌*◌, String, Bool, true, false, Option, none, some, List, [], ◌∷◌, ◌++◌,
}
use scylla_k8s_example.Connection.{Config, Line, info, warning, error}

-- A value of a row, or one bound to a statement. A decimal is its digits and how many of them are
-- behind the point; an instant is in microseconds from the epoch.
pub data Value : Type 0 where
  null : Value
  num : ℕ → Value
  text : String → Value
  decimal : ℕ → ℕ → Value
  instant : ℕ → Value

-- What `Cluster(...)` is given: all the arguments, or only hosts, user and password.
pub data Target : Type 0 where
  configured : Config → Target
  plain : List String → String → String → Target

pub data Event : Type 0 where
  opened : Target → Event
  used : String → Event
  executed : String → List Value → Event
  session_closed cluster_closed : Event
  printed : String → Event
  logged : Line → Event
  -- in milliseconds
  slept : ℕ → Event

abbrev pub History : Type 0
History = List Event

pub data Reply : Type 0 where
  rows : List (List Value) → Reply
  failure : String → Reply

-- The driver, with the cluster behind it, and the clock. `some m` is an exception.
pub record World : Type 0 where
  pub refuses : History → Target → Option String
  pub answer : History → String → List Value → Reply
  pub unprepared : History → String → Option String
  pub no_keyspace : History → String → Option String
  pub shutdown_fails : History → Option String
  -- in microseconds from the epoch
  pub now : History → ℕ

-- A result, an exception, or `sys.exit`.
pub data Outcome (A : Type 0) : Type 0 where
  ok : A → Outcome A
  raised : String → Outcome A
  exited : ℕ → Outcome A

abbrev pub Script : Type 0 → Type 0
Script A = World → History → Outcome A × History

module _ {A : Type 0} where
  unfoldable pub pure : A → Script A
  pure a w h = (ok a, h)

  unfoldable pub raise : String → Script A
  raise m w h = (raised m, h)

  unfoldable pub exit : ℕ → Script A
  exit code w h = (exited code, h)

module _ {A B : Type 0} where
  abbrev pub continue : Outcome A → (A → Script B) → Script B
  continue (ok a) f = f a
  continue (raised m) f = raise m
  continue (exited code) f = exit code

  infixl 10 ◌>>=◌ ◌>>◌
  unfoldable pub ◌>>=◌ : Script A → (A → Script B) → Script B
  unfolding raise exit
  ◌>>=◌ m f w h = let (r, h') = m w h in continue r f w h'

  abbrev pub ◌>>◌ : Script A → Script B → Script B
  m >> n = m >>= λ _. n

module _ {A : Type 0} where
  abbrev pub handle : Outcome A → (String → Script A) → Script A
  handle (ok a) f = pure a
  handle (raised m) f = f m
  handle (exited code) f = exit code

  -- `try: m`, `except Exception as e: f(e)`
  unfoldable pub catch : Script A → (String → Script A) → Script A
  unfolding pure exit
  catch m f w h = let (r, h') = m w h in handle r f w h'

abbrev pub finish : {A : Type 0} → Outcome A → Script A
finish (ok a) = pure a
finish (raised m) = raise m
finish (exited code) = exit code

-- `try: m`, `finally: f`. An exception of `f` takes the place of the result.
unfoldable pub finally : {A : Type 0} → Script A → Script Unit → Script A
unfolding pure raise exit ◌>>=◌
finally m f w h = let (r, h') = m w h in (f >>= λ _. finish r) w h'

-- The result as a value: what a worker process hands back.
unfoldable pub attempt : {A : Type 0} → Script A → Script (Outcome A)
unfolding pure
attempt m w h = let (r, h') = m w h in (ok r, h')

unfoldable pub maybe : {A B : Type 0} → Option B → Script A → (B → Script A) → Script A
maybe none n f = n
maybe (some b) n f = f b

unfoldable pub emit : Event → Script Unit
emit ev w h = (ok tt, h ++ (ev ∷ []))

abbrev pub print : String → Script Unit
print line = emit (printed line)

abbrev pub log : String → Script Unit
log line = emit (logged (info line))

abbrev pub log_warning : String → Script Unit
log_warning line = emit (logged (warning line))

abbrev pub log_error : String → Script Unit
log_error line = emit (logged (error line))

abbrev pub sleep_millis : ℕ → Script Unit
sleep_millis millis = emit (slept millis)

abbrev pub sleep : ℕ → Script Unit
sleep seconds = sleep_millis (seconds * 1000)

unfoldable pub now : Script ℕ
now w h = (ok (w.now h), h)

-- An event, unless the driver raises.
abbrev pub unless : Option String → Event → Script Unit
unless none ev = emit ev
unless (some m) ev = raise m

unfoldable pub connect_to : Target → Script Unit
unfolding emit raise
connect_to t w h = unless (w.refuses h t) (opened t) w h

unfoldable pub use_keyspace : String → Script Unit
unfolding emit raise
use_keyspace ks w h = unless (w.no_keyspace h ks) (used ks) w h

abbrev pub unless_raised : Option String → Script Unit
unless_raised none = pure tt
unless_raised (some m) = raise m

-- `session.prepare(statement)`
unfoldable pub prepare : String → Script Unit
unfolding pure raise
prepare s w h = unless_raised (w.unprepared h s) w h

abbrev pub answered : Reply → Script (List (List Value))
answered (rows l) = pure l
answered (failure m) = raise m

-- `session.execute(statement, values)`. A statement that fails has been sent.
unfoldable pub execute : String → List Value → Script (List (List Value))
unfolding pure raise
execute s values w h = answered (w.answer h s values) w (h ++ (executed s values ∷ []))

abbrev pub run : String → List Value → Script Unit
run s values = execute s values >>= λ _. pure tt

-- `execute_concurrent_with_args`, which unless told otherwise raises the first error: the rows are
-- sent one after the other, and the result says of each that it was written.
unfoldable pub execute_concurrent : String → List (List Value) → Script (List Bool)
execute_concurrent s [] = pure []
execute_concurrent s (values ∷ l) =
    execute s values >>= λ _. execute_concurrent s l >>= λ results. pure (true ∷ results)

-- `session.shutdown()` and `cluster.shutdown()`, which may raise.
unfoldable pub close_session : Script Unit
unfolding pure raise
close_session w h = unless_raised (w.shutdown_fails h) w (h ++ (session_closed ∷ []))

unfoldable pub close_cluster : Script Unit
unfolding pure raise
close_cluster w h = unless_raised (w.shutdown_fails h) w (h ++ (cluster_closed ∷ []))

-- `for x in xs: body(x)`
unfoldable pub for_each : {A : Type 0} → List A → (A → Script Unit) → Script Unit
for_each [] body = pure tt
for_each (x ∷ xs) body = body x >>= λ _. for_each xs body

-- `try: session.shutdown()`, `except Exception: pass`, and the same for the cluster.
unfoldable pub close_quietly : Script Unit
close_quietly = do catch close_session (λ _. pure tt); catch close_cluster (λ _. pure tt)

-- A block with a cluster and a session of its own, closed in `finally`.
unfoldable pub with_session : {A : Type 0} → Target → Script A → Script A
with_session t body = connect_to t >>= λ _. finally body close_quietly
