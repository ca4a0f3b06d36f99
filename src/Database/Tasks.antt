-- ===== src/Database/Tasks.antt =====
-- The start of the database: the connection and `SubscriptionHandler` of pmindb/src/db.rs with its two tasks.
use plant_minder.Base.{
  List, [], ◌∷◌, ◌++◌, Bool, Option, none, some, if◌then◌else◌, Result, ok, err, ◌>>=◌, Outcome,
  returns, panics,
}
use plant_minder.Broker.Hub.{Sender}
use plant_minder.Database.{DatabaseError, other_error, start_up_error}

-- The task that follows the states of the nodes, and the one that stores the readings.
pub data DbTask : Type 0 where
  registry_conn sensor_stream_conn : DbTask

pub record SubscriptionHandler : Type 0 where
  pub db_registry_conn_handle : Option DbTask
  pub db_sensor_stream_conn_handle : Option DbTask

abbrev pub new_handler : SubscriptionHandler
new_handler = record { db_registry_conn_handle = none; db_sensor_stream_conn_handle = none }

abbrev pub spawn_db_conn_registry_task : SubscriptionHandler → SubscriptionHandler
spawn_db_conn_registry_task h = record h { db_registry_conn_handle = some registry_conn }

abbrev pub spawn_db_conn_sensor_stream_task : SubscriptionHandler → SubscriptionHandler
spawn_db_conn_sensor_stream_task h = record h {
  db_sensor_stream_conn_handle = some sensor_stream_conn;
}

-- `take().unwrap().await`: the handle is gone then; `next` goes on once the task has ended.
abbrev pub awaits : {A : Type 0} → Option DbTask → (DbTask → Outcome A) → Outcome A
awaits none next = panics
awaits (some t) next = next t

-- The tasks that are waited for, in order.
unfoldable pub exec_task_loops : SubscriptionHandler → Outcome (List DbTask × SubscriptionHandler)
exec_task_loops h =
    awaits h.db_registry_conn_handle
      (λ t. awaits h.db_sensor_stream_conn_handle (λ t'. returns (t ∷ t' ∷ [], new_handler)))

abbrev pub aborted : Option DbTask → List DbTask
aborted none = []
aborted (some t) = t ∷ []

-- The tasks that are aborted when the handler goes.
unfoldable pub drop_handler : SubscriptionHandler → List DbTask
drop_handler h = aborted h.db_registry_conn_handle ++ aborted h.db_sensor_stream_conn_handle

-- `PlantDatabase::new`: a connection, and migrations that run.
unfoldable pub open_database : Bool → Bool → Result (Unit {0}) DatabaseError
open_database establishes migrates =
    if establishes then (if migrates then ok tt else err other_error) else err start_up_error

-- What the program gets: the ends of the channels for readings and for states, and the tasks behind them.
pub record DbConn : Type 0 where
  pub stream_tx : Sender
  pub registration_tx : Sender
  pub sub_handler : SubscriptionHandler

unfoldable pub new_with_db_conn_tasks : Bool → Bool → Sender × Sender → Result DbConn DatabaseError
unfolding open_database
new_with_db_conn_tasks establishes migrates (stream_tx, registration_tx) = do
  _ ← open_database establishes migrates
  ok (record {
    stream_tx = stream_tx;
    registration_tx = registration_tx;
    sub_handler = spawn_db_conn_sensor_stream_task (spawn_db_conn_registry_task new_handler);
  })
