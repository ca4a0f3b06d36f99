-- ===== src/Startup.antt =====
-- `main` of pmindd/src/bin/main.rs up to the terminal: the broker and its two clients, the front end and the
-- database.
pub mod Settling
pub mod Serving
pub mod Missed
use plant_minder.Base.{
  ℕ, List, [], ◌∷◌, Bool, true, false, Option, none, some, if◌then◌else◌, Result, ok, err, map_err,
  ◌>>=◌,
}
use plant_minder.Broker.Types.{ClientId}
use plant_minder.Broker.Router.Handle
use plant_minder.Broker.Router.Handle.{EventRouter}
use plant_minder.Broker.Hub
use plant_minder.Broker.Hub.{
  Sender, Broker, BrokerError, actor_error, ClientApi, subscribe, handle_client, Step, event_loop,
  Delivery,
}
use plant_minder.Database.{DatabaseError}
use plant_minder.Database.Tasks.{DbConn, new_with_db_conn_tasks}
use plant_minder.Minder
use plant_minder.Minder.{PlantMinder}

pub data PlantMinderError : Type 0 where
  io_error event_error : PlantMinderError
  broker_error : BrokerError → PlantMinderError
  database_error : DatabaseError → PlantMinderError

-- The clients' channels, for readings and for states, and what the rest of the world does: whether a
-- message reaches the actor behind the handle and the event loop is there, for each client, and whether
-- the database opens.
pub record Setup : Type 0 where
  pub front_end : Sender × Sender
  pub database : Sender × Sender
  pub mailbox : Bool
  pub looping : Bool
  pub db_mailbox : Bool
  pub db_looping : Bool
  pub establishes : Bool
  pub migrates : Bool

-- `broker(…)`: the router with its task, and the broker.
unfoldable pub broker : Result (Broker × EventRouter) BrokerError
unfolding Handle.new Hub.new
broker = do router ← map_err Hub.broker Handle.new; ok (Hub.new, router)

abbrev pub handled : Result (Unit {0}) BrokerError × Broker → Result Broker BrokerError
handled (ok _, b) = ok b
handled (err e, b) = err e

-- `send(ClientSubscribe { … }).await`, with both of its errors.
unfoldable pub subscribe_client :
    Bool → Bool → ClientId → Sender × Sender → Broker → Result Broker PlantMinderError
unfolding handle_client
subscribe_client mailbox looping id (readings, status) b =
    if mailbox
    then map_err broker_error (handled (handle_client looping b (subscribe id readings status)))
    else err (broker_error actor_error)

-- The state in which the terminal is set up.
pub record Started : Type 0 where
  pub broker : Broker
  pub app : PlantMinder
  pub db : Option DbConn

-- `PlantMinder::enable_database`; the program keeps the handle and never asks it anything.
abbrev pub enable_database : DbConn → Result (Option DbConn) PlantMinderError
enable_database conn = ok (some conn)

module _ (alive : Sender → Bool) where
  -- With the feature `database`.
  unfoldable pub start_database : Setup → PlantMinder → Broker → Result Started PlantMinderError
  unfolding subscribe_client new_with_db_conn_tasks
  start_database s app b = do
    conn ← map_err database_error (new_with_db_conn_tasks s.establishes s.migrates s.database)
    b' ← subscribe_client s.db_mailbox s.db_looping 1 (conn.stream_tx, conn.registration_tx) b
    db ← enable_database conn
    ok (record { broker = b'; app = app; db = db })

  -- The event loop is at work as soon as `broker` has returned: `early` is what it does before the first
  -- message is sent, `between` what it does before the second.
  unfoldable pub start : Bool → Setup → List Step → List Step → Result Started PlantMinderError
  unfolding broker subscribe_client start_database event_loop Minder.new
  start with_database s early between = do
    (b0, _) ← map_err broker_error broker
    b ← subscribe_client s.mailbox s.looping 0 s.front_end (event_loop alive b0 early).0
    let b' = (event_loop alive b between).0
    if with_database
        then start_database s (Minder.new 500) b'
        else ok (record { broker = b'; app = Minder.new 500; db = none })
