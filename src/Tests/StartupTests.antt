-- ===== src/Tests/StartupTests.antt =====
-- Tests of the start of the program.
use plant_minder.Base.{
  ℕ, ◌≡◌, refl, List, [], ◌∷◌, Bool, true, false, none, some, ok, err, returns, panics, nat_eq,
  arith,
}
use plant_minder.Broker.Monitor.{
  internal_registration, check_new_node, get_nodes, register_node, is_registered, is_listed,
}
use plant_minder.Broker.Hub
use plant_minder.Broker.Hub.{
  Broker, Step, takes_event, takes_data, takes_api, data_arrives, event_arrives, event_loop, step,
  subscribe, take_event, take_api, handle_api, handle_client, node_registration,
}
use plant_minder.Broker.Hub.Interleaving.{Conserves}
use plant_minder.Map.{insert}
use plant_minder.Net.{segment0}
use plant_minder.Database.{start_up_error}
use plant_minder.Database.Tasks.{
  registry_conn, sensor_stream_conn, DbConn, exec_task_loops, drop_handler, new_handler,
}
use plant_minder.Minder
use plant_minder.Startup.{Setup, Started, start, database_error}
use plant_minder.Startup.Serving.{start-Conserves, IsOpen}
use plant_minder.Startup.Missed.{missed_at_start}
use plant_minder.Tests.{client, monitor, node_at, mesh, eui_of, reading_from}

abbrev pub set_up : Setup
set_up = record {
  front_end = (10, 11);
  database = (20, 21);
  mailbox = true;
  looping = true;
  db_mailbox = true;
  db_looping = true;
  establishes = true;
  migrates = true;
}

abbrev pub all_alive : ℕ → Bool
all_alive c = true

-- A reading comes before the front end's subscription is taken, and that is not before the database's.
abbrev pub early : List Step
early = data_arrives (reading_from 7) ∷ []

abbrev between : List Step
between = takes_event ∷ []

abbrev pub rest : List Step
rest = takes_api ∷ takes_api ∷ []

abbrev later : List Step
later =
    takes_data ∷ event_arrives (node_registration (eui_of 8, mesh 8, b'f' ∷ [])) ∷ takes_event ∷ []

abbrev pub conn : DbConn
conn = record {
  stream_tx = 20;
  registration_tx = 21;
  sub_handler = record {
    db_registry_conn_handle = some registry_conn;
    db_sensor_stream_conn_handle = some sensor_stream_conn;
  };
}

abbrev pub started : Started
unfolding Minder.new
started = record {
  broker = record {
    data_queue = reading_from 7 ∷ [];
    receiver = [];
    subscription_receiver = subscribe 0 10 11 ∷ subscribe 1 20 21 ∷ [];
    subscribers = [];
    stream_tasks = [];
  };
  app = Minder.new 500;
  db = some conn;
}

starts : start all_alive true set_up early between ≡ ok started
unfolding start event_loop step take_event
starts = refl

pub channels_IsOpen : IsOpen all_alive set_up
channels_IsOpen = record {
  front_readings = refl;
  front_status = refl;
  database_readings = refl;
  database_status = refl;
  two_readings = λ h. omega (arith, h);
  two_status = λ h. omega (arith, h);
}

abbrev served : Broker
served = (event_loop all_alive started.broker rest).0

start_example :
    Conserves 10 11 served
      (event_loop all_alive served later).0
      later
      (event_loop all_alive served later).1
    × Conserves 20 21 served
        (event_loop all_alive served later).0
        later
        (event_loop all_alive served later).1
start_example =
    start-Conserves all_alive set_up early between rest later started (tt, tt) (tt, tt)
      (tt, (tt, tt)) (omega arith) (tt, (tt, (tt, tt))) channels_IsOpen starts

-- The database's file cannot be opened, after the front end has subscribed.
database_unavailable :
    start all_alive true (record set_up { establishes = false }) early between
    ≡ err (database_error start_up_error)
unfolding start
database_unavailable = refl

without_database :
    start all_alive false set_up early []
    ≡ ok (record {
      broker = record started.broker { subscription_receiver = subscribe 0 10 11 ∷ [] };
      app = Minder.new 500;
      db = none;
    })
unfolding start event_loop step Minder.new
without_database = refl

-- The two tasks are waited for once.
waited :
    exec_task_loops conn.sub_handler
    ≡ returns (registry_conn ∷ sensor_stream_conn ∷ [], new_handler)
unfolding exec_task_loops
waited = refl

waited_again : exec_task_loops new_handler ≡ panics
unfolding exec_task_loops
waited_again = refl

both_aborted : drop_handler conn.sub_handler ≡ registry_conn ∷ sensor_stream_conn ∷ []
unfolding drop_handler
both_aborted = refl

none_new : (check_new_node client (internal_registration monitor (node_at 8 1215)).1).0 ≡ ok []
unfolding check_new_node get_nodes internal_registration segment0 register_node is_registered insert
none_new = refl

abbrev missed : List Step
missed =
    event_arrives (node_registration ((node_at 8 1215).eui, mesh 8, b'f' ∷ []))
    ∷ takes_event
    ∷ early

missed_at_start_example :
    ((event_loop all_alive Hub.new missed).1 ≡ [])
    × (start all_alive true set_up missed between ≡ start all_alive true set_up early between)
    × (is_listed 8 (mesh 8) [] ≡ false)
missed_at_start_example =
    missed_at_start all_alive true set_up early between (tt, tt) client monitor (node_at 8 1215)
      (b'f' ∷ []) [] none_new
