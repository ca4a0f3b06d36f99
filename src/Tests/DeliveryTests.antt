-- ===== src/Tests/DeliveryTests.antt =====
-- Tests of the ways from the nodes to the clients of the broker.
use plant_minder.Base.{
  Bool, ℕ, true, ◌*◌, ◌≤◌, ◌≡◌, refl, List, [], ◌∷◌, ◌++◌, some, returns, length, arith, list_eq,
  nat_eq,
}
use plant_minder.Map.{lookup}
use plant_minder.Net.{SocketAddrV6, v6}
use plant_minder.Broker.Types.{NodeSensorReading}
use plant_minder.Broker.Node.{
  Wakeup, recv_from, timed_out, node_event_handler, receive_loop, report, sender_addr,
}
use plant_minder.Broker.Hub.{
  Broker, Step, takes_data, takes_event, data_arrives, event_loop, step, send_readings, send_status,
  sensor_stream_process,
}
use plant_minder.Broker.Hub.FanOut.{readings_to, arriving_readings}
use plant_minder.Broker.Hub.Interleaving.{Listens}
use plant_minder.Minder.{PlantMinder, arrive, run, from_key}
use plant_minder.Minder.Table.{advice_for}
use plant_minder.Minder.Draining.{tick_events}
use plant_minder.Ui.Screen.{draw}
use plant_minder.Delivery.{shown_at, datagram-shown}
use plant_minder.Tests.{mesh, reading_from, sensor, eui_of}
use plant_minder.Tests.DatabaseTests.{memory, memory_laws, conversions, stored, memory_succeeds}
use plant_minder.Delivery.Agreement.{addr_of, shown, clients_agree}
use plant_minder.Broker.Types.{NodeStatus, registration}
use plant_minder.Broker.Hub.{event_arrives, node_registration, handle_event}
use plant_minder.Broker.Hub.FanOut.{statuses_to}
use plant_minder.Minder.Input.{Event, tick_event, app_cmd, node_state, next}
use plant_minder.Minder.Addresses.{statuses_in}
use plant_minder.Database.{registry_task}
use plant_minder.Tests.HubTests.{broker, alive, parse_any, bound}
use plant_minder.Tests.MinderTests.{app, app-IsSound, fig, node_7}
use plant_minder.Tests.UiTests.{wide}

abbrev pub node_addr : SocketAddrV6
node_addr = record { ip = mesh 7; port = 9 }

abbrev earlier : List Wakeup
earlier = recv_from (1 ∷ []) (v6 node_addr) 100 ∷ []

abbrev wakeups : List Wakeup
wakeups = earlier ++ recv_from (2 ∷ []) (v6 node_addr) 102 ∷ timed_out ∷ []

abbrev at_time : ℕ → NodeSensorReading
at_time t = record { addr = node_addr; reading = record sensor { ts = t } }

-- The node's readings with one of another node in between.
abbrev schedule : List Step
schedule =
    data_arrives (at_time 100)
    ∷ data_arrives (reading_from 8)
    ∷ takes_data
    ∷ takes_event
    ∷ takes_data
    ∷ data_arrives (at_time 102)
    ∷ takes_data
    ∷ []

abbrev pub idle : Broker
idle = record broker { data_queue = [] }

pub idle-Listens : Listens alive 10 11 idle
idle-Listens = record {
  data_alive = refl;
  status_alive = refl;
  data_once = refl;
  status_once = refl;
}

own_readings :
    from_key (mesh 7) (arriving_readings schedule)
    ≡ (sensor_stream_process (node_event_handler parse_any true bound wakeups)).readings
unfolding sensor_stream_process node_event_handler receive_loop report sender_addr
own_readings = refl

all_delivered : (event_loop alive idle schedule).0.data_queue ≡ []
unfolding event_loop step send_readings send_status
all_delivered = refl

few_enough :
    length (arrive (readings_to 10 (event_loop alive idle schedule).1) app).data_queue ≤ 20 * 1
unfolding event_loop step send_readings send_status
few_enough = omega arith

datagram-shown_example :
    (m' : PlantMinder) × (run
        (arrive (readings_to 10 (event_loop alive idle schedule).1) app)
        (tick_events 1)
      ≡ returns m')
    × (m'.data_queue ≡ [])
    × (shown_at (mesh 7) (draw wide m').body ≡ some (fig.name, advice_for sensor.soil.moisture))
datagram-shown_example =
    datagram-shown parse_any wide bound node_addr wakeups earlier (2 ∷ []) 102 sensor alive 10 11
      idle schedule app fig 1 refl refl (tt, (tt, (tt, (tt, (tt, (tt, (tt, tt))))))) idle-Listens
      refl own_readings all_delivered (app-IsSound.0) node_7 refl refl few_enough

-- Plant 7 moves, and plant 8 is new.
abbrev first_move : NodeStatus
first_move = registration (eui_of 7, mesh 9, b'f' ∷ [])

abbrev second_move : NodeStatus
second_move = registration (eui_of 8, mesh 8, b'i' ∷ [])

abbrev moves : List Step
moves =
    event_arrives (node_registration (eui_of 7, mesh 9, b'f' ∷ []))
    ∷ event_arrives (node_registration (eui_of 8, mesh 8, b'i' ∷ []))
    ∷ takes_event
    ∷ data_arrives (at_time 100)
    ∷ takes_data
    ∷ takes_event
    ∷ []

abbrev everyone : ℕ → Bool
everyone c = true

front_end-Listens : Listens everyone 10 11 idle
front_end-Listens = record {
  data_alive = refl;
  status_alive = refl;
  data_once = refl;
  status_once = refl;
}

database-Listens : Listens everyone 12 13 idle
database-Listens = record {
  data_alive = refl;
  status_alive = refl;
  data_once = refl;
  status_once = refl;
}

abbrev handled : List (List NodeSensorReading × Event)
handled =
    ([], node_state first_move)
    ∷ (at_time 100 ∷ [], tick_event)
    ∷ ([], app_cmd next)
    ∷ ([], node_state second_move)
    ∷ []

all_handled : statuses_in handled ≡ statuses_to 11 (event_loop everyone idle moves).1
unfolding event_loop step send_readings send_status handle_event
all_handled = refl

same_address :
    addr_of (lookup (eui_of 7) (memory_laws.tables stored).plants)
    ≡ shown conversions.show (lookup (eui_of 7) app.node_addrs)
unfolding lookup
same_address = refl

clients_agree_example :
    (m' : PlantMinder) × (run app handled ≡ returns m')
    × (addr_of (
          lookup
            (eui_of 7)
            (memory_laws.tables (
              registry_task memory conversions
                (statuses_to 13 (event_loop everyone idle moves).1)
                stored)).plants)
        ≡ shown conversions.show (lookup (eui_of 7) m'.node_addrs))
clients_agree_example =
    clients_agree everyone 10 11 12 13 idle moves app handled memory memory_laws conversions stored
      (eui_of 7) (tt, (tt, (tt, (tt, (tt, (tt, tt)))))) front_end-Listens database-Listens
      all_handled (tt, (tt, (tt, (tt, tt)))) app-IsSound refl memory_succeeds same_address
