-- ===== src/Tests/MeasuredTests.antt =====
-- Tests of the way from a node's sensors to the screen.
use plant_minder.Base.{
  ℕ, ◌*◌, ◌≤◌, ◌≡◌, refl, List, [], ◌∷◌, true, Option, none, some, returns, length, arith, nat_eq,
}
use plant_minder.Net.{v6}
use plant_minder.Sensor.{SensorReading}
use plant_minder.Broker.Types.{NodeSensorReading}
use plant_minder.Broker.Node.{
  Wakeup, recv_from, timed_out, node_event_handler, receive_loop, sender_addr,
}
use plant_minder.Broker.Hub.{
  Step, takes_data, data_arrives, event_loop, step, send_readings, sensor_stream_process,
}
use plant_minder.Broker.Hub.FanOut.{readings_to, arriving_readings}
use plant_minder.Firmware.Platform.Reference.{Slot, wrote, Perform, no_more, writes, report}
use plant_minder.Firmware.Node
use plant_minder.Firmware.Node.{goes_on, report_sent, turn, unfire}
use plant_minder.Firmware.Node.Progress.{quiet}
use plant_minder.Minder.{PlantMinder, arrive, run, from_key}
use plant_minder.Minder.Table.{advice_for}
use plant_minder.Minder.Draining.{tick_events}
use plant_minder.Ui.Screen.{draw}
use plant_minder.Delivery.{shown_at}
use plant_minder.Delivery.Measured.{measured-shown}
use plant_minder.Tests.{mesh}
use plant_minder.Tests.FirmwareTests.{TestSensor, writer, read_test, json, soil-Writes}
use plant_minder.Tests.NodeTests.{codec, soil_only, observed, zeros}
use plant_minder.Tests.HubTests.{alive, bound}
use plant_minder.Tests.DeliveryTests.{node_addr, idle, idle-Listens}
use plant_minder.Tests.MinderTests.{app, app-IsSound, fig, node_7}
use plant_minder.Tests.UiTests.{wide}

-- The timer of the observed node has fired.
abbrev due : Node.Node TestSensor
due = record observed { statics = record observed.statics { sensor_timer_fired = true } }

abbrev slots : List Slot
slots = wrote (800 ∷ 20 ∷ []) ∷ []

performed : Perform read_test json soil_only slots soil_only
performed = writes (writer 800 20) (writer 800 20) (800 ∷ 20 ∷ []) soil-Writes no_more

-- The report of the moisture, read back.
abbrev parse : List ℕ → Option SensorReading
parse (m ∷ []) =
    some (record { soil = record { moisture = m; temp = 20 }; light = none; gas = none; ts = 0 })
parse _ = none

abbrev wakeups : List Wakeup
wakeups = recv_from (800 ∷ []) (v6 node_addr) 102 ∷ timed_out ∷ []

abbrev newest : NodeSensorReading
newest = record { addr = node_addr; reading = record (report json slots) { ts = 102 } }

abbrev schedule : List Step
schedule = data_arrives newest ∷ takes_data ∷ []

own_reading :
    from_key (mesh 7) (arriving_readings schedule)
    ≡ (sensor_stream_process (node_event_handler parse true bound wakeups)).readings
unfolding sensor_stream_process node_event_handler receive_loop plant_minder.Broker.Node.report
    sender_addr
own_reading = refl

delivered : (event_loop alive idle schedule).0.data_queue ≡ []
unfolding event_loop step send_readings
delivered = refl

few_enough :
    length (arrive (readings_to 10 (event_loop alive idle schedule).1) app).data_queue ≤ 20 * 1
unfolding event_loop step send_readings
few_enough = omega arith

measured-shown_example :
    (turn read_test json codec (quiet read_test json codec (zeros 127)) due
      ≡ goes_on
          (record (unfire due) { sensors = soil_only })
          (report_sent (800 ∷ []) (mesh 1) 1300 ∷ []))
    × ((m' : PlantMinder) × (run
            (arrive (readings_to 10 (event_loop alive idle schedule).1) app)
            (tick_events 1)
          ≡ returns m')
        × (shown_at (mesh 7) (draw wide m').body
            ≡ some (fig.name, advice_for (report json slots).soil.moisture)))
measured-shown_example =
    measured-shown read_test json codec parse due (mesh 1) 1300 (zeros 127) slots soil_only
      (800 ∷ []) refl refl performed (omega arith) refl refl wide bound node_addr wakeups [] 102
      alive 10 11 idle schedule app fig 1 refl (tt, (tt, tt)) idle-Listens refl own_reading
      delivered app-IsSound.0 node_7 refl refl few_enough
