-- ===== src/Delivery/Measured.antt =====
-- From a node's sensors to the screen: Firmware.Node before the way of its datagrams.
use plant_minder.Base.{
  ℕ, ◌*◌, ◌≤◌, ◌≡◌, List, [], ◌∷◌, ◌++◌, Bool, true, Option, some, returns, take, length, All,
  nat_eq,
}
use plant_minder.Net.{Ipv6Addr, SocketAddrV6, v6}
use plant_minder.Map.{lookup, IsMap}
use plant_minder.Sensor.{SensorReading, PlatformSensorError}
use plant_minder.Broker.Node.{Wakeup, recv_from, node_event_handler}
use plant_minder.Broker.Node.Stream.{before_end}
use plant_minder.Broker.Hub.{Sender, Broker, Step, event_loop, sensor_stream_process}
use plant_minder.Broker.Hub.FanOut.{readings_to, arriving_readings, NoApi}
use plant_minder.Broker.Hub.Interleaving.{Listens}
use plant_minder.Firmware.{Reading}
use plant_minder.Firmware.Platform.{Json}
use plant_minder.Firmware.Platform.Reference.{Slot, Perform, bytes_in, report}
use plant_minder.Firmware.Node
use plant_minder.Firmware.Node.{Codec, goes_on, report_sent, turn, unfire}
use plant_minder.Firmware.Node.Progress.{quiet, turn-quiet}
use plant_minder.Minder
use plant_minder.Minder.{PlantMinder, arrive, from_key, run}
use plant_minder.Minder.Table.{advice_for}
use plant_minder.Minder.Draining.{tick_events}
use plant_minder.Ui.History.{F64Ops}
use plant_minder.Ui.Screen.{draw}
use plant_minder.Delivery.{shown_at, datagram-shown}

module _ {S : Type 0} (read : List ℕ → ℕ → S → Reading S PlatformSensorError) (json : Json)
    (c : Codec) (parse : List ℕ → Option SensorReading) where
  -- What a node measures is what the screen advises by. A node that has been asked for its readings and
  -- whose timer has fired sends one datagram with the report of its sensors, if their bytes fit in the
  -- buffer, the report can be printed and sent, and nothing comes in. If the broker reads that report
  -- back from the datagram, and it is the last that reaches the node's task, the screen ends up with
  -- the advice for the measured moisture, under the conditions on the event loop and the front end that
  -- hold for any datagram.
  pub measured-shown :
      (n : Node.Node S) (omr : Ipv6Addr) (p : ℕ) (buffer : List ℕ) (slots : List Slot)
      (ss' : List (Option S)) (bytes : List ℕ)
      → n.observer_addr ≡ some (omr, p)
      → n.statics.sensor_timer_fired ≡ true
      → Perform read json n.sensors slots ss'
      → bytes_in slots ≤ length buffer
      → c.report_json (report json slots) ≡ some bytes
      → parse (take 512 bytes) ≡ some (report json slots)
      → (f : F64Ops) (addr a : SocketAddrV6) (ws earlier : List Wakeup) (t : ℕ)
        (alive : Sender → Bool) (data_channel status_channel : Sender) (b : Broker)
        (schedule : List Step) (m : PlantMinder) (node : Minder.Node) (k : ℕ)
      → before_end ws ≡ earlier ++ recv_from bytes (v6 a) t ∷ []
      → All NoApi schedule
      → Listens alive data_channel status_channel b
      → b.data_queue ≡ []
      → from_key a.ip (arriving_readings schedule)
        ≡ (sensor_stream_process (node_event_handler parse true addr ws)).readings
      → (event_loop alive b schedule).0.data_queue ≡ []
      → IsMap m.nodes
      → lookup a.ip m.nodes ≡ some node
      → m.running ≡ true
      → m.tab ≡ 0
      → length (arrive (readings_to data_channel (event_loop alive b schedule).1) m).data_queue
        ≤ 20 * k
      → (turn read json c (quiet read json c buffer) n
          ≡ goes_on (record (unfire n) { sensors = ss' }) (report_sent bytes omr p ∷ []))
        × ((m' : PlantMinder) × (run
                (arrive (readings_to data_channel (event_loop alive b schedule).1) m)
                (tick_events k)
              ≡ returns m')
            × (shown_at a.ip (draw f m').body
                ≡ some (node.name, advice_for (report json slots).soil.moisture)))
  measured-shown n omr p buffer slots ss' bytes known fired works fits printed parsed f addr a ws
        earlier t alive d s b schedule m node k last same listens empty own drained maps found
        running table few =
      let (m', ended, no_more, shown) =
        datagram-shown parse f addr a ws earlier bytes t (report json slots) alive d s b schedule m
          node k last parsed same listens empty own drained maps found running table few in
      (
        turn-quiet read json c n omr p buffer slots ss' bytes known fired works fits printed,
        (m', ended, shown),
      )
