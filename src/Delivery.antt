-- ===== src/Delivery.antt =====
-- From a node's datagrams to the screen: Broker.Node, Broker.Hub, Minder and Ui in a row.
pub mod Agreement
pub mod Measured
pub mod Registrations
pub mod Started
use mathlib.Core.List.{append-nil, append_assoc}
use plant_minder.Base.{
  ap, sym, ◌∙◌, arith, ℕ, ◌*◌, ◌≤◌, ◌≡◌, refl, List, [], ◌∷◌, ◌++◌, Bool, true, Option, none, some,
  if◌then◌else◌, returns, take, length, keep-append, ◌==◌, nat_eq, All,
}
use plant_minder.Net.{Ipv6Addr, SocketAddrV6, v6}
use plant_minder.Map.{lookup, IsMap}
use plant_minder.Sensor.{SensorReading}
use plant_minder.Broker.Types.{
  NodeEvent, sensor_reading, node_timeout, socket_failed, setup_failed, NodeSensorReading,
}
use plant_minder.Broker.Node.{
  Wakeup, sender_closed, timed_out, recv_failed, recv_from, stamped, node_event_handler,
}
use plant_minder.Broker.Node.Stream.{before_end, last_sender, readings}
use plant_minder.Broker.Hub.{Sender, Broker, Step, event_loop, sensor_stream_process}
use plant_minder.Broker.Hub.FanOut.{readings_to, arriving_readings, NoApi}
use plant_minder.Broker.Hub.Interleaving.{Listens, event_loop-Conserves}
use plant_minder.Broker.Hub.Streams.{readings_in, forwarded_lem}
use plant_minder.Minder.{PlantMinder, Node, Nodes, arrive, from_key, run}
use plant_minder.Minder.Table.{Advice, advice, advice_for}
use plant_minder.Minder.Draining.{
  ticks_lem, tick_events, run-tick_events, advice_after, advice_after-append,
}
use plant_minder.Ui.History.{F64Ops}
use plant_minder.Ui.Screen.{
  Body, node_last_table, node_history, node_rows, draw, render_selection, render_node_last_table,
}

-- What the table says of the plant at an address.
abbrev pub row_at : Ipv6Addr → List (List ℕ × Ipv6Addr × Advice) → Option (List ℕ × Advice)
row_at j [] = none
row_at j ((name, addr, a) ∷ rows) =
    let rest = row_at j rows in if addr == j then some (name, a) else rest

abbrev pub shown_at : {f : F64Ops} → Ipv6Addr → Body f → Option (List ℕ × Advice)
shown_at j (node_last_table rows) = row_at j rows
shown_at j (node_history h) = none

row_at-node_rows :
    (j : Ipv6Addr) (nodes : Nodes) (node : Node)
    → lookup j nodes ≡ some node
    → row_at j (node_rows nodes) ≡ some (node.name, advice node.history)
unfolding lookup
row_at-node_rows j [] node h = cc
row_at-node_rows j ((a, x) ∷ nodes) node h = ground (arith, row_at-node_rows j nodes node)

draw-table :
    (f : F64Ops) (m : PlantMinder)
    → m.tab ≡ 0
    → (draw f m).body ≡ node_last_table (node_rows m.nodes)
unfolding draw render_selection render_node_last_table
draw-table f m table = ground (arith, table)

readings_in-append :
    (xs ys : List NodeEvent) → readings_in (xs ++ ys) ≡ readings_in xs ++ readings_in ys
readings_in-append [] ys = refl
readings_in-append (sensor_reading r ∷ xs) ys = ap (◌∷◌ r) (readings_in-append xs ys)
readings_in-append (node_timeout a ∷ xs) ys = readings_in-append xs ys
readings_in-append (socket_failed a ∷ xs) ys = readings_in-append xs ys
readings_in-append (setup_failed ∷ xs) ys = readings_in-append xs ys

module _ (parse : List ℕ → Option SensorReading) where
  readings-last :
      (addr a : SocketAddrV6) (earlier : List Wakeup) (bytes : List ℕ) (t : ℕ)
      → readings parse addr (earlier ++ recv_from bytes (v6 a) t ∷ [])
        ≡ readings parse addr earlier ++ stamped a t (parse (take 512 bytes))
  readings-last addr a [] bytes t = append-nil _
  readings-last addr a (recv_from b from t' ∷ ws) bytes t =
      rw (readings-last (last_sender addr (recv_from b from t' ∷ [])) a ws bytes t, append_assoc)
  readings-last addr a (sender_closed ∷ ws) bytes t = readings-last addr a ws bytes t
  readings-last addr a (timed_out ∷ ws) bytes t = readings-last addr a ws bytes t
  readings-last addr a (recv_failed ∷ ws) bytes t = readings-last addr a ws bytes t

  -- The last datagram is the last reading that is passed on.
  passed_on :
      (addr a : SocketAddrV6) (ws earlier : List Wakeup) (bytes : List ℕ) (t : ℕ)
      (r : SensorReading)
      → before_end ws ≡ earlier ++ recv_from bytes (v6 a) t ∷ []
      → parse (take 512 bytes) ≡ some r
      → (sensor_stream_process (node_event_handler parse true addr ws)).readings
        ≡ readings_in (readings parse addr earlier)
          ++ record { addr = a; reading = record r { ts = t } } ∷ []
  passed_on addr a ws earlier bytes t r last parsed =
      ap (λ p. p.readings) (forwarded_lem parse addr ws).0
      ∙ ap (λ l. readings_in (readings parse addr l)) last
      ∙ ap readings_in (readings-last addr a earlier bytes t)
      ∙ readings_in-append (readings parse addr earlier) _
      ∙ ap (λ o. readings_in (readings parse addr earlier) ++ readings_in (stamped a t o)) parsed

  -- The readings of an address that a client finds in its queue are those of the schedule, if the loop
  -- has nothing to deliver at the start and at the end.
  client_queue :
      (alive : Sender → Bool) (c d : Sender) (b : Broker) (schedule : List Step) (m : PlantMinder)
      (j : Ipv6Addr)
      → All NoApi schedule
      → Listens alive c d b
      → b.data_queue ≡ []
      → (event_loop alive b schedule).0.data_queue ≡ []
      → from_key j (arrive (readings_to c (event_loop alive b schedule).1) m).data_queue
        ≡ from_key j m.data_queue ++ from_key j (arriving_readings schedule)
  client_queue alive c d b schedule m j same listens empty drained =
      let out = readings_to c (event_loop alive b schedule).1 in
      let conserved = event_loop-Conserves alive c d b schedule same listens in
      let delivered : out ≡ arriving_readings schedule =
        sym (append-nil out)
        ∙ ap (λ q. out ++ q) (sym drained)
        ∙ conserved.readings
        ∙ ap (λ q. q ++ arriving_readings schedule) empty in
      keep-append (λ (r : NodeSensorReading). r.addr.ip == j) m.data_queue out
      ∙ ap (λ l. from_key j m.data_queue ++ from_key j l) delivered

  -- The screen ends up with the advice for a node's last datagram: if it parses, if all readings from
  -- the node's address that come to the event loop are those of the node's task, if the loop delivers
  -- all that it has to a client that is subscribed once and listens, while the clients stay the same,
  -- and if the front end, which runs, knows the node and shows the table, then has a tick for each twenty
  -- readings in its queue. How the readings of other nodes come in between, and what its queue held
  -- before, makes no difference, and its queue is empty in the end.
  pub datagram-shown :
      (f : F64Ops) (addr a : SocketAddrV6) (ws earlier : List Wakeup) (bytes : List ℕ) (t : ℕ)
      (r : SensorReading) (alive : Sender → Bool) (c d : Sender) (b : Broker) (schedule : List Step)
      (m : PlantMinder) (node : Node) (k : ℕ)
      → before_end ws ≡ earlier ++ recv_from bytes (v6 a) t ∷ []
      → parse (take 512 bytes) ≡ some r
      → All NoApi schedule
      → Listens alive c d b
      → b.data_queue ≡ []
      → from_key a.ip (arriving_readings schedule)
        ≡ (sensor_stream_process (node_event_handler parse true addr ws)).readings
      → (event_loop alive b schedule).0.data_queue ≡ []
      → IsMap m.nodes
      → lookup a.ip m.nodes ≡ some node
      → m.running ≡ true
      → m.tab ≡ 0
      → length (arrive (readings_to c (event_loop alive b schedule).1) m).data_queue ≤ 20 * k
      → (m' : PlantMinder) × (run
            (arrive (readings_to c (event_loop alive b schedule).1) m)
            (tick_events k)
          ≡ returns m')
        × (m'.data_queue ≡ [])
        × (shown_at a.ip (draw f m').body ≡ some (node.name, advice_for r.soil.moisture))
  datagram-shown f addr a ws earlier bytes t r alive c d b schedule m node k last parsed same
        listens empty own drained maps found running table few =
      let m1 = arrive (readings_to c (event_loop alive b schedule).1) m in
      let before = readings_in (readings parse addr earlier) in
      let newest : NodeSensorReading = record { addr = a; reading = record r { ts = t } } in
      let queued : from_key a.ip m1.data_queue
          ≡ from_key a.ip m.data_queue ++ before ++ newest ∷ [] =
        client_queue alive c d b schedule m a.ip same listens empty drained
        ∙ ap (λ l. from_key a.ip m.data_queue ++ l)
            (own ∙ passed_on addr a ws earlier bytes t r last parsed)
        ∙ sym (append_assoc (from_key a.ip m.data_queue) before (newest ∷ [])) in
      let (nodes', node', ended, found', named, advised) =
        ticks_lem k m1 a.ip node maps found few in
      let told : advice node'.history ≡ advice_for r.soil.moisture =
        advised
        ∙ ap (λ l. advice_after l (advice node.history)) queued
        ∙ advice_after-append (from_key a.ip m.data_queue ++ before) (newest ∷ []) _ in
      (
        record m1 { data_queue = []; nodes = nodes' },
        run-tick_events k m1 maps running ∙ ended,
        refl,
        ap (shown_at a.ip) (draw-table f (record m1 { data_queue = []; nodes = nodes' }) table)
            ∙ row_at-node_rows a.ip nodes' node' found'
            ∙ ap (λ n. some (n, advice node'.history)) named
            ∙ ap (λ x. some (node.name, x)) told,
      )
