-- ===== src/Broker/Router.antt =====
-- `EventRouter` of pmind-broker/src/router.rs: the CoAP registration of a node, and one round of
-- the task that polls the mesh for new and lost nodes.
pub mod Handle
pub mod Coap
pub mod Accounting
pub mod Rounds
pub mod Names
pub mod Origins
pub mod Announced
pub mod Holding
pub mod Quiet
use plant_minder.Base.{
  ℕ, zero, suc, ◌+◌, ◌%◌, ◌^◌, ◌≡◌, List, [], ◌∷◌, ◌++◌, Bool, true, false, Option, none, some,
  if◌then◌else◌, ltb, Result, ok, err, Outcome, returns, panics, take, length, from_utf8,
}
use plant_minder.Net.{Ipv6Addr, SocketAddrV6}
use plant_minder.Broker.Types.{
  Eui, Rloc, OtClient, OtMonitorError, Registration, max_plant_name_size,
}
use plant_minder.Broker.Ports.{Order}
use plant_minder.Broker.Monitor.{
  OtMonitor, InternalRegistration, get_node_status, check_new_node, monitor_network_status, omr_ip,
  reserve_free_port, internal_registration, return_free_port,
}
use Coap.{Exchange, Registered, settled, crashed, waiting, coap_observer_register}

-- What a registered node hands to the broker: the stream of its events, and its registration.
pub data Output : Type 0 where
  sensor_stream : SocketAddrV6 → Output
  registered : Registration → Output

abbrev pub unwrap_or_empty : Option (List ℕ) → List ℕ
unwrap_or_empty none = []
unwrap_or_empty (some s) = s

-- `name.drain(MAX_PLANT_NAME_SIZE..)`, then `String::from_utf8(name).unwrap_or_default()`.
unfoldable pub plant_name : List ℕ → List ℕ
plant_name name = unwrap_or_empty (
    from_utf8
      (if ltb max_plant_name_size (length name) then take max_plant_name_size name else name))

-- `1213 + i as u16`
unfoldable pub fallback_port : ℕ → ℕ
fallback_port i = (1213 + i % 2 ^ 16) % 2 ^ 16

abbrev pub port_or : ℕ → Result ℕ OtMonitorError → ℕ
port_or i (ok p) = p
port_or i (err _) = fallback_port i

-- What a step of the task does: it goes on with a new state, it crashes, or it never returns; with
-- what it has handed over by then.
pub data Progress (A : Type 0) : Type 0 where
  goes_on task_panics task_waits : OtMonitor → A → Progress A

-- After the exchange with a node on `port`.
unfoldable pub conclude : OtMonitor → Rloc → Ipv6Addr → ℕ → Registered → Progress (List Output)
conclude m rloc ip port (settled (ok (some (addr, eui, name)))) =
    goes_on (internal_registration m (record { rloc = rloc; ip = ip; port = port; eui = eui })).1
      (sensor_stream addr ∷ registered (eui, ip, plant_name name) ∷ [])
conclude m rloc ip port (settled (ok none)) = goes_on (return_free_port m port).1 []
conclude m rloc ip port (settled (err _)) = goes_on (return_free_port m port).1 []
conclude m rloc ip port crashed = task_panics m []
conclude m rloc ip port waiting = task_waits m []

-- The body of the loop over the new nodes.
unfoldable pub register_one :
    Order → OtMonitor → Ipv6Addr → ℕ → Rloc × Ipv6Addr → Exchange → Progress (List Output)
register_one o m omr i (rloc, ip) x =
    let (r, m') = reserve_free_port o m in
    let port = port_or i r in conclude m' rloc ip port (coap_observer_register omr ip port x)

unfoldable pub and_then : List Output → Progress (List Output) → Progress (List Output)
and_then out (goes_on m more) = goes_on m (out ++ more)
and_then out (task_panics m more) = task_panics m (out ++ more)
and_then out (task_waits m more) = task_waits m (out ++ more)

-- The next step runs only if this one goes on; the outputs add up, also if the next one crashes.
unfoldable pub then_on :
    Progress (List Output) → (OtMonitor → Progress (List Output)) → Progress (List Output)
unfolding and_then
then_on (goes_on m out) next = and_then out (next m)
then_on (task_panics m out) next = task_panics m out
then_on (task_waits m out) next = task_waits m out

-- The nodes are registered one after the other; `i` counts them, and `xs i` is the exchange with
-- the node of that number.
unfoldable pub register_all :
    Order
    → OtMonitor
    → Ipv6Addr
    → (ℕ → Exchange)
    → ℕ
    → List (Rloc × Ipv6Addr)
    → Progress (List Output)
register_all o m omr xs i [] = goes_on m []
register_all o m omr xs i (node ∷ nodes) =
    then_on (register_one o m omr i node (xs i)) (λ m'. register_all o m' omr xs (i + 1) nodes)

-- What the network answers to the four questions of a round.
pub record Answers : Type 0 where
  pub network_status : OtClient
  pub new_nodes : OtClient
  pub omr_address : OtClient
  pub node_status : OtClient
  pub exchanges : ℕ → Exchange

-- The end of a round: the lost nodes are swept out, and the task sleeps until the next one.
unfoldable pub finish : OtClient → Progress (List Output) → Progress (List Output)
finish c (goes_on m out) = goes_on (get_node_status c m).1 out
finish c (task_panics m out) = task_panics m out
finish c (task_waits m out) = task_waits m out

pub data Round : Type 0 where
  polled : Progress (List Output) → Round
  exits : OtMonitor → Round

unfoldable pub register_new :
    Order → Answers → OtMonitor → Result (List (Rloc × Ipv6Addr)) OtMonitorError → Round
register_new o a m (err _) = exits m
register_new o a m (ok nodes) = polled (
    finish a.node_status (elim (omr_ip a.omr_address m).0 [
      | ok omr ↦ register_all o m omr a.exchanges 0 nodes
      | err _ ↦ goes_on m []
    ]))

-- One turn of the loop in `spawn_child_mon_task`.
unfoldable pub poll : Order → Answers → OtMonitor → Round
poll o a m =
    let m1 = (monitor_network_status a.network_status m).1 in
    let (r, m2) = check_new_node a.new_nodes m1 in register_new o a m2 r
