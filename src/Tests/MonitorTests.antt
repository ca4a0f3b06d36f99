-- ===== src/Tests/MonitorTests.antt =====
-- Tests of the actor that tracks nodes and ports.
use plant_minder.Base.{◌≡◌, refl, ◌⊎◌, List, [], ◌∷◌, ok, err, nat_eq, false}
use plant_minder.Net.{Ipv6Addr, segment0}
use plant_minder.Map.{lookup, IsMap}
use plant_minder.Broker.Types.{Rloc, OtClient, OtMonitorError}
use plant_minder.Broker.Monitor.{
  OtMonitor, Message, reserve_free_port, get_nodes, get_node_status, check_new_node,
  internal_registration, is_listed, is_registered, monitor_network_status, omr_ip_msg,
  reserve_free_port_msg, internal_registration_msg, get_node_status_msg, new, register_node,
  update_addr, check_addr_update_needed, get_omr_ip,
}
use plant_minder.Broker.Monitor.Registry.{Swept, lost_nodes, get_node_status_lem}
use plant_minder.Broker.Monitor.Invariant.{serve}
use plant_minder.Broker.Monitor.Pool.{AllFair, taken_by, Divides, Grants, serve-Divides}
use plant_minder.Tests.{client, monitor, order, node_at, mesh}

monitor-IsMap : IsMap monitor.nodes
unfolding lookup
monitor-IsMap = (refl, (refl, tt))

get_node_status_example :
    ((e : OtMonitorError) × (get_nodes client monitor ≡ err e)
      × (get_node_status client monitor ≡ (err e, monitor)))
    ⊎ ((active : List (Rloc × Ipv6Addr)) × (get_nodes client monitor ≡ ok active)
        × ((get_node_status client monitor).0 ≡ ok (lost_nodes active monitor.nodes))
        × Swept active monitor (get_node_status client monitor).1)
get_node_status_example = get_node_status_lem client monitor monitor-IsMap

-- The node that is gone is reported.
lost_node : (get_node_status client monitor).0 ≡ ok ((6, mesh 6) ∷ [])
unfolding get_node_status get_nodes plant_minder.Broker.Monitor.missing_nodes is_listed segment0
lost_node = refl

new_node : (check_new_node client monitor).0 ≡ ok ((8, mesh 8) ∷ [])
unfolding check_new_node get_nodes segment0 is_registered
new_node = refl

-- Before its first check the actor may have the loopback address.
abbrev unset : OtMonitor
unset = record monitor { addr = 1 }

same_scope : segment0 (mesh 1) ≡ segment0 (mesh 0)
unfolding segment0
same_scope = refl

-- A port is reserved and a node registered on it, another is reserved and kept, and the nodes are
-- swept.
abbrev traffic : List (OtClient × Message)
traffic =
    (client, reserve_free_port_msg)
    ∷ (client, internal_registration_msg (node_at 7 1213))
    ∷ (client, reserve_free_port_msg)
    ∷ (client, get_node_status_msg)
    ∷ []

traffic_fair : AllFair order (new client) (λ p. false) traffic
unfolding new reserve_free_port plant_minder.Broker.Ports.get_free_port
    plant_minder.Broker.Ports.new plant_minder.Map.insert
traffic_fair = (tt, (refl, (tt, (tt, tt))))

serve-Divides_example :
    let m = serve order (new client) traffic in
    let taken = taken_by order (new client) (λ p. false) traffic in
    Divides m taken × Grants order m taken
serve-Divides_example = serve-Divides order client traffic traffic_fair
