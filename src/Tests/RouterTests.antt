-- ===== src/Tests/RouterTests.antt =====
-- Tests of the ports, of the registration of nodes and of the polling task.
use mathlib.Core.Path.{subst}
use plant_minder.Base.{
  ℕ, ◌≡◌, refl, List, [], ◌∷◌, Bool, true, false, ◌||◌, some, ok, nat_eq, arith, length,
  ok-injective, sym, ◌∙◌, ◌*◌, ◌^◌, take, drop, if◌then◌else◌, ◌==◌,
}
use plant_minder.Net.{Ipv6Addr, SocketAddrV6}
use plant_minder.Map.{lookup, contains_key}
use plant_minder.Broker.Types.{Rloc, OtClient}
use plant_minder.Broker.Ports.{is_free}
use plant_minder.Broker.Monitor.{
  OtMonitor, check_new_node, monitor_network_status, get_nodes, omr_ip,
}
use plant_minder.Broker.Monitor.Invariant.{IsConsistent}
use plant_minder.Broker.Router.{
  Answers, poll, plant_name, register_one, fallback_port, Progress, goes_on, task_panics, polled,
  sensor_stream, registered,
}
use plant_minder.Broker.Router.Coap.{
  Exchange, Received, datagram, recv_error, Registered, settled, crashed, EventRouterError, io,
  coap_observer_register,
}
use plant_minder.Broker.Router.Coap.Laws.{Answered, coap_observer_register_lem}
use plant_minder.Broker.Router.Accounting.{Accounts, holds_node}
use plant_minder.Broker.Router.Holding.{Registers}
use plant_minder.Broker.Router.Quiet.{IsQuiet, poll-IsQuiet}
use plant_minder.Broker.Router.Origins.{RoundFrom, poll-RoundFrom}
use plant_minder.Broker.Router.Rounds.{
  Settles, HasRoom, Steady, poll-Steady, fallback_frees_held_port,
}
use plant_minder.Tests.{client, monitor, order, mesh}

-- A datagram that holds an identifier and the name `fig`.
abbrev pub hello : List ℕ
hello = 1 ∷ 2 ∷ 3 ∷ 4 ∷ 5 ∷ 6 ∷ b'f' ∷ b'i' ∷ b'g' ∷ []

-- The node answers an empty datagram first, and the payload is the whole datagram.
abbrev pub answers_late : Exchange
answers_late = record {
  encodes = λ _. true;
  binds = λ _. true;
  first = some (datagram []);
  later = datagram hello ∷ [];
  decode = λ bytes. some bytes;
}

pub late-Settles : Settles answers_late
unfolding coap_observer_register plant_minder.Broker.Router.Coap.until_data
late-Settles omr ip port =
    (ok (some (record { ip = omr; port = port }, take 6 hello, drop 6 hello)), refl)

abbrev round : Answers
round = record {
  network_status = client;
  new_nodes = client;
  omr_address = client;
  node_status = client;
  exchanges = λ _. answers_late;
}

-- The three ports of the test's pool.
abbrev pub pool : ℕ → Bool
pool p = contains_key p monitor.nodes || contains_key p monitor.ports.ports

monitor-IsConsistent : IsConsistent monitor
unfolding lookup
monitor-IsConsistent = record {
  nodes_map = (refl, (refl, tt));
  ports_map = (refl, tt);
  own_port = (refl, (refl, tt));
}

pub monitor-Accounts : Accounts pool monitor
unfolding lookup
monitor-Accounts = record {
  consistent = monitor-IsConsistent;
  split = λ p. ground arith;
  inside = λ p h. ground (arith, h);
}

round_nodes :
    (check_new_node client (monitor_network_status client monitor).1).0 ≡ ok ((8, mesh 8) ∷ [])
unfolding check_new_node get_nodes plant_minder.Net.segment0 monitor_network_status
    plant_minder.Broker.Monitor.check_addr_update_needed plant_minder.Broker.Monitor.is_registered
round_nodes = refl

round_room :
    (nodes : List (Rloc × Ipv6Addr))
    → (check_new_node client (monitor_network_status client monitor).1).0 ≡ ok nodes
    → HasRoom (length nodes) monitor
round_room nodes h =
    subst (λ (l : List (Rloc × Ipv6Addr)). HasRoom (length l) monitor)
      (ok-injective (sym round_nodes ∙ h)) (omega arith)

poll_example : Steady pool (poll order round monitor)
poll_example =
    poll-Steady pool order round monitor (λ (j : ℕ). late-Settles) round_room monitor-Accounts

late-Answered :
    Answered
      (mesh 1)
      (mesh 8)
      1215
      1
      1
      (2 ∷ 3 ∷ 4 ∷ 5 ∷ 6 ∷ b'f' ∷ b'i' ∷ b'g' ∷ [])
      []
      answers_late
late-Answered = record { encodes = refl; binds = refl; opening = []; first = refl; answers = refl }

coap_observer_register_example :
    coap_observer_register (mesh 1) (mesh 8) 1215 answers_late
    ≡ settled (ok (some (record { ip = mesh 1; port = 1215 }, take 6 hello, drop 6 hello)))
coap_observer_register_example =
    coap_observer_register_lem (mesh 1) (mesh 8) 1215 1 1
      (2 ∷ 3 ∷ 4 ∷ 5 ∷ 6 ∷ b'f' ∷ b'i' ∷ b'g' ∷ []) [] answers_late late-Answered

-- Twenty-two bytes, of which the name keeps twenty.
abbrev long_name : List ℕ
long_name =
    97 ∷ 98 ∷ 99 ∷ 100 ∷ 101 ∷ 102 ∷ 103 ∷ 104 ∷ 105 ∷ 106 ∷ 107 ∷ 108 ∷ 109 ∷ 110 ∷ 111 ∷ 112 ∷ 113
    ∷ 114 ∷ 115 ∷ 116 ∷ 117 ∷ 118 ∷ []

-- No port is free.
abbrev full : OtMonitor
full = record monitor { ports = record { base = 1213; ports = [] } }

abbrev unbound : Exchange
unbound = record answers_late { binds = λ _. false }

fallback_example :
    (m' : OtMonitor) × (register_one order full (mesh 1) 0 (8, mesh 8) unbound ≡ goes_on m' [])
    × (is_free m'.ports (fallback_port 0) ≡ true)
    × (holds_node m' (fallback_port 0) ≡ true)
unfolding lookup fallback_port coap_observer_register
fallback_example =
    fallback_frees_held_port order full (mesh 1) (mesh 8) 8 0 unbound io refl refl refl

late-Registers : Registers answers_late
unfolding coap_observer_register plant_minder.Broker.Router.Coap.until_data
late-Registers omr ip port = (record { ip = omr; port = port }, take 6 hello, drop 6 hello, refl)

poll-IsQuiet_example : IsQuiet client (poll order round monitor)
poll-IsQuiet_example =
    poll-IsQuiet pool order round monitor ((7, mesh 7) ∷ (8, mesh 8) ∷ (9, 0xfe80 * 2 ^ 112) ∷ [])
      (mesh 1) (λ (j : ℕ). late-Registers) refl refl refl round_room monitor-Accounts

-- Two nodes are new, and the second answers with two bytes.
abbrev two_new : OtClient
two_new = record client { get_child_ips = ok ((8, mesh 8) ∷ (9, mesh 9) ∷ []) }

abbrev crashing : Answers
crashing = record round {
  new_nodes = two_new;
  exchanges = λ i.
      if i == 0 then answers_late else record answers_late { later = datagram (1 ∷ 2 ∷ []) ∷ [] };
}

poll-RoundFrom_example :
    RoundFrom crashing.exchanges
      (ok ((8, mesh 8) ∷ (9, mesh 9) ∷ []))
      (ok (mesh 1))
      (poll order crashing monitor)
unfolding check_new_node get_nodes monitor_network_status
    plant_minder.Broker.Monitor.check_addr_update_needed plant_minder.Net.segment0 omr_ip
    plant_minder.Broker.Monitor.is_registered plant_minder.Broker.Monitor.get_omr_ip
poll-RoundFrom_example = poll-RoundFrom order crashing monitor

-- The first node is announced although the task crashes at the second.
announced_before_crash :
    (m' : OtMonitor) × (poll order crashing monitor
      ≡ polled (
          task_panics m' (
            sensor_stream (record { ip = mesh 1; port = 1215 })
            ∷ registered (1 ∷ 2 ∷ 3 ∷ 4 ∷ 5 ∷ 6 ∷ [], mesh 8, b'f' ∷ b'i' ∷ b'g' ∷ [])
            ∷ [])))
unfolding poll check_new_node get_nodes monitor_network_status
    plant_minder.Broker.Monitor.check_addr_update_needed plant_minder.Net.segment0 omr_ip
    plant_minder.Broker.Monitor.is_registered plant_minder.Broker.Router.register_new
    plant_minder.Broker.Router.finish plant_minder.Broker.Monitor.get_omr_ip
    plant_minder.Broker.Router.register_all plant_minder.Broker.Router.then_on register_one
    plant_minder.Broker.Router.conclude coap_observer_register
    plant_minder.Broker.Router.Coap.until_data plant_minder.Broker.Monitor.reserve_free_port
    plant_name plant_minder.Broker.Ports.get_free_port plant_minder.Base.from_utf8
announced_before_crash = (_, refl)
