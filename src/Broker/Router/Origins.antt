-- ===== src/Broker/Router/Origins.antt =====
-- Where the registrations come from that the polling task of pmind-broker/src/router.rs passes on.
use plant_minder.Base.{
  ℕ, ◌+◌, ◌≡◌, refl, ◌⊎◌, inl, inr, List, [], ◌∷◌, ◌++◌, Option, none, some, Result, ok, err,
  Result-cases,
}
use plant_minder.Net.{Ipv6Addr}
use plant_minder.Broker.Types.{Eui, Rloc, OtClient, OtMonitorError}
use plant_minder.Broker.Ports.{Order}
use plant_minder.Broker.Monitor.{OtMonitor, check_new_node, monitor_network_status, omr_ip}
use plant_minder.Broker.Router.{
  Output, sensor_stream, registered, Progress, goes_on, task_panics, task_waits, plant_name,
  conclude, register_one, and_then, then_on, register_all, Answers, finish, Round, polled, exits,
  register_new, poll,
}
use plant_minder.Broker.Router.Coap.{
  EventRouterError, Exchange, Registered, settled, crashed, waiting, coap_observer_register,
}
use plant_minder.Broker.Router.Names.{IsCut, plant_name_lem}
use plant_minder.Broker.Router.Coap.Answers.{Origin, coap_observer_register-found}

module _ (omr : Ipv6Addr) (xs : ℕ → Exchange) where
  -- What has been handed over for the nodes, of which the first has the number `i`: a node whose
  -- exchange registers it has its stream and then its registration, a node whose exchange gives nothing
  -- or fails has neither. The end is the exchange that has not come to its end, if there is one: the
  -- nodes from it on have nothing.
  pub data From : Option Registered → ℕ → List (Rloc × Ipv6Addr) → List Output → Type 0 where
    ends : {i : ℕ} → From none i [] []
    stops :
        {i : ℕ} {nodes : List (Rloc × Ipv6Addr)} {r : Registered} (rloc : Rloc) (ip : Ipv6Addr)
        (port : ℕ)
        → coap_observer_register omr ip port (xs i) ≡ r
        → From (some r) i ((rloc, ip) ∷ nodes) []
    skips :
        {end : Option Registered} {i : ℕ} {nodes : List (Rloc × Ipv6Addr)} {out : List Output}
        (rloc : Rloc) (ip : Ipv6Addr) (port : ℕ)
        → (coap_observer_register omr ip port (xs i) ≡ settled (ok none))
          ⊎ ((e : EventRouterError) × (coap_observer_register omr ip port (xs i) ≡ settled (err e)))
        → From end (i + 1) nodes out
        → From end i ((rloc, ip) ∷ nodes) out
    registers :
        {end : Option Registered} {i : ℕ} {nodes : List (Rloc × Ipv6Addr)} {out : List Output}
        (rloc : Rloc) (ip : Ipv6Addr) (port : ℕ) (eui : Eui) (name : List ℕ)
        → Origin omr ip port (xs i) eui name
        → IsCut name (plant_name name)
        → From end (i + 1) nodes out
        → From end i ((rloc, ip) ∷ nodes) (
            sensor_stream (record { ip = omr; port = port })
            ∷ registered (eui, ip, plant_name name)
            ∷ out)

  abbrev pub OutFrom : ℕ → List (Rloc × Ipv6Addr) → Progress (List Output) → Type 0
  OutFrom i nodes (goes_on m out) = From none i nodes out
  OutFrom i nodes (task_panics m out) = From (some crashed) i nodes out
  OutFrom i nodes (task_waits m out) = From (some waiting) i nodes out

  and_then-OutFrom :
      (i : ℕ) (node : Rloc × Ipv6Addr) (nodes : List (Rloc × Ipv6Addr)) (out : List Output)
      (r : Progress (List Output))
      → ((end : Option Registered) (more : List Output)
          → From end (i + 1) nodes more
          → From end i (node ∷ nodes) (out ++ more))
      → OutFrom (i + 1) nodes r
      → OutFrom i (node ∷ nodes) (and_then out r)
  unfolding and_then
  and_then-OutFrom i node nodes out (goes_on m more) step h = step _ more h
  and_then-OutFrom i node nodes out (task_panics m more) step h = step _ more h
  and_then-OutFrom i node nodes out (task_waits m more) step h = step _ more h

  -- The node with the number `i`, and then the others.
  conclude-OutFrom :
      (i : ℕ) (nodes : List (Rloc × Ipv6Addr)) (m : OtMonitor) (rloc : Rloc) (ip : Ipv6Addr)
      (port : ℕ) (r : Registered) (next : OtMonitor → Progress (List Output))
      → coap_observer_register omr ip port (xs i) ≡ r
      → ((m' : OtMonitor) → OutFrom (i + 1) nodes (next m'))
      → OutFrom i ((rloc, ip) ∷ nodes) (then_on (conclude m rloc ip port r) next)
  unfolding then_on conclude
  conclude-OutFrom i nodes m rloc ip port (settled (ok (some (addr, eui, name)))) next e later =
      let (own, origin) = coap_observer_register-found omr ip port (xs i) addr eui name e in
      rw own (
        and_then-OutFrom i (rloc, ip) nodes
          (sensor_stream (record { ip = omr; port = port })
            ∷ registered (eui, ip, plant_name name)
            ∷ [])
          _ (λ end more h. registers rloc ip port eui name origin (plant_name_lem name) h)
          (later _))
  conclude-OutFrom i nodes m rloc ip port (settled (ok none)) next e later =
      and_then-OutFrom i (rloc, ip) nodes [] _ (λ end more h. skips rloc ip port (inl e) h)
        (later _)
  conclude-OutFrom i nodes m rloc ip port (settled (err x)) next e later =
      and_then-OutFrom i (rloc, ip) nodes [] _ (λ end more h. skips rloc ip port (inr (x, e)) h)
        (later _)
  conclude-OutFrom i nodes m rloc ip port crashed next e later = stops rloc ip port e
  conclude-OutFrom i nodes m rloc ip port waiting next e later = stops rloc ip port e

  register_all-OutFrom :
      (o : Order) (nodes : List (Rloc × Ipv6Addr)) (m : OtMonitor) (i : ℕ)
      → OutFrom i nodes (register_all o m omr xs i nodes)
  unfolding register_all register_one
  register_all-OutFrom o [] m i = ends
  register_all-OutFrom o ((rloc, ip) ∷ nodes) m i =
      conclude-OutFrom i nodes _ rloc ip _ _ _ refl (λ m'. register_all-OutFrom o nodes m' (i + 1))

  finish-OutFrom :
      (c : OtClient) (i : ℕ) (nodes : List (Rloc × Ipv6Addr)) (r : Progress (List Output))
      → OutFrom i nodes r
      → OutFrom i nodes (finish c r)
  unfolding finish
  finish-OutFrom c i nodes (goes_on m out) h = h
  finish-OutFrom c i nodes (task_panics m out) h = h
  finish-OutFrom c i nodes (task_waits m out) h = h

-- The round by the monitor's replies: on an error for the new nodes the task ends, and on one for the
-- own address nothing is handed over.
abbrev pub RoundFrom :
    (ℕ → Exchange)
    → Result (List (Rloc × Ipv6Addr)) OtMonitorError
    → Result Ipv6Addr OtMonitorError
    → Round
    → Type 0
RoundFrom xs (ok nodes) (ok omr) (polled r) = OutFrom omr xs 0 nodes r
RoundFrom xs (ok nodes) (err e) (polled r) = (m : OtMonitor) × (r ≡ goes_on m [])
RoundFrom xs (ok nodes) w (exits m) = ⊥
RoundFrom xs (err e) w (polled r) = ⊥
RoundFrom xs (err e) w (exits m) = Unit

register_new-RoundFrom :
    (o : Order) (a : Answers) (m : OtMonitor) (r : Result (List (Rloc × Ipv6Addr)) OtMonitorError)
    → RoundFrom a.exchanges r (omr_ip a.omr_address m).0 (register_new o a m r)
unfolding register_new finish
register_new-RoundFrom o a m (err e) = tt
register_new-RoundFrom o a m (ok nodes) = elim (Result-cases (omr_ip a.omr_address m).0) [
  | inl (omr, q) ↦
      rw (q, register_new)
        (finish-OutFrom omr a.exchanges a.node_status 0 nodes _
          (register_all-OutFrom omr a.exchanges o nodes m 0))
  | inr (e, q) ↦ rw (q, register_new) (_, refl)
]

-- Whatever the nodes and the network answer, a round hands over exactly what the exchanges with the
-- new nodes yield, in the order of the nodes, also if it crashes or hangs at one of them. If its
-- exchange registers a node, it has a stream at its port and then one registration, under its own
-- address, with the identifier in the first datagram with bytes that it has sent, or zeros if that is no
-- CoAP message, and with the name there as `plant_name` cuts it, empty or a beginning of at most twenty
-- bytes. A node whose exchange gives nothing or fails has neither, nor have the nodes from the one on at
-- which the round crashes or hangs. If the new nodes cannot be asked for, the task ends, and without an
-- own address nothing is handed over.
pub poll-RoundFrom :
    (o : Order) (a : Answers) (m : OtMonitor)
    → let (r, m2) = check_new_node a.new_nodes (monitor_network_status a.network_status m).1 in
      RoundFrom a.exchanges r (omr_ip a.omr_address m2).0 (poll o a m)
unfolding poll
poll-RoundFrom o a m =
    let m1 = (monitor_network_status a.network_status m).1 in
    register_new-RoundFrom o a (check_new_node a.new_nodes m1).1 (check_new_node a.new_nodes m1).0
