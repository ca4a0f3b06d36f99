-- ===== src/Delivery/Registrations.antt =====
-- From the polling task to the clients: Broker.Router, Broker.Monitor and Broker.Hub in a row.
use mathlib.Core.List.{append-nil}
use mathlib.Core.Path.{subst}
use plant_minder.Base.{ℕ, ◌≡◌, refl, ap, sym, ◌∙◌, List, [], ◌∷◌, ◌++◌, Bool, All, length, nat_eq}
use plant_minder.Net.{Ipv6Addr}
use plant_minder.Broker.Types.{Rloc, Registration, NodeStatus, registration, termination}
use plant_minder.Broker.Ports.{Order}
use plant_minder.Broker.Monitor.{OtMonitor, Nodes}
use plant_minder.Broker.Router.{Output, Progress, goes_on, task_panics, task_waits, register_all}
use plant_minder.Broker.Router.Coap.{Exchange}
use plant_minder.Broker.Router.Rounds.{Settles, Ready}
use plant_minder.Broker.Router.Announced.{Told, Tells, registrations, register_all-Tells}
use plant_minder.Broker.Hub.{
  Sender, Broker, BrokerEvent, node_registration, node_termination, sensor_report_handle_create,
  Step, event_loop,
}
use plant_minder.Broker.Hub.FanOut.{statuses_to, arriving_events, announced, NoApi}
use plant_minder.Broker.Hub.Interleaving.{Listens, event_loop-Conserves}

-- The registrations among the events of the loop, and among what a client is told.
abbrev pub registered_in : List BrokerEvent → List Registration
registered_in [] = []
registered_in (node_registration reg ∷ es) = reg ∷ registered_in es
registered_in (node_termination a e ∷ es) = registered_in es
registered_in (sensor_report_handle_create s ∷ es) = registered_in es

abbrev pub told_of : List NodeStatus → List Registration
told_of [] = []
told_of (registration reg ∷ ss) = reg ∷ told_of ss
told_of (termination a e ∷ ss) = told_of ss

told_of-announced : (es : List BrokerEvent) → told_of (announced es) ≡ registered_in es
told_of-announced [] = refl
told_of-announced (node_registration reg ∷ es) = ap (◌∷◌ reg) (told_of-announced es)
told_of-announced (node_termination a e ∷ es) = told_of-announced es
told_of-announced (sensor_report_handle_create s ∷ es) = told_of-announced es

-- What the task has passed on.
abbrev pub passed_on : Progress (List Output) → List Registration
passed_on (goes_on m out) = registrations out
passed_on (task_panics m out) = registrations out
passed_on (task_waits m out) = registrations out

-- What a client is told, if the queue of events is empty at the start and at the end.
client_told :
    (alive : Sender → Bool) (c d : Sender) (b : Broker) (schedule : List Step)
    → All NoApi schedule
    → Listens alive c d b
    → b.receiver ≡ []
    → (event_loop alive b schedule).0.receiver ≡ []
    → told_of (statuses_to d (event_loop alive b schedule).1)
      ≡ registered_in (arriving_events schedule)
client_told alive c d b schedule same listens empty drained =
    let out = statuses_to d (event_loop alive b schedule).1 in
    let conserved = event_loop-Conserves alive c d b schedule same listens in
    let all_told : out ≡ announced (arriving_events schedule) =
      sym (append-nil out)
      ∙ ap (λ q. out ++ announced q) (sym drained)
      ∙ conserved.statuses
      ∙ ap (λ q. announced q ++ announced (arriving_events schedule)) empty in
    ap told_of all_told ∙ told_of-announced (arriving_events schedule)

-- The task goes on, and has told what `regs` has.
abbrev pub Registers : Nodes → List Registration → Progress (List Output) → Type 0
Registers nodes regs r =
    (m' : OtMonitor) × (out : List Output) × (r ≡ goes_on m' out)
    × (regs ≡ registrations out)
    × Told nodes m'.nodes regs

Registers-told :
    (pool : ℕ → Bool) (nodes : Nodes) (regs : List Registration) (r : Progress (List Output))
    → Tells pool 0 nodes r
    → regs ≡ passed_on r
    → Registers nodes regs r
Registers-told pool nodes regs (goes_on m' out) (ready, told) e =
    (m', out, refl, e, subst (Told nodes m'.nodes) (sym e) told)
Registers-told pool nodes regs (task_panics m' out) h e = absurd h
Registers-told pool nodes regs (task_waits m' out) h e = absurd h

-- A client of the broker learns exactly of the nodes that the monitor comes to know: when the polling
-- task has registered some nodes one after the other, every registration that the client is told is of
-- a node that the monitor knows then, every node that the monitor did not know before is among them,
-- and no node is lost. Each exchange settles, each node finds a free port, the ports are accounted for,
-- the client is subscribed once and listens, the clients stay the same, the registrations that come to
-- the event loop are those that the task has passed on, and the loop has no event queued at the start
-- and at the end. How readings and the losses of nodes come in between makes no difference.
pub registrations_told :
    (pool : ℕ → Bool) (o : Order) (omr : Ipv6Addr) (xs : ℕ → Exchange)
    (nodes : List (Rloc × Ipv6Addr)) (m : OtMonitor) (i : ℕ) (alive : Sender → Bool) (c d : Sender)
    (b : Broker) (schedule : List Step)
    → ((j : ℕ) → Settles (xs j))
    → Ready pool (length nodes) m
    → All NoApi schedule
    → Listens alive c d b
    → b.receiver ≡ []
    → (event_loop alive b schedule).0.receiver ≡ []
    → registered_in (arriving_events schedule) ≡ passed_on (register_all o m omr xs i nodes)
    → Registers m.nodes
        (told_of (statuses_to d (event_loop alive b schedule).1))
        (register_all o m omr xs i nodes)
registrations_told pool o omr xs nodes m i alive c d b schedule settles ready same listens empty
      drained arrive =
    Registers-told pool m.nodes _ (register_all o m omr xs i nodes)
      (register_all-Tells pool o omr xs settles nodes m i ready)
      (client_told alive c d b schedule same listens empty drained ∙ arrive)
