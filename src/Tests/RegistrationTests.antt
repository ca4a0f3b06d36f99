-- ===== src/Tests/RegistrationTests.antt =====
-- Tests of the way of a registration from the polling task to a client.
use plant_minder.Base.{ℕ, ◌≡◌, refl, List, [], ◌∷◌, Bool, arith, length, nat_eq}
use plant_minder.Net.{Ipv6Addr}
use plant_minder.Broker.Types.{Rloc, Registration, timeout}
use plant_minder.Broker.Router.{register_all, plant_name, register_one}
use plant_minder.Broker.Router.Coap.{Exchange, coap_observer_register}
use plant_minder.Broker.Router.Rounds.{Ready}
use plant_minder.Broker.Hub.{
  Step, takes_event, event_arrives, node_registration, node_termination, event_loop, step,
  send_status, handle_event,
}
use plant_minder.Broker.Hub.FanOut.{statuses_to, arriving_events}
use plant_minder.Delivery.Registrations.{
  registered_in, told_of, passed_on, Registers, registrations_told,
}
use plant_minder.Tests.{mesh, monitor, order, reading_from}
use plant_minder.Tests.RouterTests.{pool, answers_late, late-Settles, monitor-Accounts}
use plant_minder.Tests.HubTests.{alive}
use plant_minder.Tests.DeliveryTests.{idle, idle-Listens}

abbrev found : List (Rloc × Ipv6Addr)
found = (8, mesh 8) ∷ []

abbrev exchanges : ℕ → Exchange
exchanges i = answers_late

abbrev fig_8 : Registration
fig_8 = (1 ∷ 2 ∷ 3 ∷ 4 ∷ 5 ∷ 6 ∷ [], mesh 8, b'f' ∷ b'i' ∷ b'g' ∷ [])

-- Another node is lost meanwhile.
abbrev schedule : List Step
schedule =
    event_arrives (node_termination (reading_from 6).addr timeout)
    ∷ event_arrives (node_registration fig_8)
    ∷ takes_event
    ∷ takes_event
    ∷ []

ready : Ready pool (length found) monitor
ready = (monitor-Accounts, omega arith)

all_taken : (event_loop alive idle schedule).0.receiver ≡ []
unfolding event_loop step send_status handle_event
all_taken = refl

registers :
    registered_in (arriving_events schedule)
    ≡ passed_on (register_all order monitor (mesh 1) exchanges 0 found)
unfolding register_all register_one coap_observer_register plant_name
    plant_minder.Broker.Router.then_on plant_minder.Broker.Router.conclude
    plant_minder.Broker.Router.Coap.until_data plant_minder.Base.from_utf8
registers = refl

registrations_told_example :
    Registers monitor.nodes
      (told_of (statuses_to 11 (event_loop alive idle schedule).1))
      (register_all order monitor (mesh 1) exchanges 0 found)
registrations_told_example =
    registrations_told pool order (mesh 1) exchanges found monitor 0 alive 10 11 idle schedule
      (λ (j : ℕ). late-Settles) ready (tt, (tt, (tt, (tt, tt)))) idle-Listens refl all_taken
      registers
