-- ===== src/Lib.antt =====
-- plant-minder watches house plants: nodes on a Thread mesh send the readings of their soil sensors
-- over UDP to a border router, where a broker passes them on to a terminal front end.
--
-- The files and the code they model, by paths from the repository's root:
--   Base, Map, Text, Net  what the program uses of Rust's standard library: results and options,
--       hash maps as lists without repeated keys, the functions of `str`, internet addresses
--   Sensor                pmindp-sensor/src/lib.rs: the types of the readings
--   Broker.Types          pmind-broker/src/{lib,node,client/mod,monitor}.rs: the exchanged types
--   Broker.Ports          pmind-broker/src/monitor.rs, `Ports`: the pool of receive ports
--   Broker.Monitor        pmind-broker/src/monitor.rs, `OtMonitor`: the actor that knows the nodes;
--       a function for each handler, which returns the reply and the new state; Broker.Monitor.Pool follows
--       the ports through any messages
--   Broker.Router         pmind-broker/src/router.rs: `poll` is one turn of the loop in
--       `spawn_child_mon_task`, Broker.Router.Coap the exchange `coap_observer_register`; a round that
--       crashes or hangs keeps what it has handed over by then
--   Broker.Node           pmind-broker/src/node.rs: the task that receives a node's datagrams
--   Broker.Hub            pmind-broker/src/broker.rs: `event_loop` runs the branches of the loop of
--       `Broker` in the order that a schedule gives, `sensor_stream_process` the task of a stream
--   Broker.Cli            pmind-broker/src/client/cli.rs: what `ot-ctl` prints
--   Minder                pmindd/src/{minder,event}.rs and the loop of pmindd/src/bin/main.rs;
--       Minder.Histories has what becomes of the readings, Minder.Table the advice in the table of plants
--   Ui.History            pmindd/src/ui/history.rs: the list of plants and the graph of a history
--   Ui.Screen             pmindd/src/minder.rs, `render` and its parts; Ui.Highlight and Ui.Axes have
--       what the keys and the readings make of it
--   Ui.Terminal           pmindd/src/minder.rs, `Tui`, and the end of pmindd/src/bin/main.rs: `session`
--       is what follows on the set up of the broker
--   Firmware.Tsl2591      pmindp-esp32-thread/src/sensor/tsl2591.rs: the driver of the light sensor over
--       any bus; Firmware.Tsl2591.Registers has its registers, Firmware.Tsl2591.Sense what it measures
--   Firmware.Atsamd10     pmindp-esp32-thread/src/sensor/atsamd10.rs: the driver of the soil sensor over
--       any bus
--   Firmware.ProbeCircuit, Firmware.Gases   the other drivers of pmindp-esp32-thread/src/sensor
--   Firmware.Board        the features of pmindp-esp32-thread/src/lib.rs, and the list of sensors that
--       src/bin/main.rs of that package makes; Firmware.Board.Drivers has the drivers behind `Sensor`
--   Firmware.Platform     pmindp-esp32-thread/src/platform.rs: `sensor_read`, and the node's answer to
--       the broker's registration request
--   Firmware.Server       pmindp-esp32-thread/src/platform.rs: `coap_server_event_loop` as a whole, with
--       the set up of the radio and of Thread; `loop` runs turns and interrupts in the order of a list
--   Firmware.Timer        pmindp-esp32-thread/src/lib.rs: the timer's statics and its interrupt
--   Firmware.Node         pmindp-esp32-thread/src/platform.rs: `turn` is one turn of the loop of
--       `coap_server_event_loop`; Firmware.Node.Runs has the runs with interrupts and resets;
--       a turn that panics keeps what it has sent by then
--   Database              pmindb/src/{db,models}.rs over any implementation of the statements
--       with its two tasks; Database.Tasks starts them, Database.Registry and Database.Streams have what
--       they make of the tables
--   Startup               pmindd/src/bin/main.rs up to the terminal, and `broker` of
--       pmind-broker/src/broker.rs; the steps of the event loop meanwhile are arguments
--   Delivery              a node's datagrams through Broker.Node, Broker.Hub, Minder and Ui, in
--       Delivery.Measured from the sensors on; the states of the nodes through Broker.Hub to Minder and
--       Database (Delivery.Agreement), also from the start of the program on (Delivery.Started);
--       registrations from Broker.Router on (Delivery.Registrations)
--   Tests                 tests of these on concrete inputs
--
-- How the parts meet: the router asks the actor of Broker.Monitor for new nodes and free ports and
-- registers each node by a CoAP exchange; a registered node has a task (Broker.Node) whose events
-- the task of its stream (Broker.Hub) splits into readings and losses; the event loop passes both on
-- to every subscriber; the front end turns them into histories and a table of plants (Minder), which it
-- shows (Ui), and the database stores them (Database). A node fills one buffer from all its sensors
-- (Firmware.Platform), when its timer has fired and the broker's router has asked for the readings
-- (Firmware.Node).
--
-- State is passed explicitly. A handler that fails returns an error beside its state; a panic is an
-- `Outcome` or a case of the result. What other libraries and the network answer is an argument: the
-- OpenThread client, sockets and timers as lists of what happens, the CoAP codec, the parsers of
-- JSON and of addresses, the bus, the operations of floats, the database's statements, the calls of
-- the terminal. No loop needs fuel but the trimming of texts, which has as many rounds as the text has
-- bytes; each round takes at least one off. Ports and locators are below 2 ^ 16, and sums of them wrap
-- where Rust's do; a `usize` has 64 bits.
--
-- Not modelled: the layout and the colours of the terminal (pmindd/src/ui/mod.rs), logging, the set up
-- of boards, the generated schema of the database and the integration tests (pmind-tests).
pub mod Base
pub mod Map
pub mod Text
pub mod Net
pub mod Sensor
pub mod Broker
pub mod Minder
pub mod Firmware
pub mod Database
pub mod Ui
pub mod Delivery
pub mod Startup
pub mod Tests
