-- ===== src/Minder/Input.antt =====
-- pmindd/src/event.rs: what the task behind `EventHandler` makes of keys, ticks and messages.
use plant_minder.Base.{ℕ, List, [], ◌∷◌, ◌++◌, Bool, ◌||◌, if◌then◌else◌, ◌==◌, nat_eq}
use plant_minder.Broker.Types.{NodeSensorReading, NodeStatus}

pub data AppCmd : Type 0 where
  quit invalid error next back up down : AppCmd

pub data Event : Type 0 where
  tick_event : Event
  app_cmd : AppCmd → Event
  node_state : NodeStatus → Event

-- The key codes of the terminal library that the program tells apart.
pub data KeyCode : Type 0 where
  esc tab_key back_tab up_key down_key other_key : KeyCode
  char : ℕ → KeyCode

-- `control` says that the modifiers are exactly Control.
unfoldable pub key_command : KeyCode → Bool → AppCmd
key_command esc control = quit
key_command (char c) control =
    if c == b'q' || c == b'Q'
    then quit
    else if c == b'c' || c == b'C'
    then (if control then quit else invalid)
    else invalid
key_command tab_key control = next
key_command back_tab control = back
key_command up_key control = up
key_command down_key control = down
key_command other_key control = invalid

-- What wakes the task up. Key events other than presses and other terminal events are ignored.
pub data Source : Type 0 where
  ticked : Source
  key_pressed : KeyCode → Bool → Source
  terminal_other : Source
  node_status_arrives : NodeStatus → Source
  node_data_arrives : NodeSensorReading → Source

-- The two channels that the task feeds: events for the loop, readings for the application.
pub record Channels : Type 0 where
  pub events : List Event
  pub client_data : List NodeSensorReading

unfoldable pub dispatch : Channels → Source → Channels
unfolding key_command
dispatch c ticked = record c { events = c.events ++ tick_event ∷ [] }
dispatch c (key_pressed k control) = record c {
  events = c.events ++ app_cmd (key_command k control) ∷ [];
}
dispatch c terminal_other = c
dispatch c (node_status_arrives s) = record c { events = c.events ++ node_state s ∷ [] }
dispatch c (node_data_arrives r) = record c { client_data = c.client_data ++ r ∷ [] }
