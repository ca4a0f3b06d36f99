-- ===== src/Broker/Router/Handle.antt =====
-- The handle of the task that polls the mesh: `EventRouter` of pmind-broker/src/router.rs itself.
use plant_minder.Base.{Bool, true, false, Result, ok, Outcome, returns, panics}
use plant_minder.Broker.Router.Coap.{EventRouterError}

-- Whether the handle of the task is there.
pub record EventRouter : Type 0 where
  pub monitor_handle : Bool

abbrev pub spawn_child_mon_task : EventRouter → EventRouter
spawn_child_mon_task r = record r { monitor_handle = true }

unfoldable pub new : Result EventRouter EventRouterError
new = ok (spawn_child_mon_task (record { monitor_handle = false }))

-- What is left of the router while it waits for the task: the handle is taken out before.
unfoldable pub exec_monitor : EventRouter → Outcome EventRouter
exec_monitor r = elim r.monitor_handle [
  | true ↦ returns (record r { monitor_handle = false })
  | false ↦ panics
]

-- Whether the task is aborted when the router goes.
unfoldable pub drop_router : EventRouter → Bool
drop_router r = r.monitor_handle
