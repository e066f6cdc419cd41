-- ===== src/Kernel/Context.antt =====
-- crates/walastack-runtime/src/context.rs: `RuntimeContext`, which hands each call on to the facility
-- behind it. Its state is what the facilities keep.
use walastack_rs.Base.{ℕ, String, Option, [], nat_keys, string_keys, Result}
use walastack_rs.Capabilities.View.{Capabilities, get_named}
use walastack_rs.Capabilities.View
use walastack_rs.Kernel.Resources.{Resources}
use walastack_rs.Kernel.Resources
use walastack_rs.Events.{EventBus, PublishOutcome, Sending, EnqueueErrorKind, new_bus}
use walastack_rs.Events
use walastack_rs.Scheduler.Registry.{Registry, new_scheduler}

pub record RuntimeContext : Type 0 where
  pub resources : Resources
  pub capabilities : Capabilities
  pub events : EventBus
  pub scheduler : Registry

unfoldable pub empty : RuntimeContext
empty = record {
  resources = record { entries = [] };
  capabilities = View.empty;
  events = new_bus;
  scheduler = new_scheduler;
}

unfoldable pub resource : (type_id : ℕ) → RuntimeContext → Option ℕ
resource ty ctx = Resources.get ty ctx.resources

-- A weighted capability's counter moves on.
unfoldable pub capability : (type_id : ℕ) → RuntimeContext → Option ℕ × RuntimeContext
capability c ctx =
    let (found, caps) = View.get c ctx.capabilities in (found, record ctx { capabilities = caps })

unfoldable pub capability_named : (type_id : ℕ) → String → RuntimeContext → Option ℕ
capability_named c name ctx = get_named ctx.capabilities c name

unfoldable pub publish :
    (type_id : ℕ) → (answer : Option ℕ) → RuntimeContext → PublishOutcome × RuntimeContext
publish ty answer ctx =
    let (outcome, bus) = Events.publish ty answer ctx.events in
    (outcome, record ctx { events = bus })

unfoldable pub enqueue :
    (type_id : ℕ) → Sending → RuntimeContext → Result (Unit {0}) EnqueueErrorKind × RuntimeContext
enqueue ty answer ctx =
    let (outcome, bus) = Events.enqueue ty answer ctx.events in
    (outcome, record ctx { events = bus })
