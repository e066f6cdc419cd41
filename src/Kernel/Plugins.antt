-- ===== src/Kernel/Plugins.antt =====
-- crates/walastack-runtime/src/plugins.rs: plugins, the planner, the requirements and the manager.
-- The callbacks of a plugin are functions on the registries that they are given.
use walastack_rs.Base.{
  ℕ, String, Bool, Option, none, some, List, [], ◌∷◌, ◌++◌, if◌then◌else◌, nat_keys, string_keys,
  map_or, Result, ok, err, ◌>>=◌,
}
use walastack_rs.Capabilities.Registry.{CapabilityRegistry}
use walastack_rs.Capabilities.View.{Capabilities, contains, contains_type}
use walastack_rs.Supervision.Watcher.{RestartPolicy, one_shot}
use walastack_rs.Kernel.Resources.{ResourceRegistry}

-- A service: its name, and what its `start` answers.
pub record Service : Type 0 where
  pub name : String
  pub start : Result (Unit {0}) String

abbrev pub ServicePlanner : Type 0
ServicePlanner = List (Service × RestartPolicy)

-- `add_supervised` and `add_arc`, and `add`.
unfoldable pub add_supervised : Service → RestartPolicy → ServicePlanner → ServicePlanner
add_supervised service policy planner = planner ++ (service, policy) ∷ []

unfoldable pub add : Service → ServicePlanner → ServicePlanner
unfolding add_supervised
add service planner = add_supervised service one_shot planner

pub record CapabilityRequirement : Type 0 where
  pub type_id : ℕ
  pub name : Option String
  pub description : String

-- `any` and `named`; `type_name` is what `std::any::type_name` gives, and `formatted` the description
-- that `named` formats from it and the name.
unfoldable pub any : (type_id : ℕ) → (type_name : String) → CapabilityRequirement
any ty type_name = record { type_id = ty; name = none; description = type_name }

unfoldable pub named_requirement :
    (type_id : ℕ) → (name : String) → (formatted : String) → CapabilityRequirement
named_requirement ty name formatted = record {
  type_id = ty;
  name = some name;
  description = formatted;
}

unfoldable pub is_satisfied_by : Capabilities → CapabilityRequirement → Bool
is_satisfied_by caps req =
    map_or (contains_type caps req.type_id) (λ n. contains caps req.type_id n) req.name

pub record Plugin : Type 0 where
  pub name : String
  pub register_resources : ResourceRegistry → ResourceRegistry
  pub register_capabilities : CapabilityRegistry → CapabilityRegistry
  pub register_services : ServicePlanner → ServicePlanner
  pub required_capabilities : List CapabilityRequirement

-- The registries of the Configure phase.
pub record Registries : Type 0 where
  pub resources : ResourceRegistry
  pub capabilities : CapabilityRegistry
  pub planner : ServicePlanner

unfoldable pub apply_plugin : Plugin → Registries → Registries
apply_plugin p r = record {
  resources = p.register_resources r.resources;
  capabilities = p.register_capabilities r.capabilities;
  planner = p.register_services r.planner;
}

unfoldable pub apply_all : List Plugin → Registries → Registries
unfolding apply_plugin
apply_all [] r = r
apply_all (p ∷ plugins) r = apply_all plugins (apply_plugin p r)

pub data PluginError : Type 0 where
  missing_requirement : (plugin requirement : String) → PluginError

-- The inner loop: the requirements of one plugin.
unfoldable pub check_requirements :
    Capabilities → (plugin : String) → List CapabilityRequirement → Result (Unit {0}) PluginError
check_requirements caps plugin [] = ok tt
check_requirements caps plugin (req ∷ reqs) =
    let rest = check_requirements caps plugin reqs in
    if is_satisfied_by caps req then rest else err (missing_requirement plugin req.description)

unfoldable pub validate_requirements : Capabilities → List Plugin → Result (Unit {0}) PluginError
unfolding check_requirements
validate_requirements caps [] = ok tt
validate_requirements caps (p ∷ plugins) =
    check_requirements caps p.name p.required_capabilities >>= λ _.
    validate_requirements caps plugins
