-- ===== src/Auth/Startup.antt =====
-- What the plugins of crates/walastack-auth/src/lib.rs come to in a runtime, and what requests to it
-- then find.
use walastack_rs.Base.{
  ℕ, String, ◌≡◌, refl, ap, ◌∙◌, Bool, true, false, none, some, List, [], ◌∷◌, arith, ◌==◌, ==_refl,
  nat_keys, string_keys, lookup, lookup-insert_self, ok, err, map_err,
}
use walastack_rs.Capabilities.Registry.{default_name}
use walastack_rs.Capabilities.View
use walastack_rs.Capabilities.Defaults.{register_default-resolves, register-unresolved}
use walastack_rs.Kernel.Resources
use walastack_rs.Kernel.Resources.{insert_arc}
use walastack_rs.Kernel.Plugins.{Plugin, any, is_satisfied_by, validate_requirements, apply_all}
use walastack_rs.Kernel.Runtime.{
  RuntimeBuilder, with_capability, with_plugin, configure, build, Runtime,
}
use walastack_rs.Kernel.Phases.{built}
use walastack_rs.Kernel.Context.{RuntimeContext, resource, capability}
use walastack_rs.Http.Extract.{Parts}
use walastack_rs.Auth.{JsonWebToken}
use walastack_rs.Auth.Plugins.{in_memory_secrets_plugin, auth_plugin}
use walastack_rs.Auth.Extractor.{
  no_secrets_provider, AuthTypes, from_provider, from_construction_error, from_runtime,
  settings_codec, context_codec, request_codec, auth_extractor, status,
}

-- The request carries a context of the runtime.
abbrev pub Serves : Runtime → Parts → Type 0
Serves r parts =
    (ctx : RuntimeContext) × (parts.runtime ≡ some ctx)
    × (ctx.resources ≡ r.resources)
    × (ctx.capabilities ≡ r.capabilities)

module _ (types : AuthTypes) where
  settings_resolve :
      (arc : ℕ) (r : Resources.ResourceRegistry)
      → Resources.get types.settings_type (Resources.build (insert_arc types.settings_type arc r).1)
        ≡ some arc
  unfolding Resources.get Resources.build insert_arc
  settings_resolve arc r = ground (
    arith,
    lookup-insert_self types.settings_type (record { type_id = types.settings_type; value = arc })
        r.entries,
    ==_refl types.settings_type,
  )

  -- What a request finds whose context resolves these.
  request_codec-found :
      (parts : Parts) (ctx : RuntimeContext) (settings_arc : ℕ)
      → parts.runtime ≡ some ctx
      → resource types.settings_type ctx ≡ some settings_arc
      → let settings = types.settings_at settings_arc in
        (request_codec types parts).0
        ≡ map_err from_construction_error
            (from_runtime types ctx settings.key_name settings.config).0
  unfolding request_codec context_codec settings_codec
  request_codec-found parts ctx settings_arc here set = ground (arith, here, set)

  module _ (settings_arc provider_arc : ℕ) where
    -- The two plugins of the crate, in either order.
    abbrev pub auth_plugins : (secrets_first : Bool) → List Plugin
    auth_plugins true =
        in_memory_secrets_plugin types provider_arc ∷ auth_plugin types (some settings_arc) ∷ []
    auth_plugins false =
        auth_plugin types (some settings_arc) ∷ in_memory_secrets_plugin types provider_arc ∷ []

    auth_runtime :
        (b : RuntimeBuilder) (secrets_first : Bool)
        → lookup types.secrets_type b.capabilities.strategies ≡ none
        → let r = built (record b { plugins = auth_plugins secrets_first }) in
          (build (record b { plugins = auth_plugins secrets_first }) ≡ ok r)
          × ((View.get types.secrets_type r.capabilities).0 ≡ some provider_arc)
          × (Resources.get types.settings_type r.resources ≡ some settings_arc)
    unfolding build auth_plugin in_memory_secrets_plugin is_satisfied_by any validate_requirements
        Resources.build View.build walastack_rs.Supervision.Tree.new_tree configure
        View.contains_type apply_all
    auth_runtime b true no_strategy =
        let secrets =
          register_default-resolves types.secrets_type provider_arc b.capabilities no_strategy in
        (rw secrets.0 refl, secrets.1, settings_resolve settings_arc b.resources)
    auth_runtime b false no_strategy =
        let secrets =
          register_default-resolves types.secrets_type provider_arc b.capabilities no_strategy in
        (rw secrets.0 refl, secrets.1, settings_resolve settings_arc b.resources)

    -- With the two plugins of the crate, in either order, and no strategy for the secrets, the build
    -- succeeds, and every request that carries a context of the runtime finds the settings and the
    -- provider: it has a codec exactly if the provider has the secret that the settings name.
    pub build-with_auth :
        (b : RuntimeBuilder) (secrets_first : Bool) (parts : Parts)
        → lookup types.secrets_type b.capabilities.strategies ≡ none
        → Serves (built (record b { plugins = auth_plugins secrets_first })) parts
        → let b' = record b { plugins = auth_plugins secrets_first } in
          let settings = types.settings_at settings_arc in
          (build b' ≡ ok (built b'))
          × ((request_codec types parts).0
              ≡ map_err from_construction_error (
                  from_provider (types.provider_at provider_arc) settings.key_name settings.config))
    unfolding resource capability from_runtime
    build-with_auth b secrets_first parts no_strategy
          (ctx, carried, same_resources, same_capabilities) =
        let found = auth_runtime b secrets_first no_strategy in
        let set : resource types.settings_type ctx ≡ some settings_arc =
          ap (Resources.get types.settings_type) same_resources ∙ found.2 in
        let provided : (View.get types.secrets_type ctx.capabilities).0 ≡ some provider_arc =
          ap (λ caps. (View.get types.secrets_type caps).0) same_capabilities ∙ found.1 in
        (found.0, request_codec-found parts ctx settings_arc carried set ∙ (rw provided refl))

    -- The plugin, and one provider under a name.
    abbrev pub with_named_secrets : (name : String) → RuntimeBuilder → RuntimeBuilder
    with_named_secrets name b =
        with_plugin (auth_plugin types (some settings_arc))
          (with_capability types.secrets_type name provider_arc (record b { plugins = [] }))

    -- The requirement that the plugin states is weaker than what the extractor asks for: with one
    -- secrets provider, registered under another name than `default` and with no strategy, the build
    -- succeeds, but every request that carries a context of the runtime is answered with 500.
    pub named_secrets_fail :
        (jsonwebtoken : JsonWebToken) (now : ℕ) (b : RuntimeBuilder) (name : String) (parts : Parts)
        → lookup types.secrets_type b.capabilities.providers ≡ none
        → lookup types.secrets_type b.capabilities.strategies ≡ none
        → (name == default_name) ≡ false
        → Serves (built (with_named_secrets name b)) parts
        → (build (with_named_secrets name b) ≡ ok (built (with_named_secrets name b)))
          × ((auth_extractor types jsonwebtoken now parts).0 ≡ err no_secrets_provider)
          × (status no_secrets_provider ≡ 500)
    unfolding resource capability from_runtime build auth_plugin with_capability with_plugin
        is_satisfied_by any validate_requirements Resources.build View.build
        walastack_rs.Supervision.Tree.new_tree configure View.contains_type apply_all auth_extractor
        status from_construction_error
    named_secrets_fail jsonwebtoken now b name parts no_provider no_strategy named
          (ctx, carried, same_resources, same_capabilities) =
        let secrets =
          register-unresolved types.secrets_type provider_arc name b.capabilities no_provider
            no_strategy named in
        let set : resource types.settings_type ctx ≡ some settings_arc =
          ap (Resources.get types.settings_type) same_resources
          ∙ settings_resolve settings_arc b.resources in
        let absent : (View.get types.secrets_type ctx.capabilities).0 ≡ none =
          ap (λ caps. (View.get types.secrets_type caps).0) same_capabilities ∙ secrets.1 in
        let failed : (request_codec types parts).0 ≡ err no_secrets_provider =
          request_codec-found parts ctx settings_arc carried set ∙ (rw absent refl) in
        (rw secrets.0 refl, rw failed refl, refl)
