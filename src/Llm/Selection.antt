-- ===== src/Llm/Selection.antt =====
-- Which provider of crates/walastack-llm/src/lib.rs a runtime with both plugins resolves.
use walastack_rs.Base.{
  ℕ, ◌≡◌, none, some, [], ◌∷◌, ◌++◌, arith, ==_refl, nat_keys, string_keys, codes_keys, lookup,
  insert, lookup-insert_self,
}
use walastack_rs.Capabilities.Registry.{
  register, set_strategy, fallback, resolve_provider, store_provider,
}
use walastack_rs.Capabilities.View
use walastack_rs.Kernel.Plugins.{Registries, apply_all}
use walastack_rs.Llm.Plugins.{openai_plugin, ollama_plugin}

-- With both plugins and no other provider, a lookup without a strategy finds none, and under a fallback
-- chain of the two names it finds the first name's provider: a provider that is registered is never
-- passed over, whatever its calls answer.
pub plugins_fallback :
    (llm_type openai_arc ollama_arc : ℕ) (r : Registries)
    → lookup llm_type r.capabilities.providers ≡ none
    → lookup llm_type r.capabilities.strategies ≡ none
    → let c =
        (apply_all
          (ollama_plugin llm_type ollama_arc ∷ openai_plugin llm_type openai_arc ∷ [])
          r).capabilities in
      ((View.get llm_type (View.build c)).0 ≡ none)
      × ((View.get llm_type
            (View.build (set_strategy llm_type (fallback ("openai" ∷ "ollama" ∷ [])) c))).0
          ≡ some openai_arc)
      × ((View.get llm_type
            (View.build (set_strategy llm_type (fallback ("ollama" ∷ "openai" ∷ [])) c))).0
          ≡ some ollama_arc)
unfolding lookup insert View.build View.get View.select View.first_resolved set_strategy
    resolve_provider register openai_plugin ollama_plugin apply_all
plugins_fallback llm_type openai_arc ollama_arc r no_provider no_strategy =
    let one = ("ollama", store_provider llm_type ollama_arc) ∷ [] in
    let two = one ++ ("openai", store_provider llm_type openai_arc) ∷ [] in
    let first = lookup-insert_self llm_type one r.capabilities.providers in
    let both = lookup-insert_self llm_type two (insert llm_type one r.capabilities.providers) in
    let same = ==_refl llm_type in
    (
      ground (arith, no_provider, no_strategy, first, both, same),
      ground (
        arith,
        no_provider,
        first,
        both,
        same,
        lookup-insert_self llm_type (fallback ("openai" ∷ "ollama" ∷ [])) r.capabilities.strategies,
      ),
      ground (
        arith,
        no_provider,
        first,
        both,
        same,
        lookup-insert_self llm_type (fallback ("ollama" ∷ "openai" ∷ [])) r.capabilities.strategies,
      ),
    )
