-- ===== src/Llm/Plugins.antt =====
-- The two plugins of crates/walastack-llm/src/lib.rs.
use walastack_rs.Base.{ℕ, []}
use walastack_rs.Capabilities.Registry.{register}
use walastack_rs.Kernel.Plugins.{Plugin}

-- The plugins, which register under a name, with the type of the capability and their handle.
unfoldable pub openai_plugin : (llm_type provider_arc : ℕ) → Plugin
unfolding register
openai_plugin llm_type provider_arc = record {
  name = "openai";
  register_resources = λ r. r;
  register_capabilities = λ c. (register llm_type "openai" provider_arc c).1;
  register_services = λ p. p;
  required_capabilities = [];
}

unfoldable pub ollama_plugin : (llm_type provider_arc : ℕ) → Plugin
unfolding register
ollama_plugin llm_type provider_arc = record {
  name = "ollama";
  register_resources = λ r. r;
  register_capabilities = λ c. (register llm_type "ollama" provider_arc c).1;
  register_services = λ p. p;
  required_capabilities = [];
}
