-- ===== src/Llm/Examples.antt =====
-- Runs of the model of crates/walastack-llm/src/lib.rs on small inputs.
use walastack_rs.Base.{
  String, ◌≡◌, ◌↔◌, none, some, [], ◌∷◌, nat_keys, string_keys, codes_keys, Result, ok,
}
use walastack_rs.Json.Tree.{Tree, number_tree, tree_json, tree_json-HasEmptyNull}
use walastack_rs.Llm.{
  CompletionRequest, HttpAnswer, HttpCall, OpenAiConfig, OllamaConfig, openai_call, ollama_call,
  complete_openai, complete_ollama,
}
use walastack_rs.Llm.Answers.{Completes, IsOpenaiText, IsOllamaText, complete-Completes}

abbrev openai : OpenAiConfig
openai = record { api_key = "k"; model = "m"; base_url = "u" }

abbrev ollama : OllamaConfig
ollama = record { host = "h"; model = "m" }

-- A body that holds the text where OpenAI has it, and where Ollama has it.
abbrev hi : Tree
hi = tree_json.object (
    (
      "choices",
      tree_json.array (
          tree_json.object
            (("message", tree_json.object (("content", tree_json.text "hi") ∷ [])) ∷ [])
          ∷ []),
    )
    ∷ ("response", tree_json.text "hi")
    ∷ [])

abbrev send : HttpCall Tree → Result (HttpAnswer Tree) String
send call =
    ok (record { status = 200; status_text = "200 OK"; body_text = some "hi"; json = ok hi })

abbrev question : CompletionRequest
question = record { prompt = "q"; system = none; temperature = none; max_tokens = none }

complete-Completes_example :
    ((complete_openai tree_json number_tree send openai question ≡ ok (record { text = "hi" }))
      ↔ Completes tree_json number_tree
          (IsOpenaiText tree_json number_tree)
          (send (openai_call tree_json number_tree openai question))
          "hi")
    × ((complete_ollama tree_json number_tree send ollama question ≡ ok (record { text = "hi" }))
        ↔ Completes tree_json number_tree
            (IsOllamaText tree_json number_tree)
            (send (ollama_call tree_json number_tree ollama question))
            "hi")
complete-Completes_example =
    complete-Completes tree_json number_tree tree_json-HasEmptyNull send openai ollama question
      (record { text = "hi" })
