-- ===== src/Llm.antt =====
-- crates/walastack-llm/src/lib.rs: completion requests, and the two providers. The HTTP client is
-- reqwest, whose answer to a call is a parameter.
pub mod Answers
pub mod Plugins
pub mod Selection
pub mod Examples
use walastack_rs.Base.{
  ℕ, ◌+◌, ◌-◌, ◌/◌, String, Bool, false, ◌&&◌, Option, none, some, List, [], ◌∷◌, ◌++◌, ltb, leb,
  if◌then◌else◌, map_or, unwrap_or, Result, ok, err, ◌>>=◌, ok_or, map_err,
}
use Prim.Native.String.{◌++◌ as append}
use walastack_rs.Json.{SerdeJson}

-- A temperature is a float, which goes by its bits.
pub record CompletionRequest : Type 0 where
  pub prompt : String
  pub system : Option String
  pub temperature : Option ℕ
  pub max_tokens : Option ℕ

unfoldable pub new_request : (prompt : String) → CompletionRequest
new_request prompt = record {
  prompt = prompt;
  system = none;
  temperature = none;
  max_tokens = none;
}

unfoldable pub with_system : String → CompletionRequest → CompletionRequest
with_system system r = record r { system = some system }

unfoldable pub with_temperature : ℕ → CompletionRequest → CompletionRequest
with_temperature temperature r = record r { temperature = some temperature }

unfoldable pub with_max_tokens : ℕ → CompletionRequest → CompletionRequest
with_max_tokens max_tokens r = record r { max_tokens = some max_tokens }

pub record CompletionResponse : Type 0 where
  pub text : String

pub record LlmError : Type 0 where
  pub message : String

abbrev pub llm_error : String → LlmError
llm_error message = record { message = message }

-- A response of the server: its status with the text that it is shown as, the text of its body, and
-- the body as JSON, if it is.
pub record HttpAnswer (Value : Type 0) : Type 0 where
  pub status : ℕ
  pub status_text : String
  pub body_text : Option String
  pub json : Result Value String

-- What `post` sends.
pub record HttpCall (Value : Type 0) : Type 0 where
  pub url : String
  pub bearer : Option String
  pub body : Value

pub record OpenAiConfig : Type 0 where
  pub api_key : String
  pub model : String
  pub base_url : String

pub record OllamaConfig : Type 0 where
  pub host : String
  pub model : String

unfoldable pub new_openai : (api_key model : String) → OpenAiConfig
new_openai api_key model = record {
  api_key = api_key;
  model = model;
  base_url = "https://api.openai.com/v1";
}

unfoldable pub with_base_url : String → OpenAiConfig → OpenAiConfig
with_base_url base_url c = record c { base_url = base_url }

unfoldable pub new_ollama : (model : String) → OllamaConfig
new_ollama model = record { host = "http://localhost:11434"; model = model }

unfoldable pub with_host : String → OllamaConfig → OllamaConfig
with_host host c = record c { host = host }

-- `StatusCode::is_success`.
abbrev pub is_success : ℕ → Bool
is_success status = leb 200 status && ltb status 300

-- An entry for a value that is there.
abbrev pub optional {ℓ} :
    {A : Type ℓ} {V : Type 0} → String → (A → V) → Option A → List (String × V)
optional key f none = []
optional key f (some a) = (key, f a) ∷ []

-- The library, and `json!` of a float.
module _ (serde : SerdeJson) (float : ℕ → SerdeJson.Value serde) where
  open serde use {Value, null, text, number, boolean, array, object, get, as_str, as_array}

  unfoldable pub openai_call : OpenAiConfig → CompletionRequest → HttpCall Value
  openai_call c r = record {
    url = append c.base_url "/chat/completions";
    bearer = some c.api_key;
    body = object (
        (("model", text c.model)
          ∷ (
            "messages",
            array (
                map_or []
                  (λ system. object (("role", text "system") ∷ ("content", text system) ∷ []) ∷ [])
                  r.system
                ++ object (("role", text "user") ∷ ("content", text r.prompt) ∷ []) ∷ []),
          )
          ∷ [])
        ++ optional "temperature" float r.temperature
        ++ optional "max_tokens" number r.max_tokens);
  }

  -- The options of ollama, which are left out if there are none.
  abbrev pub options_entry : List (String × Value) → List (String × Value)
  options_entry [] = []
  options_entry (o ∷ os) = ("options", object (o ∷ os)) ∷ []

  unfoldable pub ollama_call : OllamaConfig → CompletionRequest → HttpCall Value
  ollama_call c r = record {
    url = append c.host "/api/generate";
    bearer = none;
    body = object (
        (("model", text c.model)
          ∷ (
            "prompt",
            text (map_or r.prompt (λ system. append system (append "\n\n" r.prompt)) r.system),
          )
          ∷ ("stream", boolean false)
          ∷ [])
        ++ options_entry (
            optional "temperature" float r.temperature
            ++ optional "num_predict" number r.max_tokens));
  }

  -- An index of a `Value` in square brackets: null, where there is nothing under the key or at the
  -- place.
  unfoldable pub at_key : (key : String) → Value → Value
  at_key key v = unwrap_or (get key v) null

  abbrev pub first_or_null : List Value → Value
  first_or_null [] = null
  first_or_null (v ∷ _) = v

  unfoldable pub at_first : Value → Value
  at_first v = first_or_null (unwrap_or (as_array v) [])

  -- `parsed["choices"][0]["message"]["content"].as_str()` and `parsed["response"].as_str()`.
  unfoldable pub openai_content : Value → Option String
  unfolding at_key at_first
  openai_content parsed =
      as_str (at_key "content" (at_key "message" (at_first (at_key "choices" parsed))))

  unfoldable pub ollama_content : Value → Option String
  unfolding at_key
  ollama_content parsed = as_str (at_key "response" parsed)

  -- What both providers make of a success and of the answer; `content` looks into the body.
  unfoldable pub parse_success :
      (vendor missing : String) (content : Value → Option String)
      → HttpAnswer Value
      → Result CompletionResponse LlmError
  parse_success vendor missing content response =
      map_err (λ e. llm_error (append vendor (append " response parse failed: " e))) response.json
      >>= λ parsed. ok_or (content parsed) (llm_error missing) >>= λ t. ok (record { text = t })

  unfoldable pub failure_error : (vendor : String) → HttpAnswer Value → LlmError
  failure_error vendor response = llm_error (
      append vendor (
        append " API returned "
          (append response.status_text (append ": " (unwrap_or response.body_text "")))))

  unfoldable pub completion :
      (vendor missing : String) (content : Value → Option String)
      → Result (HttpAnswer Value) String
      → Result CompletionResponse LlmError
  unfolding parse_success failure_error
  completion vendor missing content answer =
      map_err (λ e. llm_error (append vendor (append " request failed: " e))) answer >>= λ response.
      if is_success response.status
      then parse_success vendor missing content response
      else err (failure_error vendor response)

  -- `complete`, where `send` is the client.
  unfoldable pub complete_openai :
      (send : HttpCall Value → Result (HttpAnswer Value) String)
      → OpenAiConfig
      → CompletionRequest
      → Result CompletionResponse LlmError
  unfolding openai_call completion openai_content
  complete_openai send c r =
      completion "openai" "openai response missing content field" openai_content
        (send (openai_call c r))

  unfoldable pub complete_ollama :
      (send : HttpCall Value → Result (HttpAnswer Value) String)
      → OllamaConfig
      → CompletionRequest
      → Result CompletionResponse LlmError
  unfolding ollama_call completion ollama_content
  complete_ollama send c r =
      completion "ollama" "ollama response missing 'response' field" ollama_content
        (send (ollama_call c r))
