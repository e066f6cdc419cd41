-- ===== src/Llm/Answers.antt =====
-- Which answers of a server become a completion, in crates/walastack-llm/src/lib.rs.
use walastack_rs.Base.{
  ℕ, List, [], ◌∷◌, String, ◌≡◌, ◌↔◌, inl, inr, true, Option, some, arith, Bool-cases, Option-cases,
  nat_keys, string_keys, codes_keys, Result, ok, Result-cases,
}
use walastack_rs.Json.{SerdeJson}
use walastack_rs.Json.Laws.{HasEmptyNull}
use walastack_rs.Llm.{
  CompletionRequest, CompletionResponse, HttpAnswer, HttpCall, OpenAiConfig, OllamaConfig,
  is_success, openai_call, ollama_call, at_key, at_first, openai_content, ollama_content,
  parse_success, completion, complete_openai, complete_ollama,
}

module _ (serde : SerdeJson) (float : ℕ → SerdeJson.Value serde) where
  open serde use {Value, null, get, as_str, as_array}

  -- A success with a JSON body in which the text is found.
  abbrev pub Completes :
      (IsText : Value → String → Type 0) → Result (HttpAnswer Value) String → String → Type 0
  Completes IsText answer t =
      (response : HttpAnswer Value) × (answer ≡ ok response)
      × (is_success response.status ≡ true)
      × ((parsed : Value) × (response.json ≡ ok parsed) × IsText parsed t)

  parse_success-ok :
      (vendor missing : String) (content : Value → Option String) (response : HttpAnswer Value)
      (c : CompletionResponse)
      → parse_success serde float vendor missing content response ≡ ok c
      → (parsed : Value) × (response.json ≡ ok parsed) × (content parsed ≡ some c.text)
  unfolding parse_success
  parse_success-ok vendor missing content response c done = elim (Result-cases response.json) [
    | inr (e, bad) ↦ absurd (ground (arith, bad, done))
    | inl (parsed, good) ↦ elim (Option-cases (content parsed)) [
      | inl lacks ↦ absurd (ground (arith, good, lacks, done))
      | inr (t, found) ↦ (parsed, good, ground (arith, good, found, done))
    ]
  ]

  completion-Completes :
      (vendor missing : String) (content : Value → Option String) (IsText : Value → String → Type 0)
      → ((parsed : Value) (t : String) → (content parsed ≡ some t) ↔ IsText parsed t)
      → (answer : Result (HttpAnswer Value) String) (c : CompletionResponse)
      → (completion serde float vendor missing content answer ≡ ok c)
        ↔ Completes IsText answer c.text
  unfolding completion
  completion-Completes vendor missing content IsText reads answer c = (to, from)
    where
      to :
          completion serde float vendor missing content answer ≡ ok c
          → Completes IsText answer c.text
      to done = elim (Result-cases answer) [
        | inr (e, bad) ↦ absurd (ground (arith, bad, done))
        | inl (response, good) ↦ elim (Bool-cases (is_success response.status)) [
          | inr refused ↦ absurd (ground (arith, good, refused, done))
          | inl success ↦
              let (parsed, read, found) =
                parse_success-ok vendor missing content response c
                  (ground (arith, good, success, done)) in
              (response, good, success, (parsed, read, (reads parsed c.text).0 found))
        ]
      ]

      from :
          Completes IsText answer c.text
          → completion serde float vendor missing content answer ≡ ok c
      from (response, good, success, (parsed, read, is_text)) =
          let found = (reads parsed c.text).1 is_text in
          unfold parse_success in ground (arith, good, success, read, found)

  -- Where the text stands in a body of OpenAI: in the message of the first choice.
  abbrev pub IsOpenaiText : Value → String → Type 0
  IsOpenaiText parsed t =
      (choices : Value) × (first : Value) × (rest : List Value) × (message : Value)
      × (content : Value) × (get "choices" parsed ≡ some choices)
      × (as_array choices ≡ some (first ∷ rest))
      × (get "message" first ≡ some message)
      × (get "content" message ≡ some content)
      × (as_str content ≡ some t)

  -- And in a body of Ollama.
  abbrev pub IsOllamaText : Value → String → Type 0
  IsOllamaText parsed t =
      (response : Value) × (get "response" parsed ≡ some response) × (as_str response ≡ some t)

  module _ (empty : HasEmptyNull serde) where
    -- What is found under a key and then read stands there.
    as_str-at_key :
        (key : String) (v : Value) (t : String)
        → as_str (at_key serde float key v) ≡ some t
        → (found : Value) × (get key v ≡ some found) × (as_str found ≡ some t)
    unfolding at_key
    as_str-at_key key v t read = elim (Option-cases (get key v)) [
      | inl e ↦ absurd (ground (arith, e, read, empty.as_str-null))
      | inr (found, e) ↦ (found, e, ground (arith, e, read))
    ]

    get-at_key :
        (key inner : String) (v found : Value)
        → get inner (at_key serde float key v) ≡ some found
        → (outer : Value) × (get key v ≡ some outer) × (get inner outer ≡ some found)
    unfolding at_key
    get-at_key key inner v found read = elim (Option-cases (get key v)) [
      | inl e ↦ absurd (ground (arith, e, read, empty.get-null inner))
      | inr (outer, e) ↦ (outer, e, ground (arith, e, read))
    ]

    get-at_first :
        (inner : String) (v found : Value)
        → get inner (at_first serde float v) ≡ some found
        → (first : Value) × (rest : List Value) × (as_array v ≡ some (first ∷ rest))
          × (get inner first ≡ some found)
    unfolding at_first
    get-at_first inner v found read = elim (Option-cases (as_array v)) [
      | inl e ↦ absurd (ground (arith, e, read, empty.get-null inner))
      | inr ([], e) ↦ absurd (ground (arith, e, read, empty.get-null inner))
      | inr (first ∷ rest, e) ↦ (first, rest, e, ground (arith, e, read))
    ]

    as_array-at_key :
        (key : String) (v first : Value) (rest : List Value)
        → as_array (at_key serde float key v) ≡ some (first ∷ rest)
        → (outer : Value) × (get key v ≡ some outer) × (as_array outer ≡ some (first ∷ rest))
    unfolding at_key
    as_array-at_key key v first rest read = elim (Option-cases (get key v)) [
      | inl e ↦ absurd (ground (arith, e, read, empty.as_array-null))
      | inr (outer, e) ↦ (outer, e, ground (arith, e, read))
    ]

    openai_content_lem :
        (parsed : Value) (t : String)
        → (openai_content serde float parsed ≡ some t) ↔ IsOpenaiText parsed t
    unfolding openai_content at_key at_first
    openai_content_lem parsed t = (to, from)
      where
        to : openai_content serde float parsed ≡ some t → IsOpenaiText parsed t
        to read =
            let (content, under_content, is_text) = as_str-at_key "content" _ t read in
            let (message, under_message, holds) =
              get-at_key "message" "content" _ content under_content in
            let (first, rest, listed, has_message) =
              get-at_first "message" _ message under_message in
            let (choices, under_choices, is_list) =
              as_array-at_key "choices" parsed first rest listed in
            (
              choices, first, rest, message, content, under_choices, is_list, has_message, holds,
              is_text,
            )

        from : IsOpenaiText parsed t → openai_content serde float parsed ≡ some t
        from (choices, first, rest, message, content, a, b, c, d, e) = ground (arith, a, b, c, d, e)

    ollama_content_lem :
        (parsed : Value) (t : String)
        → (ollama_content serde float parsed ≡ some t) ↔ IsOllamaText parsed t
    unfolding ollama_content at_key
    ollama_content_lem parsed t = (
      λ read. as_str-at_key "response" parsed t read,
      λ (response, under, is_text). ground (arith, under, is_text),
    )

    -- A provider gives a completion exactly if the call was answered with a status between 200 and 299
    -- and with a JSON body that holds the text where the provider's API has it: in the message of the
    -- first choice, for OpenAI, and under `response`, for Ollama. The completion is that text, and
    -- every other answer is an error.
    pub complete-Completes :
        (send : HttpCall Value → Result (HttpAnswer Value) String) (openai : OpenAiConfig)
        (ollama : OllamaConfig) (r : CompletionRequest) (c : CompletionResponse)
        → ((complete_openai serde float send openai r ≡ ok c)
            ↔ Completes IsOpenaiText (send (openai_call serde float openai r)) c.text)
          × ((complete_ollama serde float send ollama r ≡ ok c)
              ↔ Completes IsOllamaText (send (ollama_call serde float ollama r)) c.text)
    unfolding complete_openai complete_ollama
    complete-Completes send openai ollama r c = (
      completion-Completes "openai" "openai response missing content field"
          (openai_content serde float) IsOpenaiText openai_content_lem _ c,
      completion-Completes "ollama" "ollama response missing 'response' field"
          (ollama_content serde float) IsOllamaText ollama_content_lem _ c,
    )
