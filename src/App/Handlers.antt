-- ===== src/App/Handlers.antt =====
-- crates/walastack-app/src/lib.rs: `Handler` and the extractor `Cap`.
use walastack_rs.Base.{ℕ, String, none, some, nat_keys, string_keys, codes_keys, ok, err, ok_or}
use walastack_rs.Kernel.Context.{capability}
use walastack_rs.Http.{Response, new_response}
use walastack_rs.Http.Extract.{Request, FromRequestParts, FromRequest}

-- A handler in its box; a rejection goes by the response that it becomes.
abbrev pub Handler : Type 0
Handler = Request → Response

-- The `match` on an extractor of the parts, with the rest of the handler, and the one on the last.
unfoldable pub with_parts {ℓ} : {P : Type ℓ} → FromRequestParts P Response → (P → Handler) → Handler
with_parts extract rest req =
    let (extracted, parts) = extract req.parts in
    elim extracted [ err response ↦ response | ok p ↦ rest p (record req { parts = parts }) ]

unfoldable pub with_request {ℓ} : {P : Type ℓ} → FromRequest P Response → (P → Response) → Handler
with_request extract call req = elim (extract req) [ err response ↦ response | ok p ↦ call p ]

-- `Handler::call` by the number of the arguments.
unfoldable pub call_0 : Response → Handler
call_0 response req = response

unfoldable pub call_1 {ℓ} : {P₁ : Type ℓ} → FromRequest P₁ Response → (P₁ → Response) → Handler
unfolding with_request
call_1 last f = with_request last f

unfoldable pub call_2 {ℓ} :
    {P₁ P₂ : Type ℓ}
    → FromRequestParts P₁ Response
    → FromRequest P₂ Response
    → (P₁ → P₂ → Response)
    → Handler
unfolding with_parts with_request
call_2 e₁ last f = with_parts e₁ λ p₁. with_request last (f p₁)

unfoldable pub call_3 {ℓ} :
    {P₁ P₂ P₃ : Type ℓ}
    → FromRequestParts P₁ Response
    → FromRequestParts P₂ Response
    → FromRequest P₃ Response
    → (P₁ → P₂ → P₃ → Response)
    → Handler
unfolding with_parts with_request
call_3 e₁ e₂ last f = with_parts e₁ λ p₁. with_parts e₂ λ p₂. with_request last (f p₁ p₂)

unfoldable pub call_4 {ℓ} :
    {P₁ P₂ P₃ P₄ : Type ℓ}
    → FromRequestParts P₁ Response
    → FromRequestParts P₂ Response
    → FromRequestParts P₃ Response
    → FromRequest P₄ Response
    → (P₁ → P₂ → P₃ → P₄ → Response)
    → Handler
unfolding with_parts with_request
call_4 e₁ e₂ e₃ last f =
    with_parts e₁ λ p₁. with_parts e₂ λ p₂. with_parts e₃ λ p₃. with_request last (f p₁ p₂ p₃)

unfoldable pub call_5 {ℓ} :
    {P₁ P₂ P₃ P₄ P₅ : Type ℓ}
    → FromRequestParts P₁ Response
    → FromRequestParts P₂ Response
    → FromRequestParts P₃ Response
    → FromRequestParts P₄ Response
    → FromRequest P₅ Response
    → (P₁ → P₂ → P₃ → P₄ → P₅ → Response)
    → Handler
unfolding with_parts with_request
call_5 e₁ e₂ e₃ e₄ last f = with_parts e₁ λ p₁.
    with_parts e₂ λ p₂. with_parts e₃ λ p₃. with_parts e₄ λ p₄. with_request last (f p₁ p₂ p₃ p₄)

pub data CapRejection : Type 0 where
  no_runtime_context : CapRejection
  missing_capability : (type_name : String) → CapRejection

unfoldable pub internal_server_error : Response
unfolding new_response
internal_server_error = record (new_response "Internal Server Error") { status = 500 }

-- `CapRejection::into_response`.
unfoldable pub cap_response : CapRejection → Response
unfolding internal_server_error
cap_response no_runtime_context = internal_server_error
cap_response (missing_capability _) = internal_server_error

-- `Cap<T>`, which gives the handle of the provider.
unfoldable pub cap_extractor :
    (type_id : ℕ) → (type_name : String) → FromRequestParts ℕ CapRejection
cap_extractor ty type_name parts = elim parts.runtime [
  | none ↦ (err no_runtime_context, parts)
  | some ctx ↦
      let (found, ctx') = capability ty ctx in
      (ok_or found (missing_capability type_name), record parts { runtime = some ctx' })
]
