-- ===== src/Mcp/Environment.antt =====
-- crates/walastack-mcp/src/service.rs: `resolve_env`, and which binding of a variable it gives.
use walastack_rs.Base.{
  ℕ, String, ◌≡◌, refl, ap, ◌∙◌, ◌⊎◌, inl, inr, Option, some, List, [], ◌∷◌, ◌++◌, arith,
  if◌then◌else◌, ◌==◌, nat_keys, string_keys, codes_keys, All, lookup, insert, lookup-insert,
  Result, ok, err, ◌>>=◌, ok_or, Result-cases,
}
use walastack_rs.Kernel.Context.{RuntimeContext, capability}
use walastack_rs.Auth.{SecretsProvider, from_utf8}
use walastack_rs.Mcp.Config.{EnvVar, from_secret, literal_value, McpServerSpec}

-- The texts of the errors.
pub data EnvError : Type 0 where
  no_secrets_provider : EnvError
  secret_not_registered : (server secret_name : String) → EnvError
  not_utf8 : (secret_name var : String) → EnvError

-- The body of the loop, in two steps: the value of an entry, and the variable that it sets.
unfoldable pub entry_value : SecretsProvider → (server : String) → EnvVar → Result String EnvError
entry_value secrets server (from_secret var secret_name) =
    ok_or (secrets.get secret_name) (secret_not_registered server secret_name) >>= λ bytes.
    ok_or (from_utf8 bytes) (not_utf8 secret_name var)
entry_value secrets server (literal_value var value) = ok value

abbrev pub entry_var : EnvVar → String
entry_var (from_secret var _) = var
entry_var (literal_value var _) = var

unfoldable pub bind_entries :
    SecretsProvider
    → (server : String) → List EnvVar
    → List (String × String)
    → Result (List (String × String)) EnvError
unfolding entry_value
bind_entries secrets server [] out = ok out
bind_entries secrets server (entry ∷ env) out = entry_value secrets server entry >>= λ value.
    bind_entries secrets server env (insert (entry_var entry) value out)

module _ (secrets_type : ℕ) (provider_at : ℕ → SecretsProvider) where
  unfoldable pub resolve_env :
      RuntimeContext → McpServerSpec → Result (List (String × String)) EnvError × RuntimeContext
  unfolding bind_entries
  resolve_env ctx spec = elim spec.env [
    | [] ↦ (ok [], ctx)
    | entry ∷ env ↦
        let (found, ctx') = capability secrets_type ctx in
        (
          ok_or found no_secrets_provider >>= λ handle.
              bind_entries (provider_at handle) spec.id (entry ∷ env) [],
          ctx',
        )
  ]

module _ (secrets : SecretsProvider) (server : String) where
  -- The last binding of a variable, where an entry without a value binds nothing.
  abbrev pub last_binding : (var : String) → List EnvVar → Option String → Option String
  last_binding var [] before = before
  last_binding var (entry ∷ env) before = elim (entry_value secrets server entry) [
    | err _ ↦ last_binding var env before
    | ok value ↦ last_binding var env (if entry_var entry == var then some value else before)
  ]

  -- The first entry without a value.
  abbrev pub FirstWithout : List EnvVar → EnvError → Type 0
  FirstWithout env e =
      (before : List EnvVar) × (entry : EnvVar) × (after : List EnvVar) × (env
        ≡ before ++ entry ∷ after)
      × All (λ x. (value : String) × (entry_value secrets server x ≡ ok value)) before
      × (entry_value secrets server entry ≡ err e)

  abbrev pub Binds : (var : String) → List EnvVar → List (String × String) → Type 0
  Binds var env start =
      ((out : List (String × String)) × (bind_entries secrets server env start ≡ ok out)
        × (lookup var out ≡ last_binding var env (lookup var start)))
      ⊎ ((e : EnvError) × (bind_entries secrets server env start ≡ err e) × FirstWithout env e)

  -- The entries are bound in order: a variable gets its last value, and the first entry without a
  -- value is the error.
  pub bind_entries-cases :
      (var : String) (env : List EnvVar) (start : List (String × String)) → Binds var env start
  unfolding bind_entries
  bind_entries-cases var [] start = inl (start, refl, refl)
  bind_entries-cases var (entry ∷ env) start =
      elim (Result-cases (entry_value secrets server entry)) [
        | inr (e, failed) ↦ inr (e, rw failed refl, ([], entry, env, refl, tt, failed))
        | inl (value, has_value) ↦
            let set = lookup-insert (entry_var entry) var value start in
            let after : last_binding var env (lookup var (insert (entry_var entry) value start))
                ≡ last_binding var (entry ∷ env) (lookup var start) =
              ap (last_binding var env) set ∙ (ground (arith, has_value)) in
            elim (bind_entries-cases var env (insert (entry_var entry) value start)) [
              | inl (out, bound, last) ↦ inl (out, rw has_value bound, last ∙ after)
              | inr (e, failed, (before, x, after, split, all, without)) ↦ inr (
                e,
                rw has_value failed,
                (
                  entry ∷ before,
                  x,
                  after,
                  ap (◌∷◌ entry) split,
                  ((value, has_value), all),
                  without,
                ),
              )
            ]
      ]
