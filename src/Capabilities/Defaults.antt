-- ===== src/Capabilities/Defaults.antt =====
-- A type of crates/walastack-runtime/src/capabilities.rs with one provider, under the default name or
-- under another: the requirement of any provider, and what a lookup without a name gives.
use walastack_rs.Base.{
  ℕ, String, ◌≡◌, refl, true, false, none, some, [], ◌∷◌, arith, nat_eq, ◌==◌, ==_refl, nat_keys,
  string_keys, length, unwrap_or, lookup, insert, lookup-insert_self,
}
use walastack_rs.Capabilities.Registry.{
  ErasedProvider, Bucket, CapabilityRegistry, register, register_default, default_name,
  store_provider, resolve_provider,
}
use walastack_rs.Capabilities.View

insert-filled :
    (name : String) (e : ErasedProvider) (b : Bucket) → nat_eq (length (insert name e b)) 0 ≡ false
unfolding insert
insert-filled name e [] = refl
insert-filled name e ((n, x) ∷ b) = ground arith

pub register_default-resolves :
    (ty arc : ℕ) (c : CapabilityRegistry)
    → lookup ty c.strategies ≡ none
    → let caps = View.build (register_default ty arc c).1 in
      (View.contains_type caps ty ≡ true) × ((View.get ty caps).0 ≡ some arc)
unfolding View.build View.contains_type View.get View.select register_default resolve_provider
register_default-resolves ty arc c no_strategy =
    let old = unwrap_or (lookup ty c.providers) [] in
    let entry = store_provider ty arc in
    let bucket = insert default_name entry old in
    let here = lookup-insert_self ty bucket c.providers in
    let provider = lookup-insert_self default_name entry old in
    (
      rw (here, insert-filled default_name entry old) refl,
      ground (arith, here, no_strategy, provider, ==_refl ty),
    )

-- Under another name the requirement is met, and the lookup finds nothing.
pub register-unresolved :
    (ty arc : ℕ) (name : String) (c : CapabilityRegistry)
    → lookup ty c.providers ≡ none
    → lookup ty c.strategies ≡ none
    → (name == default_name) ≡ false
    → let caps = View.build (register ty name arc c).1 in
      (View.contains_type caps ty ≡ true) × ((View.get ty caps).0 ≡ none)
unfolding View.build View.contains_type View.get View.select register resolve_provider lookup insert
register-unresolved ty arc name c no_provider no_strategy named =
    let entry = store_provider ty arc in
    let bucket = (name, entry) ∷ [] in
    let here = lookup-insert_self ty bucket c.providers in
    (ground (arith, here, no_provider), ground (arith, here, no_provider, no_strategy, named))
