-- ===== src/Kernel/Requirements.antt =====
-- What `validate_requirements` of crates/walastack-runtime/src/plugins.rs accepts and reports.
use walastack_rs.Base.{
  String, ◌≡◌, refl, ap, ◌⊎◌, inl, inr, true, false, List, [], ◌∷◌, ◌++◌, Bool-cases, nat_keys,
  string_keys, All, ok, err,
}
use walastack_rs.Capabilities.View.{Capabilities}
use walastack_rs.Kernel.Plugins.{
  CapabilityRequirement, is_satisfied_by, Plugin, missing_requirement, check_requirements,
  validate_requirements,
}

module _ (caps : Capabilities) where
  -- All requirements of a plugin are met.
  abbrev pub Meets : Plugin → Type 0
  Meets p = All (λ req. is_satisfied_by caps req ≡ true) p.required_capabilities

  -- The first requirement of a list that is not met.
  abbrev pub FirstUnmet : List CapabilityRequirement → CapabilityRequirement → Type 0
  FirstUnmet reqs req =
      (before : List CapabilityRequirement) × (after : List CapabilityRequirement) × (reqs
        ≡ before ++ req ∷ after)
      × All (λ r. is_satisfied_by caps r ≡ true) before
      × (is_satisfied_by caps req ≡ false)

  check_requirements-cases :
      (plugin : String) (reqs : List CapabilityRequirement)
      → ((check_requirements caps plugin reqs ≡ ok tt)
          × All (λ r. is_satisfied_by caps r ≡ true) reqs)
        ⊎ ((req : CapabilityRequirement) × (check_requirements caps plugin reqs
              ≡ err (missing_requirement plugin req.description))
            × FirstUnmet reqs req)
  unfolding check_requirements
  check_requirements-cases plugin [] = inl (refl, tt)
  check_requirements-cases plugin (r ∷ reqs) = elim (Bool-cases (is_satisfied_by caps r)) [
    | inl met ↦ elim (check_requirements-cases plugin reqs) [
      | inl (good, all) ↦ inl (rw met good, (met, all))
      | inr (req, bad, (before, after, split, all, unmet)) ↦
          inr (req, rw met bad, (r ∷ before, after, ap (◌∷◌ r) split, (met, all), unmet))
    ]
    | inr unmet ↦ inr (r, rw unmet, ([], reqs, refl, tt, unmet))
  ]

  -- The check of the plugins succeeds exactly if all requirements of all plugins are met. If it
  -- fails, the error names the first plugin in the order of registration that has an unmet
  -- requirement, and the first such requirement of it.
  pub validate_requirements-cases :
      (plugins : List Plugin)
      → ((validate_requirements caps plugins ≡ ok tt) × All Meets plugins)
        ⊎ ((before : List Plugin) × (p : Plugin) × (after : List Plugin)
            × (req : CapabilityRequirement) × (plugins ≡ before ++ p ∷ after)
            × All Meets before
            × FirstUnmet p.required_capabilities req
            × (validate_requirements caps plugins
                ≡ err (missing_requirement p.name req.description)))
  unfolding validate_requirements
  validate_requirements-cases [] = inl (refl, tt)
  validate_requirements-cases (p ∷ plugins) =
      elim (check_requirements-cases p.name p.required_capabilities) [
        | inl (good, met) ↦ elim (validate_requirements-cases plugins) [
          | inl (rest, all) ↦ inl (rw good rest, (met, all))
          | inr (before, q, after, req, split, all, unmet, bad) ↦
              inr (p ∷ before, q, after, req, ap (◌∷◌ p) split, (met, all), unmet, rw good bad)
        ]
        | inr (req, bad, unmet) ↦ inr ([], p, plugins, req, refl, tt, unmet, rw bad)
      ]
