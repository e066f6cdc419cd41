-- ===== src/Kernel/Lifecycle.antt =====
-- The phases of crates/walastack-runtime/src/runtime.rs in order: build, start, shutdown.
use walastack_rs.Base.{
  String, ◌≡◌, refl, sym, ap, ◌∙◌, List, [], ◌∷◌, ◌++◌, if◌then◌else◌, nat_keys, string_keys, All,
  Result, ok, err, map_err,
}
use mathlib.Core.List.{append_assoc}
use walastack_rs.Supervision.Watcher.{RestartPolicy, service_started, start_service}
use walastack_rs.Supervision.Tree.{SupervisionTree, start_supervised}
use walastack_rs.Kernel.Plugins.{Service}
use walastack_rs.Kernel.Runtime.{
  RuntimeError, service_start, Runtime, RuntimeEffect, runtime_starting, runtime_started,
  supervises, Outcome, after_start, start_services, start, is_ok,
}

-- The effects of starting services that all answer.
unfoldable pub started : List (Service × RestartPolicy) → List RuntimeEffect
started [] = []
started ((s, _) ∷ rest) =
    supervises start_service ∷ supervises (service_started s.name 1) ∷ started rest

abbrev pub Answers : Service × RestartPolicy → Type 0
Answers (s, _) = s.start ≡ ok tt

-- What is left after the services that answer: nothing, or a list whose first service fails.
abbrev pub FailsFirst : List (Service × RestartPolicy) → Type 0
FailsFirst [] = Unit {0}
FailsFirst ((s, _) ∷ _) = (e : String) × (s.start ≡ err e)

abbrev pub first_error : List (Service × RestartPolicy) → Result (Unit {0}) RuntimeError
first_error [] = ok tt
first_error ((s, _) ∷ _) = map_err (service_start s.name) s.start

start_services-answer :
    (s : Service) (p : RestartPolicy) (rest : List (Service × RestartPolicy))
    (tree : SupervisionTree)
    → s.start ≡ ok tt
    → let tree' = (start_supervised s.name (ok tt) tree).1 in
      start_services ((s, p) ∷ rest) tree ≡ (
        (start_services rest tree').0,
        (start_services rest tree').1,
        started ((s, p) ∷ []) ++ (start_services rest tree').2,
      )
unfolding start_services started
start_services-answer s p rest tree h =
    let same : start_supervised s.name s.start tree ≡ (
      ok tt,
      (start_supervised s.name (ok tt) tree).1,
      start_service ∷ service_started s.name 1 ∷ [],
    ) =
      ap (λ a. start_supervised s.name a tree) h ∙ unfold start_supervised in refl in
    ap (λ q. after_start s.name q (start_services rest)) same

-- After services that all answer, the loop goes on with the rest.
start_services-append :
    (before rest : List (Service × RestartPolicy)) (tree : SupervisionTree)
    → All Answers before
    → (tree' : SupervisionTree) × (start_services (before ++ rest) tree ≡ (
      (start_services rest tree').0,
      (start_services rest tree').1,
      started before ++ (start_services rest tree').2,
    ))
unfolding started
start_services-append [] rest tree h = (tree, refl)
start_services-append ((s, p) ∷ before) rest tree h =
    let next = (start_supervised s.name (ok tt) tree).1 in
    let rec = start_services-append before rest next h.1 in
    (
      rec.0,
      start_services-answer s p (before ++ rest) tree h.0
          ∙ ap {A = Outcome} {B = Outcome} (λ q. (q.0, q.1, started ((s, p) ∷ []) ++ q.2)) rec.1,
    )

-- The effects of a last part of the loop: those of the loop and of `start` after it.
finish : Outcome → List RuntimeEffect
finish q = q.2 ++ (if is_ok q.0 then runtime_started ∷ [] else [])

-- The loop at a first service that fails, or at the end.
start_services-failing :
    (failing : List (Service × RestartPolicy)) (tree : SupervisionTree)
    → FailsFirst failing
    → ((start_services failing tree).0 ≡ first_error failing)
      × (finish (start_services failing tree) ≡ (
          if is_ok (first_error failing)
          then runtime_started ∷ []
          else supervises start_service ∷ []))
unfolding start_services finish
start_services-failing [] tree h = (refl, refl)
start_services-failing ((s, p) ∷ rest) tree (e, h) =
    let same : start_supervised s.name s.start tree ≡ (err e, tree, start_service ∷ []) =
      ap (λ a. start_supervised s.name a tree) h ∙ unfold start_supervised in refl in
    let path = ap (λ q. after_start s.name q (start_services rest)) same in
    (
      ap (λ q. q.0) path ∙ sym (ap (map_err (service_start s.name)) h),
      ap finish path
          ∙ sym (
              ap
                (λ a.
                  if is_ok (map_err (service_start s.name) a)
                  then runtime_started ∷ []
                  else supervises start_service ∷ [])
                h),
    )

-- The Start phase. If every service answers, `RuntimeStarting` comes first, then each service in
-- order is started and announced, and `RuntimeStarted` comes last. If one fails, the services before
-- it are started, its own start is tried, no later service is touched, `RuntimeStarted` does not
-- come, and the error names it. No service is left to start in either case.
pub start_in_order :
    (r : Runtime) (before : List (Service × RestartPolicy))
    (failing : List (Service × RestartPolicy))
    → r.services ≡ before ++ failing
    → All Answers before
    → FailsFirst failing
    → ((start r).0 ≡ first_error failing)
      × ((start r).1.services ≡ [])
      × ((start r).2
          ≡ runtime_starting
            ∷ (started before
                ++ (if is_ok (first_error failing)
                    then runtime_started ∷ []
                    else supervises start_service ∷ [])))
unfolding start finish
start_in_order r before failing split answers fails =
    let run = start_services-append before failing r.supervision answers in
    let path = ap (λ l. start_services l r.supervision) split ∙ run.1 in
    let last = start_services-failing failing run.0 fails in
    (
      ap (λ q. q.0) path ∙ last.0,
      refl,
      ap {A = Outcome} (λ q. runtime_starting ∷ finish q) path
          ∙ ap (◌∷◌ runtime_starting) (
              append_assoc (started before) (start_services failing run.0).2 _
              ∙ ap (◌++◌ (started before)) last.1),
    )
