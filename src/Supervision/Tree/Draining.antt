-- ===== src/Supervision/Tree/Draining.antt =====
-- What `start_service`, `drain` and `shutdown_now` of crates/walastack-runtime/src/supervision.rs
-- do to the tree.
use walastack_rs.Base.{
  ℕ, ◌+◌, ◌≤◌, String, ◌≡◌, refl, Bool, some, List, [], ◌∷◌, arith, if◌then◌else◌, ◌==◌, nat_keys,
  string_keys, count, count-le-length, is_some, lookup, lookup-insert, length-insert, ok, err,
}
use walastack_rs.Supervision.Watcher.{service_started, start_service}
use walastack_rs.Supervision.Tree.{
  SupervisionTree, start_supervised, supervised_count, await_watchers, drain,
}

-- A start that fails leaves the tree as it was and returns the error; one that succeeds lists the
-- watcher that it spawned under the service's name, keeps the other names, and adds one to the
-- count unless the name was taken.
pub start_supervised_lem :
    (name other : String) (e : String) (s : SupervisionTree)
    → let good = start_supervised name (ok tt) s in
      (start_supervised name (err e) s ≡ (err e, s, start_service ∷ []))
      × (good.2 ≡ start_service ∷ service_started name 1 ∷ [])
      × (lookup other good.1.children
          ≡ (if name == other then some s.spawned else lookup other s.children))
      × (supervised_count good.1
          ≡ supervised_count s + (if is_some (lookup name s.children) then 0 else 1))
unfolding start_supervised supervised_count
start_supervised_lem name other e s = (
  refl,
  refl,
  lookup-insert name other s.spawned s.children,
  length-insert name s.spawned s.children,
)

graceful-eq-count :
    (in_time : ℕ → Bool) (cs : List (String × ℕ)) (n : ℕ)
    → await_watchers in_time cs n ≡ n + count (λ c. in_time c.1) cs
unfolding await_watchers
graceful-eq-count in_time [] n = omega arith
graceful-eq-count in_time ((x, w) ∷ cs) n =
    ground (arith, graceful-eq-count in_time cs n, graceful-eq-count in_time cs (n + 1))

-- A drain empties the tree and aborts no watcher, not even one that misses its deadline; its result
-- is the number of listed watchers that exit in time, and so is at most the number of services.
pub drain_lem :
    (in_time : ℕ → Bool) (s : SupervisionTree)
    → let (graceful, t) = drain in_time s in
      (graceful ≡ count (λ c. in_time c.1) s.children)
      × (graceful ≤ supervised_count s)
      × (supervised_count t ≡ 0)
      × (t.aborted ≡ s.aborted)
unfolding drain supervised_count
drain_lem in_time s = (
  omega (arith, graceful-eq-count in_time s.children 0),
  omega (arith, graceful-eq-count in_time s.children 0, count-le-length _ s.children),
  refl,
  refl,
)
