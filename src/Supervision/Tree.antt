-- ===== src/Supervision/Tree.antt =====
-- crates/walastack-runtime/src/supervision.rs: `SupervisionTree`. The watchers are numbered in the
-- order in which they are spawned.
pub mod Draining
use walastack_rs.Base.{
  ℕ, ◌+◌, String, Bool, List, [], ◌∷◌, ◌++◌, map, if◌then◌else◌, nat_keys, string_keys, length,
  insert, Result, ok, err,
}
use walastack_rs.Supervision.Watcher.{WatchEffect, service_started, start_service}

pub record SupervisionTree : Type 0 where
  pub children : List (String × ℕ)  -- a name and its watcher
  pub spawned : ℕ  -- how many watchers were spawned so far
  pub aborted : List ℕ  -- the watchers that were aborted

unfoldable pub new_tree : SupervisionTree
new_tree = record { children = []; spawned = 0; aborted = [] }

-- `start_service`; `answer` is that of `Service::start`.
unfoldable pub start_supervised :
    (name : String)
    → (answer : Result (Unit {0}) String) → SupervisionTree
    → Result (Unit {0}) String × SupervisionTree × List WatchEffect
start_supervised name (err e) s = (err e, s, start_service ∷ [])
start_supervised name (ok _) s = (
  ok tt,
  record s { children = insert name s.spawned s.children; spawned = s.spawned + 1 },
  start_service ∷ service_started name 1 ∷ [],
)

unfoldable pub supervised_count : SupervisionTree → ℕ
supervised_count s = length s.children

-- `for (_name, watcher) in watchers`: `in_time` tells which watchers exit before the deadline that
-- each of them is given.
unfoldable pub await_watchers : (in_time : ℕ → Bool) → List (String × ℕ) → (graceful : ℕ) → ℕ
await_watchers in_time [] graceful = graceful
await_watchers in_time ((_, watcher) ∷ rest) graceful =
    await_watchers in_time rest (if in_time watcher then graceful + 1 else graceful)

unfoldable pub drain : (in_time : ℕ → Bool) → SupervisionTree → ℕ × SupervisionTree
unfolding await_watchers
drain in_time s = (await_watchers in_time s.children 0, record s { children = [] })

unfoldable pub shutdown_now : SupervisionTree → SupervisionTree
shutdown_now s = record s { children = []; aborted = map (λ c. c.1) s.children ++ s.aborted }
