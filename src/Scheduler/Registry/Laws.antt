-- ===== src/Scheduler/Registry/Laws.antt =====
-- The registry of crates/walastack-runtime/src/scheduler.rs over every interleaving of its steps.
use walastack_rs.Base.{
  ℕ, ◌<◌, ◌≡◌, refl, ◌≢◌, Bool, true, false, some, List, [], ◌∷◌, arith, if◌then◌else◌, nat_keys,
  string_keys, All, is_some, lookup, insert, lookup-insert, lookup-remove, All-insert, All-remove,
  u64_max,
}
use walastack_rs.Scheduler.Registry.{
  TaskState, Registry, new_scheduler, spawn_task, list_task, finish_task, cancel_task, abort_all,
  shutdown, pending_count, Work, spawns, lists, finishes, cancels, Reach, start, work, shut,
}

abbrev IsOwn : ℕ × TaskState → Type 0
IsOwn (id, t) = (t.cancel ≡ id) × (t.join ≡ id)

-- What holds of a scheduler between two steps.
pub record Inv (s : Registry) : Type 0 where
  -- A running task whose call of `schedule` has returned is listed.
  pub listed :
      (id : ℕ)
      → lookup id s.running ≡ some true
      → lookup id s.pending ≡ some false
      → is_some (lookup id s.tasks) ≡ true
  -- The next number was never given out.
  pub fresh_running : (id : ℕ) → is_some (lookup id s.running) ≡ true → id < s.next_id
  pub fresh_pending : (id : ℕ) → is_some (lookup id s.pending) ≡ true → id < s.next_id
  pub fresh_tasks : (id : ℕ) → is_some (lookup id s.tasks) ≡ true → id < s.next_id
  -- An entry names its own channel and task.
  pub own : All IsOwn s.tasks

new-Inv : Inv new_scheduler
unfolding new_scheduler lookup
new-Inv = record {
  listed = λ id r p. absurd (cc);
  fresh_running = λ id h. absurd (cc);
  fresh_pending = λ id h. absurd (cc);
  fresh_tasks = λ id h. absurd (cc);
  own = tt;
}

spawn-Inv : (s : Registry) → s.next_id < u64_max → Inv s → Inv (spawn_task s)
unfolding spawn_task
spawn-Inv s h v = record {
  listed = λ id r p. ground (
    arith,
    lookup-insert s.next_id id true s.running,
    lookup-insert s.next_id id true s.pending,
    v.listed id,
  );
  fresh_running =
      λ id r. ground (arith, lookup-insert s.next_id id true s.running, v.fresh_running id);
  fresh_pending =
      λ id r. ground (arith, lookup-insert s.next_id id true s.pending, v.fresh_pending id);
  fresh_tasks = λ id r. ground (arith, v.fresh_tasks id);
  own = v.own;
}

list-Inv : (s : Registry) (id : ℕ) → lookup id s.pending ≡ some true → Inv s → Inv (list_task id s)
unfolding list_task
list-Inv s id h v = record {
  listed = λ j r p. ground (
    arith,
    lookup-insert id j (record { cancel = id; join = id }) s.tasks,
    lookup-insert id j false s.pending,
    v.listed j,
  );
  fresh_running = v.fresh_running;
  fresh_pending = λ j r.
      ground (arith, lookup-insert id j false s.pending, v.fresh_pending j, v.fresh_pending id);
  fresh_tasks = λ j r. ground (
    arith,
    lookup-insert id j (record { cancel = id; join = id }) s.tasks,
    v.fresh_tasks j,
    v.fresh_pending id,
  );
  own = All-insert IsOwn id _ s.tasks (refl, refl) v.own;
}

finish-Inv :
    (s : Registry) (id : ℕ) → lookup id s.running ≡ some true → Inv s → Inv (finish_task id s)
unfolding finish_task
finish-Inv s id h v = record {
  listed = λ j r p.
      ground (arith, lookup-insert id j false s.running, lookup-remove id j s.tasks, v.listed j);
  fresh_running = λ j r.
      ground (arith, lookup-insert id j false s.running, v.fresh_running j, v.fresh_running id);
  fresh_pending = v.fresh_pending;
  fresh_tasks = λ j r. ground (arith, lookup-remove id j s.tasks, v.fresh_tasks j);
  own = All-remove IsOwn id s.tasks v.own;
}

cancel-Inv : (s : Registry) (id : ℕ) → Inv s → Inv (cancel_task id s)
unfolding cancel_task
cancel-Inv s id v = record {
  listed = v.listed;
  fresh_running = v.fresh_running;
  fresh_pending = v.fresh_pending;
  fresh_tasks = v.fresh_tasks;
  own = v.own;
}

-- A task that is out stays out, and every listed one is taken out.
lookup-abort_all :
    (j : ℕ) (ts : List (ℕ × TaskState)) (m : List (ℕ × Bool))
    → All IsOwn ts
    → lookup j (abort_all ts m) ≡ (if is_some (lookup j ts) then some false else lookup j m)
unfolding abort_all lookup
lookup-abort_all j [] m h = refl
lookup-abort_all j ((i, t) ∷ ts) m h =
    ground
      (arith, lookup-abort_all j ts (insert t.join false m) h.1, lookup-insert t.join j false m)

shutdown-Inv : (s : Registry) → Inv s → Inv (shutdown s)
unfolding shutdown
shutdown-Inv s v = record {
  listed = λ id r p. ground (arith, lookup-abort_all id s.tasks s.running v.own, v.listed id);
  fresh_running = λ id r.
      ground
        (arith, lookup-abort_all id s.tasks s.running v.own, v.fresh_running id, v.fresh_tasks id);
  fresh_pending = v.fresh_pending;
  fresh_tasks = λ id r. absurd (unfold lookup in cc);
  own = tt;
}

Work-Inv : {s u : Registry} → Work s u → Inv s → Inv u
Work-Inv {s} (spawns h) v = spawn-Inv s h v
Work-Inv {s} (lists id h) v = list-Inv s id h v
Work-Inv {s} (finishes id h) v = finish-Inv s id h v
Work-Inv {s} (cancels id h) v = cancel-Inv s id v

Reach-Inv : {s u : Registry} → Inv s → Reach s u → Inv u
Reach-Inv v start = v
Reach-Inv v (work r st) = Work-Inv st (Reach-Inv v r)
Reach-Inv v (shut {t} r) = shutdown-Inv t (Reach-Inv v r)

-- Every interleaving of the threads' steps, shutdowns included, keeps the invariant: each running
-- task whose call of `schedule` has returned is listed, and no number is given out twice.
pub new-Reach-Inv : (s : Registry) → Reach new_scheduler s → Inv s
new-Reach-Inv s r = Reach-Inv new-Inv r

-- Whatever the threads did before, `shutdown` empties the registry and stops every task whose call
-- of `schedule` has returned.
pub shutdown_stops :
    (s : Registry) (id : ℕ)
    → Reach new_scheduler s
    → lookup id s.pending ≡ some false
    → (pending_count (shutdown s) ≡ 0) × (lookup id (shutdown s).running ≢ some true)
unfolding shutdown pending_count
shutdown_stops s id r p =
    let v = new-Reach-Inv s r in
    (refl, λ live. ground (arith, lookup-abort_all id s.tasks s.running v.own, v.listed id))
