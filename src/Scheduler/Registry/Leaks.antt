-- ===== src/Scheduler/Registry/Leaks.antt =====
-- The race between `schedule` and the end of its task in crates/walastack-runtime/src/scheduler.rs.
use walastack_rs.Base.{
  ℕ, ◌<◌, ◌≡◌, true, false, some, arith, nat_keys, string_keys, is_some, lookup, lookup-insert,
  lookup-insert_self, lookup-remove, u64_max,
}
use walastack_rs.Scheduler.Registry.{
  Registry, spawn_task, list_task, finish_task, cancel_task, Work, spawns, lists, finishes, cancels,
  Works, here, next,
}

-- The schedule is listed, though its task has ended and its call of `schedule` has returned.
pub record Leaked (id : ℕ) (s : Registry) : Type 0 where
  pub known : id < s.next_id
  pub ended : lookup id s.running ≡ some false
  pub returned : lookup id s.pending ≡ some false
  pub counted : is_some (lookup id s.tasks) ≡ true

Work-Leaked : (id : ℕ) {s u : Registry} → Work s u → Leaked id s → Leaked id u
unfolding spawn_task list_task finish_task cancel_task
Work-Leaked id {s} (spawns h) k = record {
  known = ground (arith, k.known);
  ended = ground (arith, lookup-insert s.next_id id true s.running, k.known, k.ended);
  returned = ground (arith, lookup-insert s.next_id id true s.pending, k.known, k.returned);
  counted = k.counted;
}
Work-Leaked id {s} (lists j h) k = record {
  known = k.known;
  ended = k.ended;
  returned = ground (arith, lookup-insert j id false s.pending, k.returned);
  counted = ground (arith, lookup-insert j id (record { cancel = j; join = j }) s.tasks, k.counted);
}
Work-Leaked id {s} (finishes j h) k = record {
  known = k.known;
  ended = ground (arith, lookup-insert j id false s.running, k.ended);
  returned = k.returned;
  counted = ground (arith, lookup-remove j id s.tasks, k.counted, k.ended);
}
Work-Leaked id {s} (cancels j h) k = record {
  known = k.known;
  ended = k.ended;
  returned = k.returned;
  counted = k.counted;
}

Works-Leaked : (id : ℕ) {s u : Registry} → Works s u → Leaked id s → Leaked id u
Works-Leaked id here k = k
Works-Leaked id (next r st) k = Work-Leaked id st (Works-Leaked id r k)

-- The state in which the next task ended between its spawn and its listing.
abbrev pub raced : Registry → Registry
raced s = list_task s.next_id (finish_task s.next_id (spawn_task s))

raced-Works : (s : Registry) → s.next_id < u64_max → Works s (raced s)
unfolding list_task finish_task spawn_task
raced-Works s h =
    next
      (next (next here (spawns h))
        (finishes s.next_id (lookup-insert_self s.next_id true s.running)))
      (lists s.next_id (lookup-insert_self s.next_id true s.pending))

raced-Leaked : (s : Registry) → s.next_id < u64_max → Leaked s.next_id (raced s)
unfolding list_task finish_task spawn_task
raced-Leaked s h = record {
  known = omega arith;
  ended = lookup-insert_self s.next_id false _;
  returned = lookup-insert_self s.next_id false _;
  counted = rw (lookup-insert_self s.next_id);
}

-- The race: in every state with a number left a task can end before its call of `schedule` lists
-- it, and then the registry holds an entry with no task behind it, which every further step but a
-- shutdown keeps. So `pending_count` counts a schedule that is not active.
pub schedule_leaks :
    (s u : Registry)
    → s.next_id < u64_max
    → Works (raced s) u
    → Works s (raced s) × Leaked s.next_id u
schedule_leaks s u h r = (raced-Works s h, Works-Leaked s.next_id r (raced-Leaked s h))
