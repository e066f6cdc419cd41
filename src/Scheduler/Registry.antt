-- ===== src/Scheduler/Registry.antt =====
-- crates/walastack-runtime/src/scheduler.rs: `Scheduler`, its registry of active schedules and the
-- handles. `schedule` spawns the task and then locks the registry to list it, and the task, when
-- it ends, locks the registry to take itself out: these are separate steps of a relation, in any
-- order that the threads allow.
pub mod Laws
pub mod Leaks
use walastack_rs.Base.{
  ℕ, ◌+◌, ◌%◌, ◌<◌, ◌≡◌, Bool, true, false, some, List, [], ◌∷◌, nat_keys, string_keys, length,
  unwrap_or, lookup, insert, remove, u64_max,
}

-- The cancel channel and the task of a schedule go by the schedule's number.
pub record TaskState : Type 0 where
  pub cancel : ℕ
  pub join : ℕ

pub record Registry : Type 0 where
  pub next_id : ℕ  -- AtomicU64
  pub tasks : List (ℕ × TaskState)
  pub cancelled : List (ℕ × Bool)  -- the values of the cancel channels
  pub running : List (ℕ × Bool)  -- the spawned tasks: true until they end or are aborted
  pub pending : List (ℕ × Bool)  -- the calls of `schedule`: true until they have listed the task

unfoldable pub new_scheduler : Registry
new_scheduler = record { next_id = 1; tasks = []; cancelled = []; running = []; pending = [] }

-- `schedule` up to the spawn.
unfoldable pub spawn_task : Registry → Registry
spawn_task s = record s {
  next_id = (s.next_id + 1) % 18446744073709551616;
  cancelled = insert s.next_id false s.cancelled;
  running = insert s.next_id true s.running;
  pending = insert s.next_id true s.pending;
}

-- The rest of `schedule`, which lists the task.
unfoldable pub list_task : ℕ → Registry → Registry
list_task id s = record s {
  tasks = insert id (record { cancel = id; join = id }) s.tasks;
  pending = insert id false s.pending;
}

-- The end of the spawned task, which removes itself.
unfoldable pub finish_task : ℕ → Registry → Registry
finish_task id s = record s { running = insert id false s.running; tasks = remove id s.tasks }

-- `ScheduleHandle::cancel` and `is_cancelled`.
unfoldable pub cancel_task : ℕ → Registry → Registry
cancel_task id s = record s { cancelled = insert id true s.cancelled }

unfoldable pub is_cancelled : ℕ → Registry → Bool
is_cancelled id s = unwrap_or (lookup id s.cancelled) false

-- `shutdown`: every listed schedule is cancelled and its task aborted.
unfoldable pub cancel_all : List (ℕ × TaskState) → List (ℕ × Bool) → List (ℕ × Bool)
cancel_all [] m = m
cancel_all ((_, t) ∷ ts) m = cancel_all ts (insert t.cancel true m)

unfoldable pub abort_all : List (ℕ × TaskState) → List (ℕ × Bool) → List (ℕ × Bool)
abort_all [] m = m
abort_all ((_, t) ∷ ts) m = abort_all ts (insert t.join false m)

unfoldable pub shutdown : Registry → Registry
shutdown s = record s {
  cancelled = cancel_all s.tasks s.cancelled;
  running = abort_all s.tasks s.running;
  tasks = [];
}

unfoldable pub pending_count : Registry → ℕ
pending_count s = length s.tasks

-- One step of some thread, but for a shutdown. The counter is 64 bits wide and is taken not to
-- wrap.
pub data Work (s : Registry) : Registry → Type 0 where
  spawns : s.next_id < u64_max → Work s (spawn_task s)
  lists : (id : ℕ) → lookup id s.pending ≡ some true → Work s (list_task id s)
  finishes : (id : ℕ) → lookup id s.running ≡ some true → Work s (finish_task id s)
  cancels : (id : ℕ) → id < s.next_id → Work s (cancel_task id s)

pub data Works (s : Registry) : Registry → Type 0 where
  here : Works s s
  next : {t u : Registry} → Works s t → Work t u → Works s u

-- The states that some interleaving leads to.
pub data Reach (s : Registry) : Registry → Type 0 where
  start : Reach s s
  work : {t u : Registry} → Reach s t → Work t u → Reach s u
  shut : {t : Registry} → Reach s t → Reach s (shutdown t)
