-- ===== src/Events.antt =====
-- crates/walastack-runtime/src/events.rs: the channels of `EventBus` and its shutdown. The content
-- of a channel is tokio's and async-channel's: their answers are arguments, and the bus keeps what
-- was sent.
pub mod Channels
pub mod Shutdown
pub mod Receivers
pub mod Examples
use walastack_rs.Base.{
  ℕ, ◌+◌, Bool, true, false, Option, none, some, List, [], ◌∷◌, if◌then◌else◌, nat_keys,
  string_keys, map_or, lookup, insert, Result, ok, err,
}

-- A `TypeId` and a channel go by a number.
pub record EventBus : Type 0 where
  pub broadcast_capacity : ℕ
  pub work_capacity : ℕ
  pub broadcast_channels : List (ℕ × ℕ)
  pub work_channels : List (ℕ × ℕ)
  pub shut_down : Bool  -- the watched value
  pub next_channel : ℕ  -- how many channels were made
  pub sent : List (ℕ × ℕ)  -- the channel and the type of each event sent, the newest first

-- The `TypeId` of `RuntimeStopping`.
abbrev pub runtime_stopping : ℕ
runtime_stopping = 0

unfoldable pub with_capacity : (broadcast_capacity work_capacity : ℕ) → EventBus
with_capacity broadcast_capacity work_capacity = record {
  broadcast_capacity = broadcast_capacity;
  work_capacity = work_capacity;
  broadcast_channels = [];
  work_channels = [];
  shut_down = false;
  next_channel = 0;
  sent = [];
}

-- DEFAULT_BROADCAST_CAPACITY and DEFAULT_WORK_CAPACITY.
unfoldable pub new_bus : EventBus
unfolding with_capacity
new_bus = with_capacity 256 1024

-- `broadcast_sender` under the read lock, and its slow path under the write lock, which looks again
-- before it makes a channel.
unfoldable pub broadcast_fast : (type_id : ℕ) → EventBus → Option ℕ
broadcast_fast ty bus = lookup ty bus.broadcast_channels

unfoldable pub broadcast_slow : (type_id : ℕ) → EventBus → ℕ × EventBus
broadcast_slow ty bus = elim (lookup ty bus.broadcast_channels) [
  | some channel ↦ (channel, bus)
  | none ↦ (
    bus.next_channel,
    record bus {
      broadcast_channels = insert ty bus.next_channel bus.broadcast_channels;
      next_channel = bus.next_channel + 1;
    },
  )
]

-- The two paths with nothing between them.
unfoldable pub broadcast_sender : (type_id : ℕ) → EventBus → ℕ × EventBus
unfolding broadcast_fast broadcast_slow
broadcast_sender ty bus = elim (broadcast_fast ty bus) [
  | some channel ↦ (channel, bus)
  | none ↦ broadcast_slow ty bus
]

-- `work_channel`, in the same two steps.
unfoldable pub work_fast : (type_id : ℕ) → EventBus → Option ℕ
work_fast ty bus = lookup ty bus.work_channels

unfoldable pub work_slow : (type_id : ℕ) → EventBus → ℕ × EventBus
work_slow ty bus = elim (lookup ty bus.work_channels) [
  | some channel ↦ (channel, bus)
  | none ↦ (
    bus.next_channel,
    record bus {
      work_channels = insert ty bus.next_channel bus.work_channels;
      next_channel = bus.next_channel + 1;
    },
  )
]

unfoldable pub work_channel : (type_id : ℕ) → EventBus → ℕ × EventBus
unfolding work_fast work_slow
work_channel ty bus = elim (work_fast ty bus) [
  | some channel ↦ (channel, bus)
  | none ↦ work_slow ty bus
]

pub data PublishOutcome : Type 0 where
  delivered : ℕ → PublishOutcome
  no_subscribers : PublishOutcome

-- `publish`; `answer` is tokio's: the number of receivers, or none where the send fails.
unfoldable pub publish : (type_id : ℕ) → (answer : Option ℕ) → EventBus → PublishOutcome × EventBus
unfolding broadcast_sender
publish ty answer bus =
    let (channel, bus') = broadcast_sender ty bus in
    (map_or no_subscribers delivered answer, record bus' { sent = (channel, ty) ∷ bus'.sent })

pub data EnqueueErrorKind : Type 0 where
  full closed : EnqueueErrorKind

-- What async-channel answers to `send` (never `refused_full`) and to `try_send`.
pub data Sending : Type 0 where
  taken refused_full refused_closed : Sending

unfoldable pub enqueue_result : Sending → Result (Unit {0}) EnqueueErrorKind
enqueue_result taken = ok tt
enqueue_result refused_full = err full
enqueue_result refused_closed = err closed

-- `enqueue` and `try_enqueue`; a refused event comes back in the error.
unfoldable pub enqueue :
    (type_id : ℕ) → Sending → EventBus → Result (Unit {0}) EnqueueErrorKind × EventBus
unfolding work_channel enqueue_result
enqueue ty answer bus =
    let (channel, bus') = work_channel ty bus in
    (
      enqueue_result answer,
      elim answer [ taken ↦ record bus' { sent = (channel, ty) ∷ bus'.sent } | _ ↦ bus' ],
    )

-- The second half of `shutdown`, after the flag was read as false.
unfoldable pub flip_and_publish : (answer : Option ℕ) → EventBus → EventBus
unfolding publish
flip_and_publish answer bus = (publish runtime_stopping answer (record bus { shut_down = true })).1

unfoldable pub shutdown : (answer : Option ℕ) → EventBus → EventBus
unfolding flip_and_publish
shutdown answer bus = if bus.shut_down then bus else flip_and_publish answer bus
