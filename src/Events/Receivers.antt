-- ===== src/Events/Receivers.antt =====
-- Subscribers, workers and the shutdown signal of crates/walastack-runtime/src/events.rs. What tokio and
-- async-channel answer to a receive is an argument.
use walastack_rs.Base.{
  ℕ, ◌≡◌, refl, inl, inr, Bool, true, false, Option, none, some, List, [], ◌∷◌, if◌then◌else◌,
  Option-cases, nat_keys, string_keys, codes_keys, Result, ok, err, map_err,
}
use walastack_rs.Events.{EventBus, broadcast_fast, broadcast_sender, work_channel, publish}
use walastack_rs.Events.Channels.{SlowPath, take_paths, broadcasts-stable, broadcast_made}

-- A `Subscriber` and a `Worker` go by their channel.
unfoldable pub subscribe : (type_id : ℕ) → EventBus → ℕ × EventBus
unfolding broadcast_sender
subscribe ty bus = broadcast_sender ty bus

-- `receivers` is the number of tokio's receivers on a channel.
unfoldable pub subscriber_count : (receivers : ℕ → ℕ) (type_id : ℕ) → EventBus → ℕ × EventBus
unfolding broadcast_sender
subscriber_count receivers ty bus =
    let (channel, bus') = broadcast_sender ty bus in (receivers channel, bus')

unfoldable pub worker : (type_id : ℕ) → EventBus → ℕ × EventBus
unfolding work_channel
worker ty bus = work_channel ty bus

pub data RecvError : Type 0 where
  bus_closed : RecvError
  lagged_behind : (skipped : ℕ) → RecvError

-- The errors of `broadcast::Receiver::recv`.
pub data BroadcastError : Type 0 where
  channel_closed : BroadcastError
  channel_lagged : (skipped : ℕ) → BroadcastError

unfoldable pub from_broadcast : BroadcastError → RecvError
from_broadcast channel_closed = bus_closed
from_broadcast (channel_lagged skipped) = lagged_behind skipped

-- `Subscriber::recv`, and `Worker::recv` and `try_recv`.
unfoldable pub subscriber_recv {ℓ} :
    {Event : Type ℓ} (answer : Result Event BroadcastError) → Result Event RecvError
unfolding from_broadcast
subscriber_recv answer = map_err from_broadcast answer

unfoldable pub worker_recv {ℓ κ} :
    {Event : Type ℓ} {Error : Type κ} (answer : Result Event Error) → Option Event
worker_recv (ok event) = some event
worker_recv (err _) = none

unfoldable pub is_shut_down : EventBus → Bool
is_shut_down bus = bus.shut_down

-- What a change of the watched value brings: the value, or the drop of its sender.
pub data Change : Type 0 where
  becomes : Bool → Change
  sender_dropped : Change

-- Whether `ShutdownSignal::wait` has returned after these changes.
unfoldable pub wait_for : List Change → Bool
wait_for [] = false
wait_for (becomes signaled ∷ changes) =
    let rest = wait_for changes in if signaled then true else rest
wait_for (sender_dropped ∷ _) = true

unfoldable pub wait : EventBus → List Change → Bool
unfolding wait_for is_shut_down
wait bus changes = if is_shut_down bus then true else wait_for changes

broadcast_sender-fast :
    (ty : ℕ) (bus : EventBus)
    → broadcast_fast ty (broadcast_sender ty bus).1 ≡ some (broadcast_sender ty bus).0
unfolding broadcast_sender
broadcast_sender-fast ty bus = elim (Option-cases (broadcast_fast ty bus)) [
  | inl e ↦ rw (e, broadcast_sender) (broadcast_made ty bus)
  | inr (channel, e) ↦ rw (e, broadcast_sender) e
]

publish-fast :
    (ty channel : ℕ) (answer : Option ℕ) (bus : EventBus)
    → broadcast_fast ty bus ≡ some channel
    → (publish ty answer bus).1.sent ≡ (channel, ty) ∷ bus.sent
unfolding publish broadcast_sender
publish-fast ty channel answer bus e = rw (e, publish, broadcast_sender) refl

-- An event is sent into the channel of every subscriber of its type, whichever channels were made in
-- between.
pub publish-subscribe :
    (ty : ℕ) (answer : Option ℕ) (bus : EventBus) (between : List SlowPath)
    → let (channel, bus') = subscribe ty bus in
      let later = take_paths between bus' in
      (publish ty answer later).1.sent ≡ (channel, ty) ∷ later.sent
unfolding subscribe
publish-subscribe ty answer bus between =
    publish-fast ty (subscribe ty bus).0 answer (take_paths between (subscribe ty bus).1) (
      broadcasts-stable ty (subscribe ty bus).0 between (subscribe ty bus).1
        (broadcast_sender-fast ty bus))
