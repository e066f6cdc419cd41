-- ===== src/Events/Channels.antt =====
-- One channel for each type of event, in crates/walastack-runtime/src/events.rs.
use walastack_rs.Base.{
  ℕ, ◌≡◌, some, List, [], ◌∷◌, arith, nat_eq_iff, nat_keys, string_keys, lookup-insert,
  lookup-insert_self,
}
use walastack_rs.Events.{EventBus, broadcast_fast, broadcast_slow, work_fast, work_slow}

-- The slow paths that threads take, of any types and of both kinds, in the order of the write lock.
pub data SlowPath : Type 0 where
  broadcasts : (type_id : ℕ) → SlowPath
  works : (type_id : ℕ) → SlowPath

abbrev pub take_path : SlowPath → EventBus → EventBus
take_path (broadcasts ty) bus = (broadcast_slow ty bus).1
take_path (works ty) bus = (work_slow ty bus).1

abbrev pub take_paths : List SlowPath → EventBus → EventBus
take_paths [] bus = bus
take_paths (p ∷ ps) bus = take_paths ps (take_path p bus)

broadcast-stable :
    (ty channel : ℕ) (p : SlowPath) (bus : EventBus)
    → broadcast_fast ty bus ≡ some channel
    → broadcast_fast ty (take_path p bus) ≡ some channel
unfolding broadcast_fast broadcast_slow work_slow
broadcast-stable ty channel (broadcasts other) bus h =
    ground
      (arith, lookup-insert other ty bus.next_channel bus.broadcast_channels, nat_eq_iff other ty)
broadcast-stable ty channel (works other) bus h = ground arith

work-stable :
    (ty channel : ℕ) (p : SlowPath) (bus : EventBus)
    → work_fast ty bus ≡ some channel
    → work_fast ty (take_path p bus) ≡ some channel
unfolding work_fast broadcast_slow work_slow
work-stable ty channel (broadcasts other) bus h = ground arith
work-stable ty channel (works other) bus h =
    ground (arith, lookup-insert other ty bus.next_channel bus.work_channels, nat_eq_iff other ty)

pub broadcasts-stable :
    (ty channel : ℕ) (ps : List SlowPath) (bus : EventBus)
    → broadcast_fast ty bus ≡ some channel
    → broadcast_fast ty (take_paths ps bus) ≡ some channel
broadcasts-stable ty channel [] bus h = h
broadcasts-stable ty channel (p ∷ ps) bus h =
    broadcasts-stable ty channel ps (take_path p bus) (broadcast-stable ty channel p bus h)

works-stable :
    (ty channel : ℕ) (ps : List SlowPath) (bus : EventBus)
    → work_fast ty bus ≡ some channel
    → work_fast ty (take_paths ps bus) ≡ some channel
works-stable ty channel [] bus h = h
works-stable ty channel (p ∷ ps) bus h =
    works-stable ty channel ps (take_path p bus) (work-stable ty channel p bus h)

pub broadcast_made :
    (ty : ℕ) (bus : EventBus)
    → broadcast_fast ty (broadcast_slow ty bus).1 ≡ some (broadcast_slow ty bus).0
unfolding broadcast_fast broadcast_slow
broadcast_made ty bus =
    ground (arith, lookup-insert_self ty bus.next_channel bus.broadcast_channels)

work_made :
    (ty : ℕ) (bus : EventBus) → work_fast ty (work_slow ty bus).1 ≡ some (work_slow ty bus).0
unfolding work_fast work_slow
work_made ty bus = ground (arith, lookup-insert_self ty bus.next_channel bus.work_channels)

broadcast_again :
    (ty channel : ℕ) (bus : EventBus)
    → broadcast_fast ty bus ≡ some channel
    → (broadcast_slow ty bus).0 ≡ channel
unfolding broadcast_fast broadcast_slow
broadcast_again ty channel bus h = ground arith

work_again :
    (ty channel : ℕ) (bus : EventBus)
    → work_fast ty bus ≡ some channel
    → (work_slow ty bus).0 ≡ channel
unfolding work_fast work_slow
work_again ty channel bus h = ground arith

-- All handles of a type share one channel, also where several threads miss it under the read lock:
-- what one slow path returns is what every later fast or slow path of the type returns, whatever
-- slow paths come between. So it is for broadcast and for work channels.
pub one_channel :
    (ty : ℕ) (ps : List SlowPath) (bus : EventBus)
    → let (sender, bus₁) = broadcast_slow ty bus in
      let (worker, bus₂) = work_slow ty bus in
      (broadcast_fast ty (take_paths ps bus₁) ≡ some sender)
      × ((broadcast_slow ty (take_paths ps bus₁)).0 ≡ sender)
      × (work_fast ty (take_paths ps bus₂) ≡ some worker)
      × ((work_slow ty (take_paths ps bus₂)).0 ≡ worker)
one_channel ty ps bus =
    let b = broadcasts-stable ty _ ps _ (broadcast_made ty bus) in
    let w = works-stable ty _ ps _ (work_made ty bus) in
    (b, broadcast_again ty _ _ b, w, work_again ty _ _ w)
