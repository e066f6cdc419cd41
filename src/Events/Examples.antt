-- ===== src/Events/Examples.antt =====
-- Runs of the model of crates/walastack-runtime/src/events.rs on small inputs.
use walastack_rs.Base.{◌≡◌, some, [], ◌∷◌, nat_keys, string_keys, lookup}
use walastack_rs.Events.{new_bus, broadcast_fast, broadcast_slow, work_fast, work_slow}
use walastack_rs.Events.Channels.{broadcasts, works, take_paths, one_channel}

one_channel_example :
    (broadcast_fast 7
        (take_paths (works 7 ∷ broadcasts 7 ∷ broadcasts 8 ∷ []) (broadcast_slow 7 new_bus).1)
      ≡ some 0)
    × ((broadcast_slow 7
          (take_paths (works 7 ∷ broadcasts 7 ∷ broadcasts 8 ∷ []) (broadcast_slow 7 new_bus).1)).0
        ≡ 0)
    × (work_fast 7 (take_paths (works 7 ∷ broadcasts 7 ∷ broadcasts 8 ∷ []) (work_slow 7 new_bus).1)
        ≡ some 0)
    × ((work_slow 7
          (take_paths (works 7 ∷ broadcasts 7 ∷ broadcasts 8 ∷ []) (work_slow 7 new_bus).1)).0
        ≡ 0)
unfolding new_bus broadcast_slow work_slow lookup
one_channel_example = one_channel 7 (works 7 ∷ broadcasts 7 ∷ broadcasts 8 ∷ []) new_bus
