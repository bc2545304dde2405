-- ===== src/Pubsub/Broadcaster/Tests.antt =====
-- A concrete broadcaster and its receivers for the theorems on them.
use quicrtc.Prelude.{
  ℕ, List, Bool, true, false, some, none, ◌≡◌, refl, ◌⊎◌, inl, inr, ◌+◌, max, [], ◌∷◌, arith, All,
  pos,
}
use quicrtc.Pubsub.{AccessUnit, zero_au}
use quicrtc.Pubsub.Receiver.{Receiver, ◌>>=◌, shut_receiver, close_chan}
use quicrtc.Pubsub.Receiver.Laws.{IsValid}
use quicrtc.Pubsub.Broadcaster.{
  Interceptor, Broadcaster, State, subscribe_with_capacity, present, unsubscribe, shut_at, close,
  add_interceptor, remove_interceptor, run_chain, admit, over_cap, publish, delete,
}
use quicrtc.Pubsub.Broadcaster.Sound.{IsSound, Untouched}
use quicrtc.Pubsub.Broadcaster.Fanout.{Published, publish_lem}
use quicrtc.Pubsub.Broadcaster.Membership.{Subscribed, subscribe_with_capacity_lem}
use quicrtc.Pubsub.Broadcaster.Removal.{Shut, Unsubscribed, unsubscribe_lem, close_lem}
use quicrtc.Pubsub.Broadcaster.Chain.{
  HasIds, TakenOut, IsDropped, IsAdmitted, add_interceptors, remove-add_interceptor,
}
use quicrtc.Pubsub.Broadcaster.Interleaving.{
  shut, System, unsubscribe_locked, publish_locked, publish_step, run, Step, unsubscribe_step,
  run_step, Steps, done, next,
}
use quicrtc.Pubsub.Broadcaster.Interleaving.Safety.{at_rest, run-never_panics}
use quicrtc.Pubsub.Broadcaster.Interleaving.Closed.{StaysClosed, closed-StaysClosed}

abbrev key_unit : AccessUnit
key_unit = record zero_au { bytes = 9 ∷ []; seq = 9; keyframe = true }

abbrev receiver : List AccessUnit → Bool → Receiver
receiver queue need = record {
  ch = record { queue = queue; cap = 2; shut = false };
  closed = false;
  need_keyframe = need;
}

-- Renumbers what it sees.
abbrev renumber : Interceptor
renumber u = some (record u { seq = u.seq + 1 })

abbrev bc : Broadcaster
bc = record {
  receivers = 1 ∷ 0 ∷ [];
  latest_keyframe = some key_unit;
  chan_size = 2;
  max_au_bytes = pos 4;
  self_contained = false;
  replay = record { buf = key_unit ∷ []; head = 0; cap = 2; bytes = 1; max_bytes = 8 };
  interceptors = renumber ∷ [];
  next_interceptor_id = 1;
  interceptor_ids = 1 ∷ [];
}

abbrev state : State
state = record { bc = bc; heap = receiver (key_unit ∷ []) false ∷ receiver [] true ∷ [] }

state-IsSound : IsSound state
state-IsSound = record {
  receivers_valid = (
    record { flagged = refl; room = omega arith; bounded = omega arith },
    (record { flagged = refl; room = omega arith; bounded = omega arith }, tt),
  );
  registered_open =
      ((receiver [] true, refl, refl), ((receiver (key_unit ∷ []) false, refl, refl), tt));
  registered_once = ((λ h. absurd (omega arith), tt), (tt, tt));
  room = omega arith;
  ring = record {
    valid = record { slots = omega arith; unwrapped = inr refl; inside = inl refl; counted = refl };
    budget = inr (inl (omega arith));
  };
}

publish_lem_example :
    ((admit bc key_unit ≡ none) × IsDropped key_unit bc × (publish key_unit state ≡ some state))
    ⊎ ((au' : AccessUnit) × (s' : State) × (admit bc key_unit ≡ some au')
        × IsAdmitted key_unit au' bc
        × (publish key_unit state ≡ some s')
        × Published au' state s')
publish_lem_example = publish_lem key_unit state-IsSound

subscribe_with_capacity_lem_example :
    (s' : State) × (p : ℕ) × (subscribe_with_capacity (pos 7) state ≡ some (s', p))
    × Subscribed state (max 7 2) s' p
subscribe_with_capacity_lem_example = subscribe_with_capacity_lem (pos 7) state-IsSound

unsubscribe_lem_example :
    ((present 1 bc.receivers ≡ false) × (unsubscribe 1 state ≡ some state))
    ⊎ ((s' : State) × (present 1 bc.receivers ≡ true)
        × (unsubscribe 1 state ≡ some s')
        × Unsubscribed 1 state s')
unsubscribe_lem_example = unsubscribe_lem 1 state-IsSound

close_lem_example :
    (s' : State) × (close state ≡ some s')
    × IsSound s'
    × (s'.bc.receivers ≡ [])
    × All (Shut state.heap s'.heap) bc.receivers
    × Untouched bc.receivers state.heap s'.heap
    × (close s' ≡ some s')
close_lem_example = close_lem state-IsSound

bc-HasIds : HasIds bc
bc-HasIds = record { same_length = refl; given_out = (omega arith, tt); ascending = (tt, tt) }

remove-add_interceptor_example :
    HasIds (add_interceptor (some renumber) bc).0
    × (run_chain (add_interceptor (some renumber) bc).0.interceptors key_unit
        ≡ (run_chain bc.interceptors key_unit >>= renumber))
    × TakenOut 2
        (renumber ∷ [])
        bc
        (add_interceptors (renumber ∷ []) (add_interceptor (some renumber) bc).0)
        (remove_interceptor
          (add_interceptor (some renumber) bc).1
          (add_interceptors (renumber ∷ []) (add_interceptor (some renumber) bc).0))
remove-add_interceptor_example =
    remove-add_interceptor renumber (renumber ∷ []) key_unit bc-HasIds (omega arith)

renumbered : admit bc key_unit ≡ some (record key_unit { seq = 10 })
unfolding admit run_chain over_cap
renumbered = refl

-- Unsubscribe of the first receiver, up to its second lock.
abbrev half_way : System
half_way = record {
  state = record state { bc = record bc { receivers = 1 ∷ [] } };
  todo = shut 0 ∷ [];
}

to_half_way : Steps (at_rest state) half_way
unfolding unsubscribe_locked present delete
to_half_way = next (unsubscribe_step 0) done

run-never_panics_example :
    All IsValid state.heap × ((heap : List Receiver) × (run (shut 0) state.heap ≡ some heap))
run-never_panics_example = run-never_panics [] (shut 0) [] state-IsSound to_half_way refl

abbrev shut_first : Receiver
shut_first = record {
  ch = record { queue = key_unit ∷ []; cap = 2; shut = true };
  closed = true;
  need_keyframe = false;
}

abbrev unsubscribed : System
unsubscribed = record {
  state = record {
    bc = record bc { receivers = 1 ∷ [] };
    heap = shut_first ∷ receiver [] true ∷ [];
  };
  todo = [];
}

shut-Step : Step half_way unsubscribed
unfolding run shut_at shut_receiver close_chan
shut-Step = run_step [] (shut 0) [] refl refl

to_unsubscribed : Steps (at_rest state) unsubscribed
unfolding unsubscribe_locked present delete
to_unsubscribed = next (unsubscribe_step 0) (next shut-Step done)

closed-StaysClosed_example :
    StaysClosed 0 (key_unit ∷ []) (publish_locked key_unit unsubscribed).state.heap
closed-StaysClosed_example =
    closed-StaysClosed {r = shut_first} state-IsSound to_unsubscribed refl refl
      (next (publish_step key_unit) done)
