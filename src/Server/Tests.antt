-- ===== src/Server/Tests.antt =====
-- A session of server/server.go that ends and is resumed: the client has the units up to 6, and the
-- ring has a keyframe, 5, and the units up to 8.
use quicrtc.Prelude.{
  ℕ, ◌≡◌, refl, List, Bool, true, false, Option, none, some, [], ◌∷◌, get_elem?, map, pos, Text,
  lookup, insert, delete,
}
use quicrtc.Track.{kind_video}
use quicrtc.Pubsub.{AccessUnit, zero_au}
use quicrtc.Pubsub.Replay.{Ring, snapshot, snapshot_loop}
use quicrtc.Pubsub.Replay.Valid
use quicrtc.Pubsub.Replay.Since.{
  insert_by_seq, sort_by_seq, min_seq, seq_at_least, since, replay_since,
}
use quicrtc.Pubsub.Receiver.{Receiver, try_send, close_chan, send_evicting, shut_receiver}
use quicrtc.Pubsub.Receiver.Splice.{put, put_all, merge, refill, splice_front}
use quicrtc.Pubsub.Broadcaster.{
  Broadcaster, new_broadcaster, new_broadcaster_with_bytes, send_blocking, first_receiver,
  subscribe_with_cap, subscribe_with_capacity, present, shut_at, unsubscribe,
}
use quicrtc.SessionStore.{
  Store, scoped_key, evict_entries, evict_expired, make_room, at_cap, park, resume,
}
use quicrtc.Session.{TrackPump, Session, receivers}
use quicrtc.Server.{
  TrackEntry, Server, on_broadcaster, from_broadcaster, track_entry, catch_up, catch_up_all,
  run_evictions, put_store, on_resume, unsubscribe_receivers, unsubscribe_all, subscribe_parked,
  end_session,
}

abbrev au : ℕ → Bool → AccessUnit
au seq keyframe = record zero_au { bytes = seq ∷ []; seq = seq; keyframe = keyframe }

abbrev ring : Ring
ring = record {
  buf = au 5 true ∷ au 6 false ∷ au 7 false ∷ au 8 false ∷ [];
  head = 0;
  cap = 256;
  bytes = 4;
  max_bytes = 67108864;
}

abbrev bc : List ℕ → Broadcaster
bc subscribed = record {
  receivers = subscribed;
  latest_keyframe = some (au 5 true);
  chan_size = 30;
  max_au_bytes = pos 0;
  self_contained = false;
  replay = ring;
  interceptors = [];
  next_interceptor_id = 0;
  interceptor_ids = [];
}

abbrev recv : ℕ → Bool → List AccessUnit → Receiver
recv cap shut queue = record {
  ch = record { queue = queue; cap = cap; shut = shut };
  closed = shut;
  need_keyframe = false;
}

abbrev id : Text
id = 7 ∷ []

abbrev te : TrackEntry
te = record { name = kind_video; kind = kind_video; priority = 4; track_id = 0; bc = 0 }

abbrev pump : TrackPump
pump = record {
  name = kind_video;
  recv = 0;
  priority = 4;
  track_id = 0;
  delivery = quicrtc.Track.DeliveryClass.stream_gop;
  allow_leading_p_frames = false;
  stamp_publish_wall = false;
}

abbrev sess : Session
sess = record {
  session_id = id;
  negotiated_features = [];
  negotiated_version = [];
  tenant = [];
  hello_session_id = [];
  hello_last_seen_seq = [];
  ctl = record { out = []; faults = [] };
  tracks = (kind_video, pump) ∷ [];
  run_started = true;
  resumed_leading = [];
  spawned = [];
  stopped = [];
  resume_calls = [];
}

abbrev store : Store
store = record { by_id = []; resume_ttl = 60; max_parked = pos 4; called = [] }

abbrev running : Server
running = record {
  tracks = (kind_video, te) ∷ [];
  bcs = bc (0 ∷ []) ∷ [];
  heap = recv 30 false [] ∷ [];
  store = store;
  evictions = [];
  draining = false;
}

abbrev recvs : List (Text × ℕ)
recvs = (kind_video, 1) ∷ []

-- The session is parked with a fresh receiver, which has the cached keyframe.
abbrev parked : Server
parked = record {
  tracks = (kind_video, te) ∷ [];
  bcs = bc (1 ∷ []) ∷ [];
  heap = recv 30 true [] ∷ recv 320 false (au 5 true ∷ []) ∷ [];
  store = record store {
    by_id =
        (
          scoped_key [] id,
          record { id = id; receivers = recvs; expires_at = 61; on_evict = some 0 },
        )
        ∷ [];
  };
  evictions = ((0, 1) ∷ []) ∷ [];
  draining = false;
}

ended : end_session 1 1 false sess running ≡ some parked
unfolding end_session subscribe_parked unsubscribe_all unsubscribe_receivers from_broadcaster
    on_broadcaster put_store run_evictions receivers subscribe_with_capacity subscribe_with_cap
    first_receiver send_blocking try_send present shut_at shut_receiver close_chan unsubscribe
    quicrtc.Pubsub.Broadcaster.delete park evict_expired evict_entries make_room at_cap insert
    lookup
ended = refl

queued : Option Receiver → List ℕ
queued none = []
queued (some r) = map (λ (x : AccessUnit). x.seq) r.ch.queue

resumed_queue : Option (Server × Option (List (Text × ℕ))) → List ℕ
resumed_queue none = []
resumed_queue (some (s, o)) = queued (get_elem? s.heap 1)

-- The cached keyframe comes first, although the client has it.
keyframe_repeated : resumed_queue (on_resume 2 [] id ((kind_video, 6) ∷ []) parked) ≡ 5 ∷ 7 ∷ 8 ∷ []
unfolding resumed_queue queued on_resume put_store run_evictions catch_up_all catch_up track_entry
    resume evict_expired evict_entries scoped_key lookup delete replay_since since min_seq
    seq_at_least sort_by_seq insert_by_seq snapshot snapshot_loop splice_front merge put_all put
    refill send_evicting try_send
keyframe_repeated = refl

abbrev resumed_store : Store
resumed_store = store
