-- ===== src/Feed/LowLatency/Tests.antt =====
-- A run of the low-latency pump: three units on a stream that takes them.
use quicrtc.Prelude.{ℕ, List, true, false, Option, some, none, [], ◌∷◌}
use quicrtc.Pubsub.{AccessUnit, zero_au}
use quicrtc.Feed.Gop.{Config}
use quicrtc.Feed.LowLatency.{run_stream_low_latency, send_unit, start}
use quicrtc.Feed.LowLatency.Laws.{Seen, Sent, run_stream_low_latency-Sent}

abbrev config : Config
config = record {
  track_name = 116 ∷ [];
  scheduled = true;
  allow_leading_p_frames = false;
  stamp_publish_wall = true;
}

abbrev unit : ℕ → AccessUnit × ℕ
unit seq = (record zero_au { bytes = seq ∷ []; seq = seq }, 1000)

abbrev seen : Seen
seen = unit 1 ∷ unit 2 ∷ []

abbrev opens : List (Option (List (Option ℕ)))
opens = none ∷ some [] ∷ []

run_stream_low_latency-Sent_example :
    let g = run_stream_low_latency config seen (start config opens) in
    Sent config seen (unit 3) g (send_unit config 1000 (unit 3).0 g)
run_stream_low_latency-Sent_example = run_stream_low_latency-Sent config opens seen (unit 3)
