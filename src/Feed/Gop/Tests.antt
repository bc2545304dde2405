-- ===== src/Feed/Gop/Tests.antt =====
-- A run of the per-GOP pump: a keyframe and two P-frames on a stream that takes them.
use quicrtc.Prelude.{ℕ, List, Bool, true, false, Option, some, [], ◌∷◌, ◌++◌}
use quicrtc.Pubsub.{AccessUnit, zero_au}
use quicrtc.Feed.Gop.{Config, run_stream_gop, send_au, started}
use quicrtc.Feed.Gop.Carried.{Seen, Sent, run_stream_gop-Sent}

abbrev config : Config
config = record {
  track_name = 118 ∷ [];
  scheduled = false;
  allow_leading_p_frames = false;
  stamp_publish_wall = true;
}

abbrev unit : ℕ → Bool → AccessUnit × ℕ
unit seq keyframe = (record zero_au { bytes = seq ∷ []; seq = seq; keyframe = keyframe }, 1000)

abbrev seen : Seen
seen = unit 1 true ∷ unit 2 false ∷ []

abbrev opens : List (Option (List (Option ℕ)))
opens = some [] ∷ []

run_stream_gop-Sent_example :
    let g = run_stream_gop config seen (started config opens) in
    Sent config (seen ++ unit 3 false ∷ []) g (send_au config 1000 (unit 3 false).0 g)
run_stream_gop-Sent_example = run_stream_gop-Sent config opens seen (unit 3 false)
