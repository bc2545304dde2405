-- ===== src/Feed/Datagram/Tests.antt =====
-- A run of the datagram pump (feed/datagram.go) with a sender that refuses its second datagram.
use quicrtc.Prelude.{ℕ, List, Bool, true, false, Option, some, none, [], ◌∷◌, length}
use quicrtc.Pubsub.{AccessUnit, zero_au}
use quicrtc.Feed.LowLatency.Laws.{Seen}
use quicrtc.Feed.Datagram.{DatagramConfig, send_or_spill, datagram_loop, before_units}
use quicrtc.Feed.Datagram.Loop.{Fate, spilled_units, datagram_loop-Fate}

abbrev config : DatagramConfig
config = record {
  feed = record {
    track_name = 97 ∷ [];
    scheduled = false;
    allow_leading_p_frames = false;
    stamp_publish_wall = true;
  };
  track_id = 7;
  sender = true;
  fallback = true;
}

abbrev unit : ℕ → AccessUnit × ℕ
unit seq = (record zero_au { bytes = seq ∷ 9 ∷ []; seq = seq }, 500)

abbrev seen : Seen
seen = unit 1 ∷ unit 2 ∷ unit 3 ∷ []

abbrev opens : List (Option (List (Option ℕ)))
opens = none ∷ some [] ∷ []

abbrev refusals : List Bool
refusals = false ∷ true ∷ true ∷ []

datagram_loop-Fate_example :
    let g = datagram_loop config seen (before_units opens refusals) in
    Fate config
      (length seen)
      (spilled_units config seen (before_units opens refusals))
      (unit 4)
      g
      (send_or_spill config 500 (unit 4).0 g)
datagram_loop-Fate_example = datagram_loop-Fate config opens refusals seen (unit 4)
