-- ===== src/Feed/Tests.antt =====
-- A concrete frame for the theorem on the pump's writer.
use quicrtc.Prelude.{ℕ, List, true, [], ◌∷◌, refl, arith, Sink}
use quicrtc.Wire.{flag_keyframe, type_keyframe}
use quicrtc.Wire.Feed.RoundTrip.{Delivers}
use quicrtc.Feed.{write_frame}
use quicrtc.Feed.Laws.{pump_frame, write_frame-Delivers}

abbrev sink : Sink
sink = record { out = []; faults = [] }

abbrev payload : List ℕ
payload = 7 ∷ 8 ∷ 9 ∷ []

write_frame-Delivers_example :
    Delivers sink
      (write_frame true sink type_keyframe 90000 7 flag_keyframe 123456 payload)
      (pump_frame type_keyframe 90000 7 flag_keyframe 123456 payload)
      (5 ∷ [])
write_frame-Delivers_example =
    write_frame-Delivers true sink type_keyframe 90000 7 flag_keyframe 123456 payload (5 ∷ [])
      (omega arith) (omega arith) (omega arith) (omega arith) refl
