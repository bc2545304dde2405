-- ===== src/Track/Tests.antt =====
-- The defaults of track/track.go, kind by kind.
use quicrtc.Prelude.{ℕ, ◌≡◌, refl, List, [], ◌∷◌, map}
use quicrtc.Track.{
  kind_video, kind_audio, kind_tokens, kind_tool_calls, kind_telemetry, default_priority,
  DeliveryClass, default_delivery_class,
}

abbrev kinds : List (List ℕ)
kinds =
    kind_video ∷ kind_audio ∷ kind_tokens ∷ kind_tool_calls ∷ kind_telemetry ∷ (120 ∷ []) ∷ [] ∷ []

priorities : map default_priority kinds ≡ 4 ∷ 0 ∷ 2 ∷ 2 ∷ 7 ∷ 4 ∷ 4 ∷ []
unfolding default_priority
priorities = refl

classes :
    map default_delivery_class kinds
    ≡ DeliveryClass.stream_gop ∷ DeliveryClass.stream_low_latency ∷ DeliveryClass.stream_low_latency
      ∷ DeliveryClass.bidi_per_call ∷ DeliveryClass.datagram_or_stream ∷ DeliveryClass.stream_gop
      ∷ DeliveryClass.stream_gop ∷ []
unfolding default_delivery_class
classes = refl
