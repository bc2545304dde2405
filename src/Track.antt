-- ===== src/Track.antt =====
-- Kinds, priorities and delivery classes: track/track.go. A kind is a string.
mod Tests
use quicrtc.Prelude.{ℕ, List, Bool, true, false, ◌||◌, if◌then◌else◌, [], ◌∷◌, Text, same_text}

abbrev pub kind_video : Text
kind_video = 118 ∷ 105 ∷ 100 ∷ 101 ∷ 111 ∷ []

abbrev pub kind_audio : Text
kind_audio = 97 ∷ 117 ∷ 100 ∷ 105 ∷ 111 ∷ []

abbrev pub kind_tokens : Text
kind_tokens = 116 ∷ 111 ∷ 107 ∷ 101 ∷ 110 ∷ 115 ∷ []

abbrev pub kind_tool_calls : Text
kind_tool_calls = 116 ∷ 111 ∷ 111 ∷ 108 ∷ 99 ∷ 97 ∷ 108 ∷ 108 ∷ 115 ∷ []

abbrev pub kind_telemetry : Text
kind_telemetry = 116 ∷ 101 ∷ 108 ∷ 101 ∷ 109 ∷ 101 ∷ 116 ∷ 114 ∷ 121 ∷ []

abbrev pub priority_critical : ℕ
priority_critical = 0

abbrev pub priority_high : ℕ
priority_high = 2

abbrev pub priority_normal : ℕ
priority_normal = 4

abbrev pub priority_background : ℕ
priority_background = 7

pub data DeliveryClass : Type 0 where
  stream_gop stream_low_latency bidi_per_call datagram_or_stream : DeliveryClass

-- DefaultPriority
unfoldable pub default_priority : Text → ℕ
default_priority k =
    if same_text k kind_audio
    then priority_critical
    else if same_text k kind_tokens || same_text k kind_tool_calls
    then priority_high
    else if same_text k kind_video
    then priority_normal
    else if same_text k kind_telemetry
    then priority_background
    else priority_normal

-- DefaultDeliveryClass
unfoldable pub default_delivery_class : Text → DeliveryClass
default_delivery_class k =
    if same_text k kind_video
    then DeliveryClass.stream_gop
    else if same_text k kind_tokens || same_text k kind_audio
    then DeliveryClass.stream_low_latency
    else if same_text k kind_tool_calls
    then DeliveryClass.bidi_per_call
    else if same_text k kind_telemetry
    then DeliveryClass.datagram_or_stream
    else DeliveryClass.stream_gop
