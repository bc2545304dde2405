-- ===== src/Feed/Datagram/Fates.antt =====
-- A round of runDatagramOrStream (feed/datagram.go).
use quicrtc.Prelude.{
  ℕ, ◌^◌, ◌≤◌, ◌<◌, ◌≡◌, refl, sym, subst, ◌⊎◌, inl, inr, List, Bool, true, false, ltb,
  if◌then◌else◌, length, [], ◌∷◌, ◌++◌, ok, arith, List-cases,
}
use quicrtc.Pubsub.{AccessUnit}
use quicrtc.Wire.{max_datagram_payload}
use quicrtc.Wire.Datagram.{decode_datagram}
use quicrtc.Wire.Datagram.Laws.{datagram, datagram_round_trip}
use quicrtc.Feed.LowLatency.Laws.{Seen}
use quicrtc.Feed.Datagram.{
  SpillReason, DatagramConfig, Datagrams, fallback_or_drop, send_datagram, advance, send_or_spill,
}
use quicrtc.Feed.Datagram.Laws.{Fallback, Handled, fallback_or_drop_lem}

-- Why a unit is not sent as a datagram.
abbrev pub why_not : AccessUnit → SpillReason
why_not au =
    if ltb max_datagram_payload (length au.bytes)
    then SpillReason.datagram_too_large
    else SpillReason.send_failed

-- The unit went as a datagram that DecodeDatagram reads.
pub record Carried (c : DatagramConfig) (au : AccessUnit) (g g' : Datagrams) : Type 0 where
  pub bytes : List ℕ
  pub taken : g'.sent ≡ g.sent ++ bytes ∷ []
  pub readable : decode_datagram bytes ≡ ok (c.track_id, g.seq, au.bytes)
  pub small : length au.bytes ≤ max_datagram_payload
  pub no_drop : g'.dropped ≡ g.dropped
  pub no_spill : g'.spilled ≡ g.spilled
  pub same_stream : g'.fallback_stream ≡ g.fallback_stream

-- What became of the unit before the number was advanced.
abbrev pub Outcome : DatagramConfig → Seen → AccessUnit × ℕ → Datagrams → Datagrams → Type 0
Outcome c units x g h = Carried c x.0 g h ⊎ Handled c units x (why_not x.0) g h

pub record Round (c : DatagramConfig) (units : Seen) (x : AccessUnit × ℕ) (g g' : Datagrams)
    : Type 0 where
  pub h : Datagrams
  pub same_seq : h.seq ≡ g.seq
  pub advanced : g' ≡ advance h
  pub outcome : Outcome c units x g h

Handled-seq :
    (c : DatagramConfig) (units : Seen) (x : AccessUnit × ℕ) (why : SpillReason) (g h : Datagrams)
    → Handled c units x why g h
    → h.seq ≡ g.seq
Handled-seq c units x why g h (inl (d, s)) = d.quiet.same_seq
Handled-seq c units x why g h (inr s) = s.quiet.same_seq

-- The sender's answer.
send_datagram_lem :
    (b : List ℕ) (g : Datagrams)
    → (((send_datagram b g).1 ≡ true)
        × ((r : List Bool) × ((send_datagram b g).0 ≡ record g { refusals = r })))
      ⊎ (((send_datagram b g).1 ≡ false)
          × ((r : List Bool) × ((send_datagram b g).0
                ≡ record g { refusals = r; sent = g.sent ++ b ∷ [] })))
unfolding send_datagram
send_datagram_lem b g = elim (List-cases g.refusals) [
  | inl e ↦ inr (ground (arith, e), ([], ground (arith, e)))
  | inr (true, rs, e) ↦ inl (ground (arith, e), (rs, ground (arith, e)))
  | inr (false, rs, e) ↦ inr (ground (arith, e), (rs, ground (arith, e)))
]

-- A change of what is left of the sender's answers is not seen.
Handled-refusals :
    (c : DatagramConfig) (units : Seen) (x : AccessUnit × ℕ) (why : SpillReason) (g h : Datagrams)
    (r : List Bool)
    → Handled c units x why (record g { refusals = r }) h
    → Handled c units x why g h
Handled-refusals c units x why g h r (inl (d, s)) = inl (
  record {
    quiet = record { same_seq = d.quiet.same_seq; same_sent = d.quiet.same_sent };
    reason = d.reason;
    explained = d.explained;
    reported = d.reported;
    no_spill = d.no_spill;
  },
  s,
)
Handled-refusals c units x why g h r (inr s) = inr record {
  quiet = record { same_seq = s.quiet.same_seq; same_sent = s.quiet.same_sent };
  w = s.w;
  there = s.there;
  ends = s.ends;
  reported = s.reported;
  no_drop = s.no_drop;
}

pub send_or_spill-Round :
    (c : DatagramConfig) (units : Seen) (x : AccessUnit × ℕ) (g : Datagrams)
    → g.seq < 2 ^ 16
    → Fallback c.feed units g
    → Round c units x g (send_or_spill c x.1 x.0 g)
unfolding send_or_spill
send_or_spill-Round c units x g fits f =
    let (readable, encoded) = datagram_round_trip [] c.track_id g.seq x.0.bytes fits in
    elim encoded [
      | inr (big, e) ↦
          let why : why_not x.0 ≡ SpillReason.datagram_too_large = ground (arith, big) in
          let h = fallback_or_drop_lem c units x SpillReason.datagram_too_large g f in
          let eq : send_or_spill c x.1 x.0 g
              ≡ advance (fallback_or_drop c x.1 x.0 SpillReason.datagram_too_large g) =
            ground (arith, e) in
          subst (Round c units x g) (sym eq) record {
            h = fallback_or_drop c x.1 x.0 SpillReason.datagram_too_large g;
            same_seq = Handled-seq c units x _ g _ h;
            advanced = refl;
            outcome = inr (rw why h);
          }
      | inl (small, e) ↦
          let b = datagram c.track_id g.seq x.0.bytes in
          elim (send_datagram_lem b g) [
            | inl (refused, (r, s)) ↦
                let why : why_not x.0 ≡ SpillReason.send_failed = ground (arith, small) in
                let g₁ : Datagrams = record g { refusals = r } in
                let h =
                  Handled-refusals c units x SpillReason.send_failed g _ r
                    (fallback_or_drop_lem c units x SpillReason.send_failed g₁ f) in
                let eq : send_or_spill c x.1 x.0 g
                    ≡ advance (fallback_or_drop c x.1 x.0 SpillReason.send_failed g₁) =
                  ground (arith, e, refused, s) in
                subst (Round c units x g) (sym eq) record {
                  h = fallback_or_drop c x.1 x.0 SpillReason.send_failed g₁;
                  same_seq = Handled-seq c units x _ g _ h;
                  advanced = refl;
                  outcome = inr (rw why h);
                }
            | inr (accepted, (r, s)) ↦
                let g₁ : Datagrams = record g { refusals = r; sent = g.sent ++ b ∷ [] } in
                let eq : send_or_spill c x.1 x.0 g ≡ advance g₁ = ground (arith, e, accepted, s) in
                subst (Round c units x g) (sym eq) record {
                  h = g₁;
                  same_seq = refl;
                  advanced = refl;
                  outcome = inl record {
                    bytes = b;
                    taken = refl;
                    readable = readable;
                    small = small;
                    no_drop = refl;
                    no_spill = refl;
                    same_stream = refl;
                  };
                }
          ]
    ]
