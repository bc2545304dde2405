-- ===== src/Feed/Datagram/Loop.antt =====
-- The loop of runDatagramOrStream (feed/datagram.go).
use quicrtc.Prelude.{
  ℕ, suc, ◌+◌, ◌%◌, ◌^◌, ◌≡◌, refl, sym, ap, ◌∙◌, subst, ◌⊎◌, inl, inr, List, Bool, ◌==◌,
  if◌then◌else◌, length, length-append, [], ◌∷◌, ◌++◌, append-nil, append_assoc, Option, some, Sink,
  arith,
}
use quicrtc.Pubsub.{AccessUnit}
use quicrtc.Feed.LowLatency.Laws.{Seen, Ends, Ends-Holds}
use quicrtc.Feed.Datagram.{
  SpillReason, DatagramConfig, Datagrams, advance, send_or_spill, datagram_loop, before_units,
}
use quicrtc.Feed.Datagram.Laws.{Explained, Fallback}
use quicrtc.Feed.Datagram.Fates.{why_not, Carried, Outcome, send_or_spill-Round}

-- The units that OnFallback was called for, in a run of the loop.
abbrev pub spilled_units : DatagramConfig → Seen → Datagrams → Seen
spilled_units c [] g = []
spilled_units c (x ∷ xs) g =
    let g' = send_or_spill c x.1 x.0 g in
    (if length g'.spilled == length g.spilled then [] else x ∷ []) ++ spilled_units c xs g'

-- The state after these units, of which some were spilled.
record After (c : DatagramConfig) (count : ℕ) (units : Seen) (g : Datagrams) : Type 0 where
  numbered : g.seq ≡ count % 2 ^ 16
  all : length g.sent + length g.dropped + length g.spilled ≡ count
  stream : Fallback c.feed units g

abbrev grown : AccessUnit × ℕ → Datagrams → Datagrams → Seen
grown x g h = if length h.spilled == length g.spilled then [] else x ∷ []

grown-none : (x : AccessUnit × ℕ) (g h : Datagrams) → h.spilled ≡ g.spilled → grown x g h ≡ []
grown-none x g h e = rw e (ground arith)

grown-one :
    (x : AccessUnit × ℕ) (g h : Datagrams) (why : SpillReason)
    → h.spilled ≡ g.spilled ++ why ∷ []
    → grown x g h ≡ x ∷ []
grown-one x g h why e =
    let size : length h.spilled ≡ length g.spilled + 1 =
      ap length e ∙ length-append g.spilled (why ∷ []) in
    rw size (ground arith)

longer {ℓ} : {A : Type ℓ} (xs ys : List A) (y : A) → ys ≡ xs ++ y ∷ [] → length ys ≡ length xs + 1
longer xs ys y e = ap length e ∙ length-append xs (y ∷ [])

advance-After :
    (c : DatagramConfig) (count : ℕ) (units : Seen) (x : AccessUnit × ℕ) (g h : Datagrams)
    → After c count units g
    → h.seq ≡ g.seq
    → Outcome c units x g h
    → After c (count + 1) (units ++ grown x g h) (advance h)
unfolding advance
advance-After c count units x g h v s (inl k) =
    let e : units ++ grown x g h ≡ units =
      ap (λ u. units ++ u) (grown-none x g h k.no_spill) ∙ append-nil units in
    let size = longer g.sent h.sent k.bytes k.taken in
    rw e record {
      numbered = omega (arith, s, v.numbered);
      all = omega (arith, size, v.all, ap length k.no_drop, ap length k.no_spill);
      stream = rw k.same_stream v.stream;
    }
advance-After c count units x g h v s (inr (inl (d, f))) =
    let e : units ++ grown x g h ≡ units =
      ap (λ u. units ++ u) (grown-none x g h d.no_spill) ∙ append-nil units in
    let size = longer g.dropped h.dropped d.reason d.reported in
    rw e record {
      numbered = omega (arith, s, v.numbered);
      all = omega (arith, size, v.all, ap length d.quiet.same_sent, ap length d.no_spill);
      stream = f;
    }
advance-After c count units x g h v s (inr (inr k)) =
    let size = longer g.spilled h.spilled (why_not x.0) k.reported in
    rw (grown-one x g h (why_not x.0) k.reported) record {
      numbered = omega (arith, s, v.numbered);
      all = omega (arith, size, v.all, ap length k.quiet.same_sent, ap length k.no_drop);
      stream = inr (k.w, k.there, Ends-Holds c.feed units x k.w.out k.ends);
    }

round-After :
    (c : DatagramConfig) (count : ℕ) (units : Seen) (x : AccessUnit × ℕ) (g : Datagrams)
    → After c count units g
    → After c
        (count + 1)
        (units ++ grown x g (send_or_spill c x.1 x.0 g))
        (send_or_spill c x.1 x.0 g)
unfolding advance
round-After c count units x g v =
    let r = send_or_spill-Round c units x g (omega (arith, v.numbered)) v.stream in
    subst (λ g'. After c (count + 1) (units ++ grown x g g') g') (sym r.advanced)
      (advance-After c count units x g r.h v r.same_seq r.outcome)

loop-After :
    (c : DatagramConfig) (count : ℕ) (units xs : Seen) (g : Datagrams)
    → After c count units g
    → After c (count + length xs) (units ++ spilled_units c xs g) (datagram_loop c xs g)
unfolding datagram_loop
loop-After c count units [] g v =
    let e : count + 0 ≡ count = omega arith in rw (append-nil units, e) v
loop-After c count units (x ∷ xs) g v =
    let g' = send_or_spill c x.1 x.0 g in
    let e : count + 1 + length xs ≡ count + suc (length xs) = omega arith in
    let same = append_assoc units (grown x g g') (spilled_units c xs g') in
    subst
      (λ n. After c n (units ++ (grown x g g' ++ spilled_units c xs g')) (datagram_loop c xs g')) e
      (subst (λ u. After c (count + 1 + length xs) u (datagram_loop c xs g')) same
        (loop-After c (count + 1) (units ++ grown x g g') xs g' (round-After c count units x g v)))

-- What the pump makes of a unit: a datagram with its number that DecodeDatagram reads back; or the
-- end of what the fallback stream carries, the track header and the frames of units that were
-- spilled with none left out since the stream was opened; or a drop.
pub record Fate (c : DatagramConfig) (count : ℕ) (units : Seen) (x : AccessUnit × ℕ)
    (g g' : Datagrams) : Type 0 where
  pub numbered : g.seq ≡ count % 2 ^ 16
  pub next : g'.seq ≡ (count + 1) % 2 ^ 16
  pub all : length g.sent + length g.dropped + length g.spilled ≡ count
  pub outcome :
      Carried c x.0 g g'
      ⊎ ((reason : SpillReason) × Explained c (why_not x.0) reason
          × (g'.dropped ≡ g.dropped ++ reason ∷ [])
          × (g'.sent ≡ g.sent)
          × (g'.spilled ≡ g.spilled))
      ⊎ ((w : Sink) × (g'.fallback_stream ≡ some w)
          × Ends c.feed units x w.out
          × (g'.spilled ≡ g.spilled ++ why_not x.0 ∷ [])
          × (g'.sent ≡ g.sent)
          × (g'.dropped ≡ g.dropped))

advance-Fate :
    (c : DatagramConfig) (count : ℕ) (units : Seen) (x : AccessUnit × ℕ) (g h : Datagrams)
    → After c count units g
    → h.seq ≡ g.seq
    → Outcome c units x g h
    → Fate c count units x g (advance h)
unfolding advance
advance-Fate c count units x g h v s o = record {
  numbered = v.numbered;
  next = omega (arith, s, v.numbered);
  all = v.all;
  outcome = elim o [
    | inl k ↦ inl record {
      bytes = k.bytes;
      taken = k.taken;
      readable = k.readable;
      small = k.small;
      no_drop = k.no_drop;
      no_spill = k.no_spill;
      same_stream = k.same_stream;
    }
    | inr (inl (d, f)) ↦
        inr (inl (d.reason, d.explained, d.reported, d.quiet.same_sent, d.no_spill))
    | inr (inr k) ↦ inr (inr (k.w, k.there, k.ends, k.reported, k.quiet.same_sent, k.no_drop))
  ];
}

before_units-After :
    (c : DatagramConfig) (opens : List (Option (List (Option ℕ)))) (refusals : List Bool)
    → After c 0 [] (before_units opens refusals)
before_units-After c opens refusals = record {
  numbered = omega arith;
  all = omega arith;
  stream = inl refl;
}

-- After any units, whatever sends, opens and writes fail, each unit so far has had one fate, and the
-- next has just one as well: it goes as a datagram with the number of units before it, modulo 2^16,
-- which DecodeDatagram reads back; or it ends the fallback stream, which carries the track header
-- and, with no gap since it was opened, the units that OnFallback was called for; or it is dropped,
-- with one report. The reason is that it is over 1100 bytes or that the sender refused it, and for a
-- drop with a fallback that this one failed.
pub datagram_loop-Fate :
    (c : DatagramConfig) (opens : List (Option (List (Option ℕ)))) (refusals : List Bool)
    (xs : Seen) (x : AccessUnit × ℕ)
    → let g = datagram_loop c xs (before_units opens refusals) in
      Fate c
        (length xs)
        (spilled_units c xs (before_units opens refusals))
        x
        g
        (send_or_spill c x.1 x.0 g)
datagram_loop-Fate c opens refusals xs x =
    let g₀ = before_units opens refusals in
    let g = datagram_loop c xs g₀ in
    let e : 0 + length xs ≡ length xs = omega arith in
    let v : After c (length xs) (spilled_units c xs g₀) g =
      subst (λ n. After c n (spilled_units c xs g₀) g) e
        (loop-After c 0 [] xs g₀ (before_units-After c opens refusals)) in
    let r =
      send_or_spill-Round c (spilled_units c xs g₀) x g (omega (arith, v.numbered)) v.stream in
    subst (Fate c (length xs) (spilled_units c xs g₀) x g) (sym r.advanced)
      (advance-Fate c (length xs) (spilled_units c xs g₀) x g r.h v r.same_seq r.outcome)
