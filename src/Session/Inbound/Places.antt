-- ===== src/Session/Inbound/Places.antt =====
-- Inbound tracks by index and by name (session/session.go): what the operations leave in place.
use quicrtc.Prelude.{
  ℕ, ◌≡◌, ◌≢◌, refl, sym, ap, ◌∙◌, subst, ◌⊎◌, inl, inr, List, false, ◌==◌, length, set, get_elem?,
  get_elem?-set, get_elem?-set_other, get_elem?-append_left, get_elem?-append_last, get_elem?-lt,
  [], ◌∷◌, ◌++◌, Option, none, some, some-injective, Text, lookup, All, All-map, All-insert,
  All-lookup, All-append, arith, Bool-cases, Option-cases, leb,
}
use quicrtc.Session.Inbound.{
  InboundTrack, Inbound, new_track, add_track, inbound_track_chan, inbound_track_chan_wire,
  max_inbound_tracks,
}

-- Every track is where it was, under its name.
abbrev pub Keeps : List InboundTrack → List InboundTrack → Type 0
Keeps old new =
    (i : ℕ) (tr : InboundTrack)
    → get_elem? old i ≡ some tr
    → (tr' : InboundTrack) × (get_elem? new i ≡ some tr') × (tr'.name ≡ tr.name)

pub Keeps-append : (old new : List InboundTrack) → Keeps old (old ++ new)
Keeps-append old new i tr e =
    (tr, get_elem?-append_left old new i (get_elem?-lt old i tr e) ∙ e, refl)

pub Keeps-set :
    (old : List InboundTrack) (t : ℕ) (was is_now : InboundTrack)
    → get_elem? old t ≡ some was
    → is_now.name ≡ was.name
    → Keeps old (set old t is_now)
Keeps-set old t was is_now here same i tr e = elim (Bool-cases (t == i)) [
  | inl hit ↦
      let at : t ≡ i = ground (arith, hit) in
      let found : get_elem? (set old t is_now) i ≡ some is_now =
        subst (λ j. get_elem? (set old t is_now) j ≡ some is_now) at
          (get_elem?-set old t is_now (get_elem?-lt old t was here)) in
      let same_track : was ≡ tr = some-injective was tr (sym here ∙ ap (get_elem? old) at ∙ e) in
      (is_now, found, same ∙ ap (λ r. r.name) same_track)
  | inr miss ↦
      let apart : t ≢ i = λ h. absurd (ground (arith, miss, h)) in
      (tr, get_elem?-set_other old t i is_now apart ∙ e, refl)
]

-- A name's index is that of a track of this name.
abbrev pub IsNamed : List InboundTrack → Text × ℕ → Type 0
IsNamed tracks e = (tr : InboundTrack) × (get_elem? tracks e.1 ≡ some tr) × (tr.name ≡ e.0)

pub IsNamed-later :
    (old new : List InboundTrack) → Keeps old new → (e : Text × ℕ) → IsNamed old e → IsNamed new e
IsNamed-later old new keeps e (tr, here, name) =
    let (tr', there, same) = keeps e.1 tr here in (tr', there, same ∙ name)

-- The index of a track of which the name is in `Ok`; a stream that has returned has none.
abbrev pub Delivers : (Text → Type 0) → List InboundTrack → Option ℕ → Type 0
Delivers Ok tracks o =
    (o ≡ none)
    ⊎ ((i : ℕ) × (tr : InboundTrack) × (o ≡ some i) × (get_elem? tracks i ≡ some tr) × Ok tr.name)

pub Delivers-later :
    (Ok : Text → Type 0) (old new : List InboundTrack)
    → Keeps old new
    → (o : Option ℕ) → Delivers Ok old o
    → Delivers Ok new o
Delivers-later Ok old new keeps o (inl e) = inl e
Delivers-later Ok old new keeps o (inr (i, tr, e, here, fine)) =
    let (tr', there, same) = keeps i tr here in inr (i, tr', e, there, subst Ok (sym same) fine)

-- A stream that has passed the test is for a name in `Ok`.
abbrev pub Opens : (Text → Type 0) → Option Text → Type 0
Opens Ok o = (o ≡ none) ⊎ ((name : Text) × (o ≡ some name) × Ok name)

-- Nothing has been queued on the track, and no stream may be opened for it; or its name is in `Ok`.
abbrev pub Guarded : (Text → Type 0) → InboundTrack → Type 0
Guarded Ok tr = ((tr.queue ≡ []) × (tr.authorized ≡ false)) ⊎ Ok tr.name

-- The state, if `Ok` has the names that have been approved.
pub record IsInbound (Ok : Text → Type 0) (s : Inbound) : Type 0 where
  pub guarded : All (Guarded Ok) s.tracks
  pub named : All (IsNamed s.tracks) s.inbound_tracks
  pub opening : All (Opens Ok) s.opening
  pub streams : All (Delivers Ok s.tracks) s.streams

-- The tracks are changed in place, and so are the names.
pub replaced :
    (Ok : Text → Type 0) (s : Inbound) (tracks : List InboundTrack)
    → IsInbound Ok s
    → All (Guarded Ok) tracks
    → Keeps s.tracks tracks
    → IsInbound Ok (record s { tracks = tracks })
replaced Ok s tracks v guarded keeps = record {
  guarded = guarded;
  named = All-map (IsNamed-later s.tracks tracks keeps) s.inbound_tracks v.named;
  opening = v.opening;
  streams = All-map (Delivers-later Ok s.tracks tracks keeps) s.streams v.streams;
}

pub add_track-IsInbound :
    (Ok : Text → Type 0) (name : Text) (s : Inbound)
    → IsInbound Ok s
    → IsInbound Ok (add_track name s)
unfolding add_track
add_track-IsInbound Ok name s v =
    let tracks = s.tracks ++ new_track name ∷ [] in
    let keeps = Keeps-append s.tracks (new_track name ∷ []) in
    let old = All-map (IsNamed-later s.tracks tracks keeps) s.inbound_tracks v.named in
    record {
      guarded =
          All-append (Guarded Ok) s.tracks (new_track name ∷ []) v.guarded (inl (refl, refl), tt);
      named =
          All-insert (IsNamed tracks) name (length s.tracks) s.inbound_tracks old
            (new_track name, get_elem?-append_last s.tracks (new_track name), refl);
      opening = v.opening;
      streams = All-map (Delivers-later Ok s.tracks tracks keeps) s.streams v.streams;
    }

-- What inboundTrackChan gives: a track of the name.
pub record Found (Ok : Text → Type 0) (name : Text) (s : Inbound) (t : ℕ) : Type 0 where
  pub state : IsInbound Ok s
  pub place : IsNamed s.tracks (name, t)

added-Found :
    (Ok : Text → Type 0) (name : Text) (s : Inbound)
    → IsInbound Ok s
    → Found Ok name (add_track name s) (length s.tracks)
unfolding add_track
added-Found Ok name s v = record {
  state = add_track-IsInbound Ok name s v;
  place = (new_track name, get_elem?-append_last s.tracks (new_track name), refl);
}

pub inbound_track_chan-Found :
    (Ok : Text → Type 0) (name : Text) (s : Inbound)
    → IsInbound Ok s
    → Found Ok name (inbound_track_chan name s).0 (inbound_track_chan name s).1
unfolding inbound_track_chan
inbound_track_chan-Found Ok name s v = elim (Option-cases (lookup name s.inbound_tracks)) [
  | inr (t, e) ↦
      rw (inbound_track_chan, e)
        record {
          state = v;
          place = All-lookup (IsNamed s.tracks) name t s.inbound_tracks v.named e;
        }
  | inl e ↦ rw (inbound_track_chan, e) (added-Found Ok name s v)
]

-- The same within the cap, or nothing.
abbrev pub FoundWire : (Text → Type 0) → Text → Inbound → Inbound × Option ℕ → Type 0
FoundWire Ok name s r =
    (r ≡ (s, none)) ⊎ ((s' : Inbound) × (t : ℕ) × (r ≡ (s', some t)) × Found Ok name s' t)

pub inbound_track_chan_wire-FoundWire :
    (Ok : Text → Type 0) (name : Text) (s : Inbound)
    → IsInbound Ok s
    → FoundWire Ok name s (inbound_track_chan_wire name s)
unfolding inbound_track_chan_wire
inbound_track_chan_wire-FoundWire Ok name s v = elim (Option-cases (lookup name s.inbound_tracks)) [
  | inr (t, e) ↦ inr (
    s,
    t,
    ground (arith, e),
    record { state = v; place = All-lookup (IsNamed s.tracks) name t s.inbound_tracks v.named e },
  )
  | inl e ↦ elim (Bool-cases (leb max_inbound_tracks (length s.inbound_tracks))) [
    | inl full ↦ inl (ground (arith, e, full))
    | inr room ↦
        inr (add_track name s, length s.tracks, ground (arith, e, room), added-Found Ok name s v)
  ]
]
