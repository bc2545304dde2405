-- ===== src/Pubsub/Receiver/Laws.antt =====
-- The fanout to one receiver, and its closing (pubsub/broadcaster.go).
use native.Mathlib.Decide.{dec_lt}
use quicrtc.Prelude.{
  ◌≡◌, refl, sym, ◌∙◌, ◌≤◌, ◌<◌, ◌⊎◌, inl, inr, List, Bool, true, false, ◌||◌, if◌then◌else◌,
  length, [], ◌∷◌, ◌++◌, some, arith, length-append, length-drop, Bool-cases,
}
use quicrtc.Pubsub.{AccessUnit}
use quicrtc.Pubsub.Replay.Spec.{latest, latest_room, latest_full, length-latest_le}
use quicrtc.Pubsub.Receiver.{
  Chan, Receiver, try_send, try_receive, close_chan, send_evicting, deliver, shut_receiver,
}

-- The flag says whether the channel is closed, and the channel is within its capacity, which is
-- not 0.
pub record IsValid (r : Receiver) : Type 0 where
  pub flagged : r.closed ≡ r.ch.shut
  pub room : 0 < r.ch.cap
  pub bounded : length r.ch.queue ≤ r.ch.cap

-- An open channel takes a unit: the oldest goes if there is no room.
pub send_evicting-latest :
    (au : AccessUnit) (c : Chan)
    → c.shut ≡ false
    → 0 < c.cap
    → length c.queue ≤ c.cap
    → send_evicting au c ≡ some (record c { queue = latest c.cap (c.queue ++ au ∷ []) }, true)
unfolding send_evicting try_send try_receive
send_evicting-latest au c o pos b = elim (dec_lt (length c.queue) c.cap) [
  | yes lt ↦ ground (arith, latest_room c.cap c.queue au lt)
  | no full ↦ ground (arith, latest_full c.cap c.queue au pos (omega arith), length-drop 1 c.queue)
]

-- What the fanout makes of an open receiver's queue and of its flag.
abbrev pub Delivered : Bool → AccessUnit → Receiver → List AccessUnit → Bool → Type 0
Delivered self_contained au r queue need =
    (((self_contained || au.keyframe) ≡ true)
      × (queue ≡ latest r.ch.cap (r.ch.queue ++ au ∷ []))
      × (need ≡ (if self_contained then r.need_keyframe else false)))
    ⊎ (((self_contained || au.keyframe) ≡ false)
        × (r.need_keyframe ≡ false)
        × (length r.ch.queue < r.ch.cap)
        × (queue ≡ r.ch.queue ++ au ∷ [])
        × (need ≡ false))
    ⊎ (((self_contained || au.keyframe) ≡ false)
        × ((r.need_keyframe ≡ true) ⊎ (length r.ch.queue ≡ r.ch.cap))
        × (queue ≡ r.ch.queue)
        × (need ≡ true))

-- The result of a delivery, by its parts.
pub record Outcome (self_contained : Bool) (au : AccessUnit) (r r' : Receiver) : Type 0 where
  pub valid : IsValid r'
  pub still_open : r'.closed ≡ false
  pub same_cap : r'.ch.cap ≡ r.ch.cap
  pub delivered : Delivered self_contained au r r'.ch.queue r'.need_keyframe

-- The receiver after a unit was sent, the oldest evicted if there was no room.
abbrev taken : AccessUnit → Bool → Receiver → Receiver
taken au need r = record r {
  ch = record r.ch { queue = latest r.ch.cap (r.ch.queue ++ au ∷ []) };
  need_keyframe = need;
}

taken-IsValid :
    (au : AccessUnit) (need : Bool) {r : Receiver} → IsValid r → IsValid (taken au need r)
taken-IsValid au need {r} v = record {
  flagged = v.flagged;
  room = v.room;
  bounded = length-latest_le r.ch.cap (r.ch.queue ++ au ∷ []);
}

module _ (au : AccessUnit) {r : Receiver} (v : IsValid r) (o : r.closed ≡ false) where
  sent : send_evicting au r.ch ≡ some ((taken au false r).ch, true)
  sent = send_evicting-latest au r.ch (sym v.flagged ∙ o) v.room v.bounded

  deliver-self_contained : (r' : Receiver) × (deliver true au r ≡ some r') × Outcome true au r r'
  unfolding deliver
  deliver-self_contained = (
    taken au r.need_keyframe r,
    ground (arith, sent),
    record {
      valid = taken-IsValid au r.need_keyframe v;
      still_open = o;
      same_cap = refl;
      delivered = inl (refl, refl, refl);
    },
  )

  deliver-keyframe :
      au.keyframe ≡ true → (r' : Receiver) × (deliver false au r ≡ some r') × Outcome false au r r'
  unfolding deliver
  deliver-keyframe k = (
    taken au false r,
    ground (arith, sent),
    record {
      valid = taken-IsValid au false v;
      still_open = o;
      same_cap = refl;
      delivered = inl (k, refl, refl);
    },
  )

  deliver-refused :
      au.keyframe ≡ false
      → (r.need_keyframe ≡ true) ⊎ (length r.ch.queue ≡ r.ch.cap)
      → (r' : Receiver) × (deliver false au r ≡ some r') × Outcome false au r r'
  unfolding deliver try_send
  deliver-refused k h = (
    record r { need_keyframe = true },
    ground (arith, v.flagged),
    record {
      valid = record { flagged = v.flagged; room = v.room; bounded = v.bounded };
      still_open = o;
      same_cap = refl;
      delivered = inr (inr (k, h, refl, refl));
    },
  )

  deliver-p_frame :
      au.keyframe ≡ false
      → r.need_keyframe ≡ false
      → length r.ch.queue < r.ch.cap
      → (r' : Receiver) × (deliver false au r ≡ some r') × Outcome false au r r'
  unfolding deliver try_send
  deliver-p_frame k n lt = (
    record r { ch = record r.ch { queue = r.ch.queue ++ au ∷ [] }; need_keyframe = false },
    ground (arith, v.flagged),
    record {
      valid = record {
        flagged = v.flagged;
        room = v.room;
        bounded = omega (arith, length-append r.ch.queue (au ∷ []));
      };
      still_open = o;
      same_cap = refl;
      delivered = inr (inl (k, n, lt, refl, refl));
    },
  )

-- A fanout to an open receiver never panics, and keeps the receiver open, valid and within the
-- capacity of its channel. A keyframe, and any unit of a self-contained track, is put at the end
-- of the queue, with the oldest unit evicted if the queue was full; unless the track is
-- self-contained, a keyframe clears the request for one. Any other unit is appended only if no keyframe is awaited and there is room; if not,
-- the queue is left alone and a keyframe is awaited from then on.
pub deliver-Outcome :
    (self_contained : Bool) (au : AccessUnit) {r : Receiver}
    → IsValid r
    → r.closed ≡ false
    → (r' : Receiver) × (deliver self_contained au r ≡ some r') × Outcome self_contained au r r'
deliver-Outcome true au {r} v o = deliver-self_contained au v o
deliver-Outcome false au {r} v o = elim (Bool-cases au.keyframe) [
  | inl k ↦ deliver-keyframe au v o k
  | inr k ↦ elim (Bool-cases r.need_keyframe) [
    | inl n ↦ deliver-refused au v o k (inl n)
    | inr n ↦ elim (dec_lt (length r.ch.queue) r.ch.cap) [
      | yes lt ↦ deliver-p_frame au v o k n lt
      | no full ↦ deliver-refused au v o k (inr (omega (arith, v.bounded)))
    ]
  ]
]

-- A closed receiver is passed over.
pub deliver-closed :
    (self_contained : Bool) (au : AccessUnit) {r : Receiver}
    → r.closed ≡ true
    → deliver self_contained au r ≡ some r
unfolding deliver
deliver-closed self_contained au h = rw h

pub shut_receiver_lem :
    {r : Receiver}
    → IsValid r
    → (r' : Receiver) × (shut_receiver r ≡ some r')
      × IsValid r'
      × (r'.closed ≡ true)
      × (r'.ch.queue ≡ r.ch.queue)
unfolding shut_receiver close_chan
shut_receiver_lem {r} v = elim (Bool-cases r.closed) [
  | inl c ↦ (r, ground arith, v, c, refl)
  | inr o ↦
      let r' = record r { ch = record r.ch { shut = true }; closed = true } in
      (
        r',
        ground (arith, v.flagged),
        record { flagged = refl; room = v.room; bounded = v.bounded },
        refl,
        refl,
      )
]
