-- ===== src/Pubsub.antt =====
-- package pubsub: the access unit of pubsub/access_unit.go.
pub mod Replay
pub mod Receiver
pub mod Broadcaster
mod Tests
use quicrtc.Prelude.{ℕ, List, Bool, false, [], length}
use Prim.Native.String.{String}

pub record AccessUnit : Type 0 where
  pub bytes : List ℕ
  pub keyframe : Bool
  pub pts_micro : ℕ
  pub seq : ℕ
  pub discontinuity : Bool
  pub pub_wall_micro : ℕ
  pub meta : List (String × String)
  pub sync_group : ℕ
  pub priority : ℕ

-- Go's zero value of the struct.
abbrev pub zero_au : AccessUnit
zero_au = record {
  bytes = [];
  keyframe = false;
  pts_micro = 0;
  seq = 0;
  discontinuity = false;
  pub_wall_micro = 0;
  meta = [];
  sync_group = 0;
  priority = 0;
}

-- `int64(len(au.Bytes))`
abbrev pub size : AccessUnit → ℕ
size au = length au.bytes
