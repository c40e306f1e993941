-- ===== src/Model/Jitter.antt =====
-- The jitter buffer of one client (native/src/lib.rs). A frame is a list of 16-bit patterns;
-- the atomics and the lock-free pool are plain fields. `base_pair` keeps the packing of the
-- source: the base sequence number in the high 32 bits, the base slot in the low ones.
use nek.Common.{ℕ, Option, none, List, [], replicate}
use nek.Model.Roster.{F32}

abbrev pub jitter_slots : ℕ
jitter_slots = 64

abbrev pub frame_size : ℕ
frame_size = 960

abbrev pub Frame : Type 0
Frame = List ℕ

pub record ClientJitterBuffer : Type 0 where
  pub slots : List (Option Frame)
  pub write_seq : ℕ
  pub base_pair : ℕ
  pub last_packet : Option ℕ
  pub frame_pool : List Frame
  pub volume : F32

-- 1.0 as an f32.
abbrev pub f32_one : F32
f32_one = 0x3f80_0000

unfoldable pub client_jitter_buffer_new : ClientJitterBuffer
client_jitter_buffer_new = record {
  slots = replicate jitter_slots none;
  write_seq = 0;
  base_pair = 0;
  last_packet = none;
  frame_pool = [];
  volume = f32_one;
}
