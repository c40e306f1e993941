-- ===== src/Jitter/Examples.antt =====
-- The jitter buffer on concrete packets, and the theorems about it at an input.
use nek.Common.{
  ◌+◌, ◌-◌, ◌%◌, ◌≡◌, if◌then◌else◌, ◌==◌, refl, false, some, none, [], ◌∷◌, replicate, length,
  arith,
}
use nek.Model.{ClientJitterBuffer, Frame, jitter_slots}
use nek.Jitter.{
  pack, u16, u32, wrapping_sub, unwrap_seq, init_base, base_seq, base_slot, write_frame, take_frame,
  receive_frame, rebase,
}
use nek.Jitter.Sequence.{unwrap_seq_lem, receive_frame-wrapped}
use nek.Jitter.Rebase.{held, held-rebase}
use nek.Jitter.Window.{receive_frame-take_frame}

abbrev tone : Frame
tone = 100 ∷ 200 ∷ []

-- A buffer whose first packet had the number 40, to be played from slot 10.
abbrev begun : ClientJitterBuffer
begun = record {
  slots = replicate jitter_slots none;
  write_seq = 40;
  base_pair = pack 40 10;
  last_packet = some 0;
  frame_pool = [];
  volume = 0;
}

-- A buffer of the same mapping whose last packet is the one just before the number 40 comes back.
abbrev wrapped : ClientJitterBuffer
wrapped = record begun { write_seq = 40 + 65535 }

-- A buffer whose first slot holds a frame.
abbrev loaded : ClientJitterBuffer
loaded = record begun { slots = some tone ∷ replicate 63 none }

abbrev received : ClientJitterBuffer
received = (receive_frame 5 8 43 tone begun).0

receive_frame-take_frame_example :
    (take_frame (base_slot received + (received.write_seq - base_seq received)) received).1
    ≡ some tone
unfolding receive_frame write_frame unwrap_seq init_base
receive_frame-take_frame_example =
    receive_frame-take_frame 5 8 43 tone begun received refl refl (omega arith) (omega arith)
      (omega arith)

held-rebase_example :
    held (rebase 30 60 loaded).slots + length (rebase 30 60 loaded).frame_pool
    ≡ held loaded.slots + length loaded.frame_pool
held-rebase_example = held-rebase 30 60 loaded refl

unwrap_seq_lem_example : unwrap_seq 39 40 ≡ (
    if wrapping_sub u16 39 40 == 32768
    then (40 + u32 - 32768) % u32
    else 40 + wrapping_sub u16 39 40)
unwrap_seq_lem_example = unwrap_seq_lem 39 40 (omega arith) (omega arith)

receive_frame-wrapped_example :
    receive_frame 5 8 ((base_seq wrapped + 2) % u16) tone wrapped ≡ (wrapped, false)
receive_frame-wrapped_example =
    receive_frame-wrapped 5 8 2 tone wrapped (omega arith) (λ e. omega (arith, e)) refl
      (omega arith)
