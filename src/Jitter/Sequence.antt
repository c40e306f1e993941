-- ===== src/Jitter/Sequence.antt =====
-- The 32-bit sequence numbers that packets get, and what becomes of them after 65536 packets.
use nek.Common.{ℕ, ◌+◌, ◌-◌, ◌%◌, ◌<◌, ◌≡◌, ◌≢◌, if◌then◌else◌, ◌==◌, true, false, arith}
use nek.Model.{ClientJitterBuffer, Frame}
use nek.Jitter.{u16, u32, wrapping_sub, unwrap_seq, base_seq, is_too_far, receive_frame, init_base}

-- For a packet and a base of 16 bits, the unwrapped number keeps the 16 bits of the packet.
pub unwrap_seq-mod : (seq base : ℕ) → seq < u16 → base < u16 → unwrap_seq seq base % u16 ≡ seq
unfolding unwrap_seq
unwrap_seq-mod seq base hs hb = ground arith

-- For a packet and a base of 16 bits, the number is the base and the distance from there, counted
-- forward round the 16-bit circle, whether the packet is early or late; only at the distance 32768
-- it is half a circle before the base, modulo 2 ^ 32.
pub unwrap_seq_lem :
    (seq base : ℕ)
    → seq < u16
    → base < u16
    → unwrap_seq seq base ≡ (
        if wrapping_sub u16 seq base == 32768
        then (base + u32 - 32768) % u32
        else base + wrapping_sub u16 seq base)
unfolding unwrap_seq
unwrap_seq_lem seq base hs hb = ground arith

wrapped_too_far :
    (base k : ℕ)
    → base < u16
    → k < 64535
    → is_too_far (base + 65535) (unwrap_seq ((base + k) % u16) base) ≡ true
unfolding unwrap_seq
wrapped_too_far base k hb hk = ground arith

init_base_set : (slot seq : ℕ) (b : ClientJitterBuffer) → b.base_pair ≢ 0 → init_base slot seq b ≡ b
unfolding init_base
init_base_set slot seq b h = ground arith

refused :
    (now slot seq : ℕ) (frame : Frame) (b : ClientJitterBuffer)
    → init_base slot seq b ≡ b
    → is_too_far b.write_seq (unwrap_seq seq (base_seq b % u16)) ≡ true
    → receive_frame now slot seq frame b ≡ (b, false)
unfolding receive_frame
refused now slot seq frame b e h = rw (e, h)

-- Once a buffer whose base is a 16-bit number has taken in the packet just before the base came
-- round again, it throws away each of the next 64535 packets of the sequence, unchanged.
pub receive_frame-wrapped :
    (now slot k : ℕ) (frame : Frame) (b : ClientJitterBuffer)
    → base_seq b < u16
    → b.base_pair ≢ 0
    → b.write_seq ≡ base_seq b + 65535
    → k < 64535
    → receive_frame now slot ((base_seq b + k) % u16) frame b ≡ (b, false)
receive_frame-wrapped now slot k frame b hb hp hw hk =
    refused now slot ((base_seq b + k) % u16) frame b
      (init_base_set slot ((base_seq b + k) % u16) b hp)
      (rw (hw, small) (wrapped_too_far (base_seq b) k hb hk))
  where
    small : base_seq b % u16 ≡ base_seq b
    small = omega arith
