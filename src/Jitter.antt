-- ===== src/Jitter.antt =====
-- The jitter buffer at work (`unwrap_seq` and `decode_to_client_buffer` in native/src/api.rs,
-- and the part of the audio callback that takes a frame out).
pub mod Receive
pub mod Sequence
pub mod Rebase
pub mod Window
pub mod Once
mod Examples
use nek.Common.{
  ℕ, zero, suc, ◌+◌, ◌-◌, ◌*◌, ◌/◌, ◌%◌, ◌^◌, Bool, true, false, not, ◌&&◌, Option, none, some,
  List, [], ◌∷◌, ◌++◌, if◌then◌else◌, ltb, leb, ◌==◌, get_or, set,
}
use Prim.Native.Nat.{min}
use nek.Model.{ClientJitterBuffer, Frame, jitter_slots, frame_size}

abbrev pub u16 : ℕ
u16 = 2 ^ 16

abbrev pub u32 : ℕ
u32 = 2 ^ 32

abbrev pub u64 : ℕ
u64 = 2 ^ 64

-- `wrapping_sub` at a width; both numbers are below the modulus.
abbrev pub wrapping_sub : ℕ → ℕ → ℕ → ℕ
wrapping_sub modulus a b = (a + modulus - b) % modulus

-- The u16 difference `d` read as an i16, as the u32 that `as u32` makes of it.
abbrev pub delta_u32 : ℕ → ℕ
delta_u32 d = if ltb d 32768 then d else u32 + d - u16

-- The delta is negative from 32768 on, and -32768 at 32768.
abbrev unwrap_delta : ℕ → ℕ → ℕ
unwrap_delta base d =
    if ltb d 32768
    then (base + delta_u32 d) % u32
    else if ltb 32768 d
    then (base + (65536 + delta_u32 d) % u32) % u32
    else (base + delta_u32 d) % u32

unfoldable pub unwrap_seq : ℕ → ℕ → ℕ
unwrap_seq seq base = unwrap_delta base (wrapping_sub u16 seq base)

abbrev pub target_delay : ℕ
target_delay = 6

abbrev pub rebase_lead : ℕ
rebase_lead = 4

-- `(hi << 32) | lo` for a `lo` below 2 ^ 32, where the two share no bit. A play slot stays below
-- that for two and a half years of output.
abbrev pub pack : ℕ → ℕ → ℕ
pack hi lo = hi * u32 + lo

abbrev pub base_seq : ClientJitterBuffer → ℕ
base_seq b = b.base_pair / u32

abbrev pub base_slot : ClientJitterBuffer → ℕ
base_slot b = b.base_pair % u32

-- The first packet sets the mapping. `slot` is the slot that plays now.
unfoldable pub init_base : ℕ → ℕ → ClientJitterBuffer → ClientJitterBuffer
unfolding unwrap_seq
init_base slot seq b =
    if b.base_pair == 0
    then record b { base_pair = pack (unwrap_seq seq 0) (slot + target_delay) }
    else b

-- More than 1000 frames from the last accepted one, in either direction.
abbrev pub is_too_far : ℕ → ℕ → Bool
is_too_far write_seq global_seq =
    not (write_seq == 0)
    && ltb 1000
        (min (wrapping_sub u32 global_seq write_seq) (wrapping_sub u32 write_seq global_seq))

-- How far the reader is ahead of the frame, modulo 2 ^ 64.
abbrev pub behind : ℕ → ℕ → ClientJitterBuffer → ℕ
behind slot global_seq b =
    wrapping_sub u64 ((wrapping_sub u64 slot (base_slot b) + base_seq b) % u64) global_seq

abbrev pub needs_rebase : ℕ → ℕ → ClientJitterBuffer → Bool
needs_rebase slot global_seq b =
    not (b.write_seq == 0)
    && ltb b.write_seq global_seq
    && leb rebase_lead (behind slot global_seq b)
    && ltb (behind slot global_seq b) 4096

abbrev pub push_frame : Option Frame → List Frame → List Frame
push_frame none pool = pool
push_frame (some f) pool = pool ++ f ∷ []

-- One round of the loop that moves the frames: that of slot `i` goes to `dist`, or to the pool.
abbrev pub move_frame :
    ℕ → ℕ → Option Frame → List (Option Frame) → List Frame → List (Option Frame) × List Frame
move_frame i dist none slots pool = (slots, pool)
move_frame i dist (some f) slots pool =
    let cleared = set slots i none in
    if ltb dist jitter_slots
    then (set cleared dist (some f), push_frame (get_or cleared dist none) pool)
    else (cleared, pool ++ f ∷ [])

-- The rounds from slot `i` on; `rounds` of them are left.
unfoldable pub move_frames :
    ℕ → ℕ → ℕ → ℕ → List (Option Frame) → List Frame → List (Option Frame) × List Frame
move_frames old new zero i slots pool = (slots, pool)
move_frames old new (suc rounds) i slots pool =
    let dist = wrapping_sub u32 ((old + i) % u32) new in
    let (slots', pool') = move_frame i dist (get_or slots i none) slots pool in
    move_frames old new rounds (i + 1) slots' pool'

-- Re-homes the frames under a mapping that begins with this packet.
unfoldable pub rebase : ℕ → ℕ → ClientJitterBuffer → ClientJitterBuffer
unfolding move_frames
rebase slot global_seq b =
    let (slots, pool) = move_frames (base_seq b) global_seq jitter_slots 0 b.slots b.frame_pool in
    record b { slots = slots; frame_pool = pool; base_pair = pack global_seq (slot + target_delay) }

abbrev pub slot_index : ℕ → ℕ → ℕ
slot_index global_seq base = wrapping_sub u32 global_seq base % jitter_slots

abbrev pub pop : List Frame → List Frame
pop [] = []
pop (f ∷ pool) = pool

-- Writes the frame into its slot. What was there goes to the pool, whose oldest frame is used up.
unfoldable pub write_frame : ℕ → ℕ → Frame → ClientJitterBuffer → ClientJitterBuffer
write_frame now global_seq frame b =
    let idx = slot_index global_seq (base_seq b) in
    record b {
      slots = set (set b.slots idx none) idx (some frame);
      frame_pool = pop (push_frame (get_or b.slots idx none) b.frame_pool);
      write_seq = global_seq;
      last_packet = some now;
    }

-- A decoded frame arrives, with its 16-bit sequence number; nothing if it is thrown away.
unfoldable pub receive_frame : ℕ → ℕ → ℕ → Frame → ClientJitterBuffer → ClientJitterBuffer × Bool
receive_frame now slot seq frame buffer =
    let b = init_base slot seq buffer in
    let global_seq = unwrap_seq seq (base_seq b % u16) in
    if is_too_far b.write_seq global_seq then (b, false) else (
      write_frame now global_seq frame
          (if needs_rebase slot global_seq b then rebase slot global_seq b else b),
      true,
    )

-- The sequence number that plays at `slot`, and the index of the ring where it is kept.
unfoldable pub expected_seq : ℕ → ℕ → ℕ → ℕ
expected_seq slot first_slot first_seq = (wrapping_sub u64 slot first_slot + first_seq) % u64

unfoldable pub read_index : ℕ → ℕ → ℕ
read_index expected first_seq = wrapping_sub u64 expected first_seq % jitter_slots

abbrev pub take_at : ℕ → ClientJitterBuffer → ClientJitterBuffer × Option Frame
take_at idx b = (
  record b {
    slots = set b.slots idx none;
    frame_pool = push_frame (get_or b.slots idx none) b.frame_pool;
  },
  get_or b.slots idx none,
)

-- The callback takes the frame that plays at `slot`, if it is there, and pools it.
unfoldable pub take_frame : ℕ → ClientJitterBuffer → ClientJitterBuffer × Option Frame
take_frame slot b =
    let expected = expected_seq slot (base_slot b) (base_seq b) in
    if base_seq b == 0
    then (b, none)
    else if leb expected b.write_seq
    then take_at (read_index expected (base_seq b)) b
    else (b, none)
