-- ===== src/Mixer/Sounds.antt =====
-- The sounds of one frame: two of them play at a time, the others are dropped.
use nek.Common.{
  ℕ, ◌+◌, ◌-◌, Option, none, some, List, [], ◌∷◌, length, drop, get_or, leb, if◌then◌else◌, ◌==◌,
}
use Prim.Native.Nat.{min}
use nek.Model.{F32, frame_size}
use nek.Mixer.Frame.{MixOps}

-- `SfxSlot`; a slot of kind 0 is free.
pub record SfxSlot : Type 0 where
  pub kind : ℕ
  pub pos : ℕ

abbrev pub free_slot : SfxSlot
free_slot = record { kind = 0; pos = 0 }

-- Puts a request into the first free slot, if there is one.
unfoldable pub start_sound : ℕ → List SfxSlot → List SfxSlot
start_sound kind [] = []
start_sound kind (s ∷ slots) =
    let rest = start_sound kind slots in
    if s.kind == 0 then record { kind = kind; pos = 0 } ∷ slots else s ∷ rest

-- The whole queue is taken.
unfoldable pub start_sounds : List ℕ → List SfxSlot → List SfxSlot
unfolding start_sound
start_sounds [] slots = slots
start_sounds (kind ∷ queue) slots = start_sounds queue (start_sound kind slots)

abbrev pub samples_of : Option (List F32) → List F32
samples_of none = []
samples_of (some s) = s

-- The samples that are active for a kind.
abbrev pub source : List (Option (List F32)) → ℕ → List F32
source samples kind = samples_of (get_or samples (kind - 1) none)

-- mix_buf[i] += src[pos + i] * 0.5, as far as both go
unfoldable pub add_sound : MixOps → List F32 → List F32 → List F32
add_sound o src [] = []
add_sound o [] (m ∷ mix) = m ∷ mix
add_sound o (s ∷ src) (m ∷ mix) = o.ops.add m (o.ops.mul s 0x3f00_0000) ∷ add_sound o src mix

-- The slot behind the frame: free again, if its sample is used up.
abbrev pub advance : ℕ → SfxSlot → SfxSlot
advance len s =
    let pos = s.pos + min frame_size (len - s.pos) in
    if leb len pos then record { kind = 0; pos = pos } else record { kind = s.kind; pos = pos }

-- One slot plays into the frame.
unfoldable pub play_slot :
    MixOps → List (Option (List F32)) → SfxSlot → List F32 → SfxSlot × List F32
unfolding add_sound
play_slot o samples s mix =
    let src = source samples s.kind in
    if s.kind == 0
    then (s, mix)
    else if leb (length src) s.pos
    then (record s { kind = 0 }, mix)
    else (advance (length src) s, add_sound o (drop s.pos src) mix)

unfoldable pub play_slots :
    MixOps → List (Option (List F32)) → List SfxSlot → List F32 → List SfxSlot × List F32
unfolding play_slot
play_slots o samples [] mix = ([], mix)
play_slots o samples (s ∷ slots) mix =
    let (s', mix') = play_slot o samples s mix in
    let (slots', mix'') = play_slots o samples slots mix' in (s' ∷ slots', mix'')
