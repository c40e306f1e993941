-- ===== src/Mixer/Duration.antt =====
-- How long a sound takes, against the waits before the output stream is torn down.
use nek.Common.{
  ℕ, ◌+◌, ◌-◌, ◌*◌, ◌/◌, ◌≤◌, ◌≡◌, ◌⊎◌, refl, ap, ◌∙◌, arith, true, Option, List, [], ◌∷◌, length,
  leb, inl, inr, Bool-cases, if◌then◌else◌, ◌==◌, none, some, get_or,
}
use Prim.Native.Nat.{min}
use nek.Model.{World, F32, frame_size}
use nek.Sound.{play_ms, preserve_ms, sample_length}
use nek.Mixer.Frame.{MixOps}
use nek.Mixer.Sounds.{SfxSlot, source, samples_of, advance, play_slot}

-- A slot over so many frames, whatever they are mixed onto.
abbrev pub frames : MixOps → List (Option (List F32)) → List (List F32) → SfxSlot → SfxSlot
unfolding play_slot
frames o samples [] s = s
frames o samples (mix ∷ mixes) s = frames o samples mixes (play_slot o samples s mix).0

-- What a frame makes of a slot.
abbrev next_slot : List (Option (List F32)) → SfxSlot → SfxSlot
next_slot samples s =
    let len = length (source samples s.kind) in
    if s.kind == 0 then s else if leb len s.pos then record s { kind = 0 } else advance len s

next_slot-play_slot :
    (o : MixOps) (samples : List (Option (List F32))) (s : SfxSlot) (mix : List F32)
    → (play_slot o samples s mix).0 ≡ next_slot samples s
unfolding play_slot
next_slot-play_slot o samples s mix = elim (Bool-cases (s.kind == 0)) [
  | inl e ↦ simp e refl
  | inr e ↦ elim (Bool-cases (leb (length (source samples s.kind)) s.pos)) [
    | inl f ↦ simp (e, f) refl
    | inr f ↦ simp (e, f) refl
  ]
]

free_stays :
    (o : MixOps) (samples : List (Option (List F32))) (mixes : List (List F32)) (s : SfxSlot)
    → (s.kind == 0) ≡ true
    → (frames o samples mixes s).kind ≡ 0
unfolding play_slot
free_stays o samples [] s h = ground arith
free_stays o samples (mix ∷ mixes) s h =
    free_stays o samples mixes (play_slot o samples s mix).0
      (ap (λ u. u.kind == 0) (next_slot-play_slot o samples s mix) ∙ simp h refl)

frames_end :
    (o : MixOps) (samples : List (Option (List F32))) (mixes : List (List F32)) (s : SfxSlot)
    → 1 ≤ length mixes
    → length (source samples s.kind) ≤ s.pos + frame_size * length mixes
    → (frames o samples mixes s).kind ≡ 0
unfolding play_slot
frames_end o samples [] s h b = absurd (omega arith)
frames_end o samples (mix ∷ mixes) s h b =
    let len = length (source samples s.kind) in
    ap (λ u. (frames o samples mixes u).kind) (next_slot-play_slot o samples s mix)
    ∙ (elim (Bool-cases (s.kind == 0)) [
      | inl e ↦ simp e (free_stays o samples mixes s e)
      | inr e ↦ elim (Bool-cases (leb len s.pos)) [
        | inl f ↦ simp (e, f) (free_stays o samples mixes (record s { kind = 0 }) refl)
        | inr f ↦ elim (Bool-cases (leb len (s.pos + min frame_size (len - s.pos)))) [
          | inl g ↦ simp (e, f, g) (free_stays o samples mixes _ refl)
          | inr g ↦
              simp (e, f, g)
                (frames_end o samples mixes
                  (record { kind = s.kind; pos = s.pos + min frame_size (len - s.pos) })
                  (ground arith) (ground arith))
        ]
      ]
    ])

length-samples_of : (s : Option (List F32)) → length (samples_of s) ≡ sample_length s
length-samples_of none = refl
length-samples_of (some s) = refl

-- The samples of a kind.
abbrev pub kind_length : ℕ → World → ℕ
kind_length kind w = sample_length (get_or w.sfx_samples (kind - 1) none)

-- A frame takes 20 milliseconds, so that a wait that holds a sound has room for its sample.
enough_frames :
    (w : World) (kind wait n : ℕ)
    → (wait ≡ play_ms kind w) ⊎ ((wait ≡ preserve_ms) × (kind_length kind w ≤ 96000))
    → wait / 20 ≤ n
    → (1 ≤ n) × (length (source w.sfx_samples kind) ≤ frame_size * n)
enough_frames w kind wait n (inl own) h =
    let len = length-samples_of (get_or w.sfx_samples (kind - 1) none) in
    (omega (arith, own), omega (arith, own, len))
enough_frames w kind wait n (inr (kicked, short)) h =
    let len = length-samples_of (get_or w.sfx_samples (kind - 1) none) in
    (omega (arith, kicked), omega (arith, kicked, len, short))

-- A slot that plays a sound, from its beginning or at any position, is free again after as many
-- frames as fit into a wait of the output stream: the one that an end with this very sound asks
-- for, or the one behind a kick or a ban, if the sound has at most 96000 samples. It does
-- not matter what the frames are mixed onto; the samples stay the same.
pub sound_ends_in_time :
    (o : MixOps) (s : SfxSlot) (w : World) (wait : ℕ) (mixes : List (List F32))
    → (wait ≡ play_ms s.kind w) ⊎ ((wait ≡ preserve_ms) × (kind_length s.kind w ≤ 96000))
    → wait / 20 ≤ length mixes
    → (frames o w.sfx_samples mixes s).kind ≡ 0
sound_ends_in_time o s w wait mixes held h =
    let enough = enough_frames w s.kind wait (length mixes) held h in
    frames_end o w.sfx_samples mixes s enough.0 (omega (arith, enough.1))
