-- ===== src/Mixer/Length.antt =====
-- A mixed frame has 960 samples.
use nek.Common.{
  ℕ, suc, ◌≡◌, refl, ap, ◌∙◌, Option, none, some, List, [], ◌∷◌, map, length, leb, length-replicate,
  drop, inl, inr, Bool-cases, Option-cases, ◌==◌,
}
use nek.Common.Table.{lookup}
use nek.Model.{World, F32, Frame, frame_size}
use nek.Mixer.Frame.{MixOps, Voices, add_voice, mix_in, collect_client, collect, attenuate, silence}
use nek.Jitter.{take_frame}
use nek.Mixer.Sounds.{SfxSlot, source, add_sound, play_slot, play_slots, start_sounds}
use nek.Mixer.Callback.{Mixer, mix_frame, enter_slot}

length-map : {A B : Type 0} (f : A → B) (xs : List A) → length (map f xs) ≡ length xs
length-map f [] = refl
length-map f (x ∷ xs) = ap suc (length-map f xs)

length-add_voice :
    (o : MixOps) (vol : F32) (frame : Frame) (mix : List F32)
    → length (add_voice o vol frame mix) ≡ length mix
unfolding add_voice
length-add_voice o vol [] mix = refl
length-add_voice o vol (s ∷ frame) [] = refl
length-add_voice o vol (s ∷ frame) (m ∷ mix) = ap suc (length-add_voice o vol frame mix)

length-mix_in :
    (o : MixOps) (vol : F32) (frame : Option Frame) (v : Voices)
    → length (mix_in o vol frame v).mix ≡ length v.mix
length-mix_in o vol none v = refl
length-mix_in o vol (some frame) v = length-add_voice o vol frame v.mix

length-collect_client :
    (o : MixOps) (slot id : ℕ) (v : Voices) → length (collect_client o slot id v).mix ≡ length v.mix
unfolding collect_client
length-collect_client o slot id v = elim (Option-cases (lookup id v.buffers)) [
  | inl e ↦ rw (e, collect_client) refl
  | inr (b, e) ↦ rw (e, collect_client) (length-mix_in o b.volume (take_frame slot b).1 _)
]

length-collect :
    (o : MixOps) (slot : ℕ) (ids : List ℕ) (v : Voices)
    → length (collect o slot ids v).mix ≡ length v.mix
unfolding collect
length-collect o slot [] v = refl
length-collect o slot (id ∷ ids) v =
    length-collect o slot ids (collect_client o slot id v) ∙ length-collect_client o slot id v

length-add_sound : (o : MixOps) (src mix : List F32) → length (add_sound o src mix) ≡ length mix
unfolding add_sound
length-add_sound o src [] = refl
length-add_sound o [] (m ∷ mix) = refl
length-add_sound o (s ∷ src) (m ∷ mix) = ap suc (length-add_sound o src mix)

length-play_slot :
    (o : MixOps) (samples : List (Option (List F32))) (s : SfxSlot) (mix : List F32)
    → length (play_slot o samples s mix).1 ≡ length mix
unfolding play_slot
length-play_slot o samples s mix = elim (Bool-cases (s.kind == 0)) [
  | inl e ↦ simp e refl
  | inr e ↦ elim (Bool-cases (leb (length (source samples s.kind)) s.pos)) [
    | inl f ↦ simp (e, f) refl
    | inr f ↦ simp (e, f) (length-add_sound o (drop s.pos (source samples s.kind)) mix)
  ]
]

length-play_slots :
    (o : MixOps) (samples : List (Option (List F32))) (slots : List SfxSlot) (mix : List F32)
    → length (play_slots o samples slots mix).1 ≡ length mix
unfolding play_slots
length-play_slots o samples [] mix = refl
length-play_slots o samples (s ∷ slots) mix =
    length-play_slots o samples slots (play_slot o samples s mix).1
    ∙ length-play_slot o samples s mix

length-mix_frame :
    (o : MixOps) (slot : ℕ) (s : World × Mixer) → length (mix_frame o slot s).1.mix_buf ≡ frame_size
unfolding mix_frame
length-mix_frame o slot (w, m) =
    let v : Voices = record { buffers = w.client_buffers; mix = silence; active = 0 } in
    let voices = collect o slot w.active_client_ids v in
    let voice = attenuate o voices.active voices.mix in
    length-map _ (play_slots o w.sfx_samples (start_sounds w.sfx_queue m.sfx_slots) voice).1
    ∙ length-play_slots o w.sfx_samples (start_sounds w.sfx_queue m.sfx_slots) voice
    ∙ length-map _ voices.mix
    ∙ length-collect o slot w.active_client_ids v
    ∙ length-replicate {A = F32} frame_size 0

-- What the callback keeps is a frame.
abbrev pub HasFrame : World × Mixer → Type 0
HasFrame s = length s.1.mix_buf ≡ frame_size

pub enter_slot-HasFrame :
    (o : MixOps) (slot : ℕ) (s : World × Mixer) → HasFrame s → HasFrame (enter_slot o slot s)
enter_slot-HasFrame o slot s h = elim (Bool-cases (slot == s.1.mix_slot)) [
  | inl e ↦ simp e h
  | inr e ↦ simp e (length-mix_frame o slot s)
]
