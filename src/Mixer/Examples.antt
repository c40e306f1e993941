-- ===== src/Mixer/Examples.antt =====
-- The theorems about the audio callback, each at an input.
use nek.Common.{
  ◌+◌, ◌≡◌, refl, inl, arith, true, false, some, [], ◌∷◌, ◌++◌, length, replicate, length-replicate,
}
use nek.Model.{World, F32, F32Ops, initial_world, frame_size}
use nek.Mixer.Frame.{MixOps, silence}
use nek.Mixer.Sounds.{SfxSlot}
use nek.Mixer.Callback.{Mixer, new_mixer, audio_callback}
use nek.Mixer.Calls.{due_samples, audio_callback_samples, audio_callback-append}
use nek.Mixer.Duration.{frames, sound_ends_in_time}
use nek.Sound.{play_ms}

abbrev numbers : F32Ops
numbers = record {
  add = λ a b. a + b;
  sub = λ a b. a;
  mul = λ a b. a;
  div = λ a b. a;
  sqrt = λ a. a;
  abs = λ a. a;
  powf = λ a b. a;
  clamp = λ a b c. a;
  ge = λ a b. true;
  gt = λ a b. false;
}

abbrev mix_ops : MixOps
mix_ops = record { ops = numbers; from_i16 = λ a. a; from_u32 = λ a. a }

-- A sound of three samples waits.
abbrev ringing : World
ringing = record (initial_world (some (5 ∷ 6 ∷ 7 ∷ []) ∷ [])) { sfx_queue = 1 ∷ [] }

silence_frame : length silence ≡ frame_size
silence_frame = length-replicate {A = F32} frame_size 0

-- What a stream plays first is the sound.
first_samples : (audio_callback mix_ops 4 (ringing, new_mixer)).1 ≡ 5 ∷ 6 ∷ 7 ∷ 0 ∷ []
unfolding audio_callback nek.Mixer.Callback.fill nek.Mixer.Callback.mix_frame
    nek.Mixer.Frame.collect nek.Mixer.Sounds.start_sounds nek.Mixer.Sounds.start_sound
    nek.Mixer.Sounds.play_slots nek.Mixer.Sounds.play_slot nek.Mixer.Sounds.add_sound initial_world
first_samples = refl

audio_callback_samples_example :
    audio_callback mix_ops 4 (ringing, new_mixer) ≡ due_samples mix_ops 4 (ringing, new_mixer)
audio_callback_samples_example = audio_callback_samples mix_ops 4 (ringing, new_mixer) silence_frame

audio_callback-append_example : audio_callback mix_ops (1000 + 500) (ringing, new_mixer) ≡ (
  (audio_callback mix_ops 500 (audio_callback mix_ops 1000 (ringing, new_mixer)).0).0,
  (audio_callback mix_ops 1000 (ringing, new_mixer)).1
      ++ (audio_callback mix_ops 500 (audio_callback mix_ops 1000 (ringing, new_mixer)).0).1,
)
unfolding initial_world
audio_callback-append_example =
    audio_callback-append mix_ops 1000 500 (ringing, new_mixer) silence_frame (omega arith)

sound_ends_in_time_example :
    (frames mix_ops ringing.sfx_samples (replicate 20 silence) (record { kind = 1; pos = 0 })).kind
    ≡ 0
unfolding initial_world
sound_ends_in_time_example =
    sound_ends_in_time mix_ops (record { kind = 1; pos = 0 }) ringing (play_ms 1 ringing)
      (replicate 20 silence) (inl refl) (omega arith)
