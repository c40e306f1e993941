-- ===== src/Calls/Examples.antt =====
-- The theorem about the calls that queue a command, at a call.
use nek.Common.{ℕ, ◌+◌, List, ◌∷◌, Option, true, false, ◌≡◌, refl, some, none, [], get_or}
use nek.Common.Text.{Text, lit}
use nek.Model.{World, initial_world}
use nek.Wav.{WavOps}
use nek.Wav.File.{wav_file}
use nek.Wav.Builtin.{PeakOps, sfx_builtin, sfx_samples}
use nek.Calls.Delivery.{Request, kick, call, outcome, delivered, command_of, call-outcome}
use nek.Calls.Overrides.{
  SampleCall, set_sample, clear_sample, sample_calls, own_sample, sample_calls-own_sample,
}

abbrev request : Request
request = kick 7 1 (some (lit "bye")) none

abbrev idle : World
idle = initial_world []

call-outcome_example : call request idle ≡ outcome idle (delivered (command_of request idle) idle)
call-outcome_example = call-outcome request idle

abbrev ready : World
ready = record idle {
  state = record idle.state { connected = true };
  event_loop_alive = true;
  command_tx = some (record { queue = []; receiver_alive = true });
}

abbrev somewhere : Option Text
somewhere = some (lit "/a")

-- Floating point as numbers, to run the parser of samples.
abbrev numbers : WavOps
numbers = record {
  ops = record {
    add = λ a b. a + b;
    sub = λ a b. a;
    mul = λ a b. a;
    div = λ a b. a;
    sqrt = λ a. a;
    abs = λ a. a;
    powf = λ a b. a;
    clamp = λ a b c. a;
    ge = λ a b. true;
    gt = λ a b. false;
  };
  f32_of = λ z. 0;
  f64_of = λ n. n;
  f32_of_f64 = λ a. a;
  div64 = λ a b. a;
  mul64 = λ a b. a;
  sub64 = λ a b. a;
  gt64 = λ a b. false;
  ceil = λ a. a;
  floor = λ a. a;
  show3 = λ a. [];
}

abbrev garbage : Option (List ℕ)
garbage = some (1 ∷ 2 ∷ 3 ∷ [])

-- Floats of a report; they do not matter here.
abbrev peaks : PeakOps
peaks = record { max = λ a b. b; lt = λ a b. false; zero_peak = 0; least_peak = 1 }

-- 16-bit mono at 48 kHz, with one sample.
abbrev short_wav : ℕ → List ℕ
short_wav sample =
    wav_file 0 0 0 0 (1 ∷ 0 ∷ 1 ∷ 0 ∷ 0x80 ∷ 0xbb ∷ 0 ∷ 0 ∷ 0 ∷ 0x77 ∷ 1 ∷ 0 ∷ 2 ∷ 0 ∷ 16 ∷ 0 ∷ [])
      ((sample ∷ 0 ∷ []) ∷ [])

abbrev sample_changes : List SampleCall
sample_changes =
    set_sample 4 (some (short_wav 7))
    ∷ set_sample 3 (some (short_wav 9))
    ∷ set_sample 3 garbage
    ∷ clear_sample 4
    ∷ clear_sample 99
    ∷ []

sample_calls-own_sample_example :
    let builtin = sfx_builtin numbers peaks (λ name. short_wav 5) in
    let original = get_or builtin 2 none in
    get_or
      (sample_calls builtin numbers sample_changes
        (initial_world (sfx_samples builtin))).sfx_samples
      2
      none
    ≡ own_sample numbers 3 original sample_changes original
sample_calls-own_sample_example =
    sample_calls-own_sample numbers peaks (λ name. short_wav 5) sample_changes 3 refl
