-- ===== src/Wav/Builtin.antt =====
-- The built-in sounds (`load_builtin_sfx`, `SFX_BUILTIN` and the start of `SFX_SAMPLES` in
-- native/src/lib.rs). The files under native/assets/sfx are an argument; what is printed of a
-- sample is a value.
use nek.Common.{ℕ, Bool, Option, none, some, List, [], ◌∷◌, length, get_or, if◌then◌else◌}
use nek.Common.Text.{Text, lit}
use nek.Model.{F32}
use nek.Wav.{WavOps, Parsed, ok, err, parse_wav_pcm}

-- The operations of single floats that only the report on a sample uses.
pub record PeakOps : Type 0 where
  pub max : F32 → F32 → F32
  pub lt : F32 → F32 → Bool
  -- 0.0 and 1e-4
  pub zero_peak : F32
  pub least_peak : F32

-- The files that are embedded, by index.
abbrev asset_names : List Text
asset_names =
    lit "channel_switched.wav"
    ∷ lit "neutral_switched_tocurrentchannel.wav"
    ∷ lit "neutral_switched_awayfromcurrentchannel.wav"
    ∷ lit "you_were_moved.wav"
    ∷ lit "you_kicked_channel.wav"
    ∷ lit "you_kicked_server.wav"
    ∷ lit "you_were_banned.wav"
    ∷ lit "you_were_poked.wav"
    ∷ lit "chat_message_inbound.wav"
    ∷ lit "chat_message_outbound.wav"
    ∷ lit "connected.wav"
    ∷ lit "disconnected.wav"
    ∷ lit "connection_lost.wav"
    ∷ lit "error.wav"
    ∷ lit "mic_activated.wav"
    ∷ lit "mic_muted.wav"
    ∷ lit "sound_muted.wav"
    ∷ lit "sound_resumed.wav"
    ∷ lit "away_activated.wav"
    ∷ lit "away_deactivated.wav"
    ∷ lit "channel_created.wav"
    ∷ lit "channel_deleted.wav"
    ∷ lit "channel_edited.wav"
    ∷ lit "channel_moved.wav"
    ∷ lit "channelgroup_changed.wav"
    ∷ lit "neutral_connection_connected_currentchannel.wav"
    ∷ lit "neutral_connection_disconnected_currentchannel.wav"
    ∷ lit "neutral_connection_connectionlost_currentchannel.wav"
    ∷ lit "neutral_moved_tocurrentchannel.wav"
    ∷ lit "neutral_moved_awayfromcurrentchannel.wav"
    ∷ lit "neutral_kicked_channel_tocurrentchannel.wav"
    ∷ lit "neutral_kicked_channel_awayfromcurrentchannel.wav"
    ∷ lit "neutral_kicked_server_currentchannel.wav"
    ∷ lit "neutral_banned_server_currentchannel.wav"
    ∷ lit "neutral_recording_started_currentchannel.wav"
    ∷ lit "neutral_recording_stopped_currentchannel.wav"
    ∷ []

-- Any index above those has the last file.
unfoldable pub asset : ℕ → Text
asset kind = get_or asset_names kind (lit "neutral_recording_active_currentchannel.wav")

-- What is printed of a sample: its index, its name, its length and its peak, or why it was refused.
pub data SfxReport : Type 0 where
  silent_sample : ℕ → Text → F32 → SfxReport
  loaded_sample : ℕ → Text → ℕ → F32 → SfxReport
  parse_failed : ℕ → Text → Text → SfxReport

abbrev peak_from : WavOps → PeakOps → F32 → List F32 → F32
peak_from o p m [] = m
peak_from o p m (s ∷ samples) = peak_from o p (p.max m (o.ops.abs s)) samples

abbrev peak_of : WavOps → PeakOps → List F32 → F32
peak_of o p samples = peak_from o p p.zero_peak samples

abbrev pub report_parsed :
    WavOps → PeakOps → ℕ → Text → Parsed (List F32) → Option (List F32) × SfxReport
report_parsed o p kind name (ok samples) = (
  some samples,
  if p.lt (peak_of o p samples) p.least_peak
      then silent_sample kind name (peak_of o p samples)
      else loaded_sample kind name (length samples) (peak_of o p samples),
)
report_parsed o p kind name (err msg) = (none, parse_failed kind name msg)

-- `files` are the contents of the files by name.
unfoldable pub load_builtin_sfx :
    WavOps → PeakOps → (Text → List ℕ) → ℕ → Text → Option (List F32) × SfxReport
unfolding asset parse_wav_pcm
load_builtin_sfx o p files kind name =
    report_parsed o p kind name (parse_wav_pcm o (files (asset kind)))

unfoldable pub sfx_builtin : WavOps → PeakOps → (Text → List ℕ) → List (Option (List F32))
unfolding load_builtin_sfx
sfx_builtin o p files =
    (load_builtin_sfx o p files 0 (lit "channel_switched")).0
    ∷ (load_builtin_sfx o p files 1 (lit "neutral_switched_tocurrentchannel")).0
    ∷ (load_builtin_sfx o p files 2 (lit "neutral_switched_awayfromcurrentchannel")).0
    ∷ (load_builtin_sfx o p files 3 (lit "you_were_moved")).0
    ∷ (load_builtin_sfx o p files 4 (lit "you_kicked_channel")).0
    ∷ (load_builtin_sfx o p files 5 (lit "you_kicked_server")).0
    ∷ (load_builtin_sfx o p files 6 (lit "you_were_banned")).0
    ∷ (load_builtin_sfx o p files 7 (lit "you_were_poked")).0
    ∷ (load_builtin_sfx o p files 8 (lit "chat_message_inbound")).0
    ∷ (load_builtin_sfx o p files 9 (lit "chat_message_outbound")).0
    ∷ (load_builtin_sfx o p files 10 (lit "connected")).0
    ∷ (load_builtin_sfx o p files 11 (lit "disconnected")).0
    ∷ (load_builtin_sfx o p files 12 (lit "connection_lost")).0
    ∷ (load_builtin_sfx o p files 13 (lit "error")).0
    ∷ (load_builtin_sfx o p files 14 (lit "mic_activated")).0
    ∷ (load_builtin_sfx o p files 15 (lit "mic_muted")).0
    ∷ (load_builtin_sfx o p files 16 (lit "sound_muted")).0
    ∷ (load_builtin_sfx o p files 17 (lit "sound_resumed")).0
    ∷ (load_builtin_sfx o p files 18 (lit "away_activated")).0
    ∷ (load_builtin_sfx o p files 19 (lit "away_deactivated")).0
    ∷ (load_builtin_sfx o p files 20 (lit "channel_created")).0
    ∷ (load_builtin_sfx o p files 21 (lit "channel_deleted")).0
    ∷ (load_builtin_sfx o p files 22 (lit "channel_edited")).0
    ∷ (load_builtin_sfx o p files 23 (lit "channel_moved")).0
    ∷ (load_builtin_sfx o p files 24 (lit "channelgroup_changed")).0
    ∷ (load_builtin_sfx o p files 25 (lit "neutral_connection_connected_currentchannel")).0
    ∷ (load_builtin_sfx o p files 26 (lit "neutral_connection_disconnected_currentchannel")).0
    ∷ (load_builtin_sfx o p files 27 (lit "neutral_connection_connectionlost_currentchannel")).0
    ∷ (load_builtin_sfx o p files 28 (lit "neutral_moved_tocurrentchannel")).0
    ∷ (load_builtin_sfx o p files 29 (lit "neutral_moved_awayfromcurrentchannel")).0
    ∷ (load_builtin_sfx o p files 30 (lit "neutral_kicked_channel_tocurrentchannel")).0
    ∷ (load_builtin_sfx o p files 31 (lit "neutral_kicked_channel_awayfromcurrentchannel")).0
    ∷ (load_builtin_sfx o p files 32 (lit "neutral_kicked_server_currentchannel")).0
    ∷ (load_builtin_sfx o p files 33 (lit "neutral_banned_server_currentchannel")).0
    ∷ (load_builtin_sfx o p files 34 (lit "neutral_recording_started_currentchannel")).0
    ∷ (load_builtin_sfx o p files 35 (lit "neutral_recording_stopped_currentchannel")).0
    ∷ (load_builtin_sfx o p files 36 (lit "neutral_recording_active_currentchannel")).0
    ∷ []

-- The active samples at the start: a copy of each built-in one.
abbrev pub sfx_samples : List (Option (List F32)) → List (Option (List F32))
sfx_samples builtin = builtin
