-- ===== src/Sound/Kind.antt =====
-- The ids of the sounds (the `SFX_` constants of native/src/api.rs).
use nek.Common.{ℕ}

abbrev pub channel_switched : ℕ
channel_switched = 1

abbrev pub neutral_to_current : ℕ
neutral_to_current = 2

abbrev pub neutral_away_from_current : ℕ
neutral_away_from_current = 3

abbrev pub you_were_moved : ℕ
you_were_moved = 4

abbrev pub you_kicked_channel : ℕ
you_kicked_channel = 5

abbrev pub you_kicked_server : ℕ
you_kicked_server = 6

abbrev pub you_were_banned : ℕ
you_were_banned = 7

abbrev pub you_were_poked : ℕ
you_were_poked = 8

abbrev pub chat_inbound : ℕ
chat_inbound = 9

abbrev pub chat_outbound : ℕ
chat_outbound = 10

abbrev pub connected : ℕ
connected = 11

abbrev pub disconnected : ℕ
disconnected = 12

abbrev pub connection_lost : ℕ
connection_lost = 13

abbrev pub error : ℕ
error = 14

abbrev pub mic_activated : ℕ
mic_activated = 15

abbrev pub mic_muted : ℕ
mic_muted = 16

abbrev pub sound_muted : ℕ
sound_muted = 17

abbrev pub sound_resumed : ℕ
sound_resumed = 18

abbrev pub away_activated : ℕ
away_activated = 19

abbrev pub away_deactivated : ℕ
away_deactivated = 20

abbrev pub channel_created : ℕ
channel_created = 21

abbrev pub channel_deleted : ℕ
channel_deleted = 22

abbrev pub channel_edited : ℕ
channel_edited = 23

abbrev pub channel_moved : ℕ
channel_moved = 24

abbrev pub channelgroup_changed : ℕ
channelgroup_changed = 25

abbrev pub neutral_conn_connected : ℕ
neutral_conn_connected = 26

abbrev pub neutral_conn_disconnected : ℕ
neutral_conn_disconnected = 27

abbrev pub neutral_conn_lost : ℕ
neutral_conn_lost = 28

abbrev pub neutral_moved_to_current : ℕ
neutral_moved_to_current = 29

abbrev pub neutral_moved_away : ℕ
neutral_moved_away = 30

abbrev pub neutral_kicked_ch_to_current : ℕ
neutral_kicked_ch_to_current = 31

abbrev pub neutral_kicked_ch_away : ℕ
neutral_kicked_ch_away = 32

abbrev pub neutral_kicked_server : ℕ
neutral_kicked_server = 33

abbrev pub neutral_banned_server : ℕ
neutral_banned_server = 34

abbrev pub neutral_recording_started : ℕ
neutral_recording_started = 35

abbrev pub neutral_recording_stopped : ℕ
neutral_recording_stopped = 36

abbrev pub neutral_recording_active : ℕ
neutral_recording_active = 37
