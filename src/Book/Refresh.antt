-- ===== src/Book/Refresh.antt =====
-- `refresh_from_book`: the roster for Dart, made of the library's book.
use nek.Common.{
  ℕ, ◌+◌, ◌-◌, ◌%◌, ◌^◌, Bool, true, false, Option, none, some, List, [], ◌∷◌, map, if◌then◌else◌,
  ltb, is_some, is_empty, unwrap_or, ◌==◌,
}
use nek.Common.Text.{Text}
use nek.Common.Table.{Table, lookup, insert}
use nek.Common.TextTable.{lookup as lookup_text}
use nek.Model.{
  World, F32, TsChannel, TsClient, TsServerGroup, TsChannelGroup, ClientJitterBuffer, pos,
}
use nek.Book.Data.{Book, BookClient, BookChannel, BookGroup, ClientType, normal, query}

-- The functions of f32 that turn a gain into decibels.
pub record GainOps : Type 0 where
  pub max : F32 → F32 → F32
  pub log10 : F32 → F32
  pub mul : F32 → F32 → F32

abbrev pub values {ℓ} : {V : Type ℓ} → Table V → List V
values m = map (λ e. e.1) m

-- *count.entry(channel).or_insert(0) += 1
abbrev count_one : ℕ → Table ℕ → Table ℕ
count_one channel count = insert channel (unwrap_or (lookup channel count) 0 + 1) count

unfoldable pub count_clients : List BookClient → Table ℕ → Table ℕ
count_clients [] count = count
count_clients (c ∷ cs) count = count_clients cs (count_one c.channel count)

abbrev pub server_group_of : BookGroup → TsServerGroup
server_group_of g = record {
  id = g.id;
  name = g.name;
  is_permanent = g.is_permanent;
  needed_member_add_power = g.needed_member_add_power;
  needed_member_remove_power = g.needed_member_remove_power;
  sort_id = g.sort_id;
}

abbrev pub channel_group_of : BookGroup → TsChannelGroup
channel_group_of g = record {
  id = g.id;
  name = g.name;
  is_permanent = g.is_permanent;
  needed_member_add_power = g.needed_member_add_power;
  needed_member_remove_power = g.needed_member_remove_power;
  sort_id = g.sort_id;
}

abbrev pub channel_of : Table ℕ → BookChannel → TsChannel
channel_of count c = record {
  id = c.id % 2 ^ 32;
  name = c.name;
  parent_id = if c.parent == 0 then 0 else c.parent % 2 ^ 32;
  topic = unwrap_or c.topic [];
  has_password = unwrap_or c.has_password false;
  client_count = unwrap_or (lookup c.id count) 0;
  order = c.order % 2 ^ 32;
  is_default = unwrap_or c.is_default false;
  permission_hints = unwrap_or c.permission_hints 0;
  needed_talk_power = unwrap_or c.needed_talk_power (pos 0);
}

-- The names of the groups that the book knows.
abbrev group_names : Table BookGroup → List ℕ → List Text
group_names groups [] = []
group_names groups (g ∷ gs) =
    let rest = group_names groups gs in
    elim (lookup g groups) [ none ↦ rest | some sg ↦ sg.name ∷ rest ]

abbrev client_type_code : ClientType → ℕ
client_type_code normal = 0
client_type_code (query false) = 1
client_type_code (query true) = 2

-- Whether the last packet of a client came less than half a second ago.
abbrev talks : ℕ → Option ℕ → Bool
talks now none = false
talks now (some t) = ltb (now - t) 500

abbrev persisted_volume : Option Text → World → Option F32
persisted_volume none w = none
persisted_volume (some uid) w = lookup_text uid w.state.client_volumes

abbrev buffer_volume : GainOps → Option ClientJitterBuffer → F32
buffer_volume o none = 0
buffer_volume o (some b) = o.mul 0x41a0_0000 (o.log10 (o.max b.volume 0x2edb_e6ff))

-- The value that was set for the user, else that of the gain in use.
unfoldable pub volume_of : GainOps → BookClient → World → F32
volume_of o c w = elim (persisted_volume c.uid w) [
  | none ↦ buffer_volume o (lookup (c.id % 2 ^ 16) w.client_buffers)
  | some db ↦ db
]

abbrev pub client_of : GainOps → ℕ → Book → World → BookClient → TsClient
unfolding volume_of
client_of o now book w c = record {
  id = c.id % 2 ^ 32;
  nickname = c.name;
  channel_id = c.channel % 2 ^ 32;
  away = is_some c.away_message;
  input_muted = c.input_muted;
  output_muted = c.output_muted;
  is_talking = talks now (lookup (c.id % 2 ^ 16) w.state.talking_clients);
  volume = volume_of o c w;
  uid = c.uid;
  avatar_hash = if is_empty c.avatar_hash then none else some c.avatar_hash;
  database_id = c.database_id;
  client_type = client_type_code c.client_type;
  is_channel_commander = c.is_channel_commander;
  is_recording = c.is_recording;
  is_priority_speaker = c.is_priority_speaker;
  talk_power_granted = c.talk_power_granted;
  talk_power = c.talk_power;
  permission_hints = unwrap_or c.permission_hints 0;
  server_groups = c.server_groups;
  server_group_names = group_names book.book_server_groups c.server_groups;
  channel_group = c.channel_group % 2 ^ 32;
}

-- The group caches are written, the channels and the clients returned.
unfoldable pub refresh_from_book :
    GainOps → ℕ → Book → World → World × (List TsChannel × List TsClient)
unfolding count_clients
refresh_from_book o now book w =
    let count = count_clients (values book.clients) [] in
    let v : World = record w {
      state = record w.state {
        server_groups = map server_group_of (values book.book_server_groups);
        channel_groups = map channel_group_of (values book.book_channel_groups);
      };
    } in
    (
      v,
      (
        map (channel_of count) (values book.channels),
        map (client_of o now book v) (values book.clients),
      ),
    )
