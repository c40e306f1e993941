-- ===== src/Workers/Termination.antt =====
-- The workers come to an end: with the end of the source, with an error, or with a cancel.
use nek.Common.{
  ℕ, zero, suc, ◌+◌, ◌%◌, ◌^◌, ◌≤◌, ◌≡◌, refl, arith, Bool, true, false, ◌||◌, Option, none, some,
  List, [], ◌∷◌, any, length, is_some, inl, inr, Bool-cases, Option-cases, ◌==◌,
}
use nek.Common.Text.{Text}
use nek.Common.Table.{lookup, contains_key}
use nek.Model.{World}
use nek.Items.Done.Steps.{take_steps}
use nek.Workers.Download.{
  IoRead, bytes, read_error, IoRound, count, io_round, note_received, end_download, download_rounds,
  run_download,
}
use nek.Workers.Upload.{
  StatusPoll, await_status, status_polls, note_sent, end_upload, upload_rounds, run_upload,
}

abbrev is_end : IoRead → Bool
is_end (bytes n) = n == 0
is_end (read_error e) = true

-- A round behind which no round follows.
abbrev pub is_last_round : IoRound → Bool
is_last_round r = r.cancel_flag || is_end r.read || is_some r.write_error

io_round_last :
    (id : ℕ) (flag : Bool) (read : IoRead) (write_error : Option Text) (w : World)
    (at_end rest : World × Bool)
    → at_end.1 ≡ true
    → (flag || is_end read || is_some write_error) ≡ true
    → (io_round id flag read write_error w at_end rest).1 ≡ true
unfolding io_round
io_round_last id true read we w e r h k = refl
io_round_last id false (read_error t) we w e r h k = refl
io_round_last id false (bytes n) (some t) w e r h k = elim (Bool-cases (n == 0)) [
  | inl z ↦ rw z h
  | inr z ↦ rw z refl
]
io_round_last id false (bytes n) none w e r h k = elim (Bool-cases (n == 0)) [
  | inl z ↦ rw z h
  | inr z ↦ absurd (cc (rw z at k))
]

io_round_more :
    (id : ℕ) (flag : Bool) (read : IoRead) (write_error : Option Text) (w : World)
    (at_end rest : World × Bool)
    → at_end.1 ≡ true
    → rest.1 ≡ true
    → (io_round id flag read write_error w at_end rest).1 ≡ true
unfolding io_round
io_round_more id true read we w e r h k = refl
io_round_more id false (read_error t) we w e r h k = refl
io_round_more id false (bytes n) (some t) w e r h k = elim (Bool-cases (n == 0)) [
  | inl z ↦ rw z h
  | inr z ↦ rw z refl
]
io_round_more id false (bytes n) none w e r h k = elim (Bool-cases (n == 0)) [
  | inl z ↦ rw z h
  | inr z ↦ rw z k
]

download_rounds_end :
    (id total received : ℕ) (rounds : List IoRound) (w : World)
    → any is_last_round rounds ≡ true
    → (download_rounds id total received rounds w).1 ≡ true
unfolding download_rounds
download_rounds_end id total received [] w h = absurd (cc h)
download_rounds_end id total received (r ∷ rounds) w h =
    let v = take_steps r.meanwhile w in
    let sum = (received + count r.read) % 2 ^ 64 in
    elim (Bool-cases (is_last_round r)) [
      | inl e ↦
          io_round_last id r.cancel_flag r.read r.write_error v
            (end_download id total received v, true)
            (download_rounds id total sum rounds (note_received r.now id sum v)) refl e
      | inr e ↦
          io_round_more id r.cancel_flag r.read r.write_error v
            (end_download id total received v, true)
            (download_rounds id total sum rounds (note_received r.now id sum v)) refl
            (download_rounds_end id total sum rounds (note_received r.now id sum v) (simp e at h))
    ]

-- A download worker is done when one of its rounds meets a cancel, the end of the stream, or an
-- error of the socket or of the disk.
pub run_download_ends :
    (id total : ℕ) (create_error : Option Text) (rounds : List IoRound) (w : World)
    → any is_last_round rounds ≡ true
    → (run_download id total create_error rounds w).1 ≡ true
unfolding run_download
run_download_ends id total create_error rounds w h = elim (Option-cases (lookup id w.ft_tasks)) [
  | inl e ↦ rw (e, run_download) refl
  | inr (t, e) ↦ elim (Option-cases create_error) [
    | inl c ↦ rw (e, run_download, c) (download_rounds_end id total 0 rounds w h)
    | inr (c, d) ↦ rw (e, run_download, d) refl
  ]
]

await_status_ends :
    (id left : ℕ) (polls : List StatusPoll) (w : World)
    → left ≤ length polls
    → (await_status id left polls w).1 ≡ true
unfolding await_status
await_status_ends id zero polls w h = refl
await_status_ends id (suc left) [] w h = absurd (omega arith)
await_status_ends id (suc left) (p ∷ polls) w h =
    let v = take_steps p.meanwhile w in
    elim (Bool-cases (contains_key id v.ft_tasks)) [
      | inl there ↦ elim (Bool-cases p.cancel_flag) [
        | inl c ↦ simp (there, c) refl
        | inr c ↦ simp (there, c) (await_status_ends id left polls v (omega arith))
      ]
      | inr gone ↦ simp gone refl
    ]

end_upload_ends :
    (id : ℕ) (flush_error : Option Text) (polls : List StatusPoll) (w : World)
    → status_polls ≤ length polls
    → (end_upload id flush_error polls w).1 ≡ true
unfolding await_status
end_upload_ends id (some e) polls w h = refl
end_upload_ends id none polls w h = await_status_ends id status_polls polls w h

upload_rounds_end :
    (id : ℕ) (flush_error : Option Text) (polls : List StatusPoll) (rounds : List IoRound)
    (w : World)
    → any is_last_round rounds ≡ true
    → status_polls ≤ length polls
    → (upload_rounds id flush_error polls rounds w).1 ≡ true
unfolding upload_rounds
upload_rounds_end id fe polls [] w h k = absurd (cc h)
upload_rounds_end id fe polls (r ∷ rounds) w h k =
    let v = take_steps r.meanwhile w in
    let next = note_sent r.now id (count r.read) v in
    elim (Bool-cases (is_last_round r)) [
      | inl e ↦
          io_round_last id r.cancel_flag r.read r.write_error v (end_upload id fe polls v)
            (upload_rounds id fe polls rounds next) (end_upload_ends id fe polls v k) e
      | inr e ↦
          io_round_more id r.cancel_flag r.read r.write_error v (end_upload id fe polls v)
            (upload_rounds id fe polls rounds next) (end_upload_ends id fe polls v k)
            (upload_rounds_end id fe polls rounds next (simp e at h) k)
    ]

-- An upload worker is done when one of its rounds meets a cancel, the end of the file, or an error
-- of the file or of the socket, and 32 quarters of a second have passed behind it: it waits for
-- the final status no longer.
pub run_upload_ends :
    (id : ℕ) (open_error flush_error : Option Text) (rounds : List IoRound)
    (polls : List StatusPoll) (w : World)
    → any is_last_round rounds ≡ true
    → status_polls ≤ length polls
    → (run_upload id open_error flush_error rounds polls w).1 ≡ true
unfolding run_upload
run_upload_ends id open_error fe rounds polls w h k = elim (Option-cases (lookup id w.ft_tasks)) [
  | inl e ↦ rw (e, run_upload) refl
  | inr (t, e) ↦ elim (Option-cases open_error) [
    | inl c ↦ rw (e, run_upload, c) (upload_rounds_end id fe polls rounds w h k)
    | inr (c, d) ↦ rw (e, run_upload, d) refl
  ]
]
