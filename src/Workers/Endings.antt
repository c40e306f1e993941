-- ===== src/Workers/Endings.antt =====
-- A worker ends its task, once, whatever the other threads do in between.
use nek.Common.{
  ℕ, zero, suc, ◌+◌, ◌%◌, ◌^◌, ◌≡◌, refl, ◌∙◌, arith, Bool, true, false, Option, none, some, List,
  [], ◌∷◌, inl, inr, Bool-cases, Option-cases, ◌==◌, ltb, ◌&&◌,
}
use nek.Common.Text.{Text}
use nek.Common.Table.{Table, lookup, contains_key, lookup-remove}
use nek.Model.{World, finish_ft_task}
use nek.Items.Done.{due_endings, endings, alive-update, due-progress, due_endings-finish_ft_task}
use nek.Items.Done.Steps.{take_steps, due_endings-take_steps}
use nek.Workers.Download.{
  IoRead, bytes, read_error, IoRound, count, io_round, store_done, note_received, end_download,
  download_rounds, run_download,
}
use nek.Workers.Upload.{
  StatusPoll, await_status, status_polls, add_done, note_sent, end_upload, upload_rounds,
  run_upload,
}

-- What a worker that started in a state has come to: its task still owes what it owed, and if the
-- worker is done, the task is gone.
data Settled (id n : ℕ) : World × Bool → Type 0 where
  running : (w : World) → due_endings id w ≡ n → Settled id n (w, false)
  done : (w : World) → due_endings id w ≡ n → lookup id w.ft_tasks ≡ none → Settled id n (w, true)

gone-finish_ft_task :
    (id : ℕ) (ok : Bool) (err : Option Text) (w : World)
    → lookup id (finish_ft_task id ok err w).ft_tasks ≡ none
unfolding finish_ft_task
gone-finish_ft_task id ok err w = elim (Option-cases (lookup id w.ft_tasks)) [
  | inl e ↦ rw (e, finish_ft_task) e
  | inr (t, e) ↦ rw (e, finish_ft_task) (ground (arith, lookup-remove id id w.ft_tasks))
]

finish-Settled :
    (id n : ℕ) (ok : Bool) (err : Option Text) (w : World)
    → due_endings id w ≡ n
    → Settled id n (finish_ft_task id ok err w, true)
finish-Settled id n ok err w h =
    done (finish_ft_task id ok err w) (due_endings-finish_ft_task id id ok err w ∙ h)
      (gone-finish_ft_task id ok err w)

due-store_done : (id k sum : ℕ) (w : World) → due_endings id (store_done k sum w) ≡ due_endings id w
unfolding due_endings
due-store_done id k sum w =
    omega (arith, alive-update id k (λ t. record t { done = sum }) w.ft_tasks)

due-add_done : (id k n : ℕ) (w : World) → due_endings id (add_done k n w) ≡ due_endings id w
unfolding due_endings
due-add_done id k n w =
    omega (arith, alive-update id k (λ t. record t { done = (t.done + n) % 2 ^ 64 }) w.ft_tasks)

end_download-Settled :
    (id n total received : ℕ) (w : World)
    → due_endings id w ≡ n
    → Settled id n (end_download id total received w, true)
unfolding end_download
end_download-Settled id n total received w h =
    elim (Bool-cases (ltb 0 total && ltb received total)) [
      | inl e ↦ rw e (finish-Settled id n false _ w h)
      | inr e ↦ rw e (
          finish-Settled id n true none (store_done id received w)
            (due-store_done id id received w ∙ h))
    ]

io_round-Settled :
    (id n : ℕ) (flag : Bool) (read : IoRead) (write_error : Option Text) (w : World)
    {at_end rest : World × Bool}
    → due_endings id w ≡ n
    → Settled id n at_end
    → Settled id n rest
    → Settled id n (io_round id flag read write_error w at_end rest)
unfolding io_round
io_round-Settled id n true read we w h e r = finish-Settled id n false _ w h
io_round-Settled id n false (read_error t) we w h e r = finish-Settled id n false _ w h
io_round-Settled id n false (bytes k) none w h e r = elim (Bool-cases (k == 0)) [
  | inl z ↦ rw z e
  | inr z ↦ rw z r
]
io_round-Settled id n false (bytes k) (some t) w h e r = elim (Bool-cases (k == 0)) [
  | inl z ↦ rw z e
  | inr z ↦ rw z (finish-Settled id n false _ w h)
]

download_rounds-Settled :
    (id n total received : ℕ) (rounds : List IoRound) (w : World)
    → due_endings id w ≡ n
    → Settled id n (download_rounds id total received rounds w)
unfolding download_rounds
download_rounds-Settled id n total received [] w h = running w h
download_rounds-Settled id n total received (r ∷ rounds) w h =
    let v = take_steps r.meanwhile w in
    let kept = due_endings-take_steps id r.meanwhile w ∙ h in
    let sum = (received + count r.read) % 2 ^ 64 in
    io_round-Settled id n r.cancel_flag r.read r.write_error v kept
      (end_download-Settled id n total received v kept)
      (download_rounds-Settled id n total sum rounds (note_received r.now id sum v)
        (due-progress id r.now id false (store_done id sum v) ∙ due-store_done id id sum v ∙ kept))

run_download-Settled :
    (id total : ℕ) (create_error : Option Text) (rounds : List IoRound) (w : World)
    → Settled id (due_endings id w) (run_download id total create_error rounds w)
unfolding run_download
run_download-Settled id total create_error rounds w = elim (Option-cases (lookup id w.ft_tasks)) [
  | inl e ↦ rw (e, run_download) (done w refl e)
  | inr (t, e) ↦ elim (Option-cases create_error) [
    | inl c ↦ rw (e, run_download, c) (download_rounds-Settled id _ total 0 rounds w refl)
    | inr (c, d) ↦ rw (e, run_download, d) (finish-Settled id _ false _ w refl)
  ]
]

absent-contains_key :
    {V : Type 0} (k : ℕ) (m : Table V) → contains_key k m ≡ false → lookup k m ≡ none
unfolding contains_key lookup
absent-contains_key k [] h = refl
absent-contains_key k ((j, v) ∷ m) h = elim (Bool-cases (j == k)) [
  | inl e ↦ absurd (cc (rw e at h))
  | inr e ↦ rw e (absent-contains_key k m (rw e at h))
]

await_status-Settled :
    (id n left : ℕ) (polls : List StatusPoll) (w : World)
    → due_endings id w ≡ n
    → Settled id n (await_status id left polls w)
unfolding await_status
await_status-Settled id n zero polls w h = finish-Settled id n true none w h
await_status-Settled id n (suc left) [] w h = running w h
await_status-Settled id n (suc left) (p ∷ polls) w h =
    let v = take_steps p.meanwhile w in
    let kept = due_endings-take_steps id p.meanwhile w ∙ h in
    elim (Bool-cases (contains_key id v.ft_tasks)) [
      | inl there ↦ elim (Bool-cases p.cancel_flag) [
        | inl c ↦ simp (there, c) (finish-Settled id n false _ v kept)
        | inr c ↦ simp (there, c) (await_status-Settled id n left polls v kept)
      ]
      | inr gone ↦ simp gone (done v kept (absent-contains_key id v.ft_tasks gone))
    ]

end_upload-Settled :
    (id n : ℕ) (flush_error : Option Text) (polls : List StatusPoll) (w : World)
    → due_endings id w ≡ n
    → Settled id n (end_upload id flush_error polls w)
unfolding await_status
end_upload-Settled id n (some e) polls w h = finish-Settled id n false _ w h
end_upload-Settled id n none polls w h = await_status-Settled id n status_polls polls w h

upload_rounds-Settled :
    (id n : ℕ) (flush_error : Option Text) (polls : List StatusPoll) (rounds : List IoRound)
    (w : World)
    → due_endings id w ≡ n
    → Settled id n (upload_rounds id flush_error polls rounds w)
unfolding upload_rounds
upload_rounds-Settled id n fe polls [] w h = running w h
upload_rounds-Settled id n fe polls (r ∷ rounds) w h =
    let v = take_steps r.meanwhile w in
    let kept = due_endings-take_steps id r.meanwhile w ∙ h in
    let k = count r.read in
    io_round-Settled id n r.cancel_flag r.read r.write_error v kept
      (end_upload-Settled id n fe polls v kept)
      (upload_rounds-Settled id n fe polls rounds (note_sent r.now id k v)
        (due-progress id r.now id false (add_done id k v) ∙ due-add_done id id k v ∙ kept))

run_upload-Settled :
    (id : ℕ) (open_error flush_error : Option Text) (rounds : List IoRound)
    (polls : List StatusPoll) (w : World)
    → Settled id (due_endings id w) (run_upload id open_error flush_error rounds polls w)
unfolding run_upload
run_upload-Settled id open_error fe rounds polls w = elim (Option-cases (lookup id w.ft_tasks)) [
  | inl e ↦ rw (e, run_upload) (done w refl e)
  | inr (t, e) ↦ elim (Option-cases open_error) [
    | inl c ↦ rw (e, run_upload, c) (upload_rounds-Settled id _ fe polls rounds w refl)
    | inr (c, d) ↦ rw (e, run_upload, d) (finish-Settled id _ false _ w refl)
  ]
]

Settled-endings :
    (id n : ℕ) (r : World × Bool)
    → Settled id n r
    → r.1 ≡ true
    → (lookup id r.0.ft_tasks ≡ none) × (endings id r.0.state.pending_events ≡ n)
unfolding due_endings
Settled-endings id n _ (running w h) e = absurd (cc e)
Settled-endings id n _ (done w h gone) e = (gone, omega (arith, simp gone at h))

-- A download worker that is done has ended its task, whatever the socket and the disk gave it and
-- whatever steps other threads took in between, cancels and final statuses too: the task is gone,
-- and Dart was told of as many endings of it as were told or due when the worker started, so of
-- one for a task that was there and had no ending told.
pub run_download_settles :
    (id total : ℕ) (create_error : Option Text) (rounds : List IoRound) (w : World)
    → (run_download id total create_error rounds w).1 ≡ true
    → (lookup id (run_download id total create_error rounds w).0.ft_tasks ≡ none)
      × (endings id (run_download id total create_error rounds w).0.state.pending_events
          ≡ due_endings id w)
run_download_settles id total create_error rounds w =
    Settled-endings id (due_endings id w) (run_download id total create_error rounds w)
      (run_download-Settled id total create_error rounds w)

-- The same of an upload worker, the wait for the final status included: when it is done, the task
-- is gone, and Dart was told of as many endings of it as were told or due at the start, also where
-- the status handler ended the task while the worker waited.
pub run_upload_settles :
    (id : ℕ) (open_error flush_error : Option Text) (rounds : List IoRound)
    (polls : List StatusPoll) (w : World)
    → (run_upload id open_error flush_error rounds polls w).1 ≡ true
    → (lookup id (run_upload id open_error flush_error rounds polls w).0.ft_tasks ≡ none)
      × (endings id (run_upload id open_error flush_error rounds polls w).0.state.pending_events
          ≡ due_endings id w)
run_upload_settles id open_error flush_error rounds polls w =
    Settled-endings id (due_endings id w) (run_upload id open_error flush_error rounds polls w)
      (run_upload-Settled id open_error flush_error rounds polls w)
