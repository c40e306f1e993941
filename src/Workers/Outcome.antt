-- ===== src/Workers/Outcome.antt =====
-- What a download that nothing disturbs comes to.
use nek.Common.{
  ℕ, ◌+◌, ◌%◌, ◌^◌, ◌<◌, ◌≡◌, refl, ap, ◌∙◌, arith, Bool, true, false, ◌&&◌, Option, none, some,
  List, [], ◌∷◌, ◌++◌, filter, filter-append, append-nil, ==-refl, inl, inr, Bool-cases,
  Option-cases, if◌then◌else◌, ◌==◌, ltb, All,
}
use nek.Common.Text.{Text}
use nek.Common.Table.{lookup, lookup-update}
use nek.Model.{World, FtTask, TsEvent, ft_done, ft_progress, finish_ft_task}
use nek.Items.Transfer.{maybe_publish_ft_progress, is_due}
use nek.Workers.Download.{
  bytes, IoRound, io_round, note_received, store_done, end_download, incomplete, download_rounds,
  run_download,
}

abbrev is_ending : ℕ → TsEvent → Bool
is_ending id (ft_done i ok n err) = i == id
is_ending id _ = false

-- What Dart was told of the end of a task.
abbrev pub told : ℕ → World → List TsEvent
told id w = filter (is_ending id) w.state.pending_events

abbrev done_of : Option FtTask → Option ℕ
done_of none = none
done_of (some t) = some t.done

-- The bytes that the entry of a task shows.
abbrev pub transferred : ℕ → World → Option ℕ
transferred id w = done_of (lookup id w.ft_tasks)

transferred-store_done :
    (id n s : ℕ) (w : World)
    → transferred id w ≡ some n
    → transferred id (store_done id s w) ≡ some s
transferred-store_done id n s w h = elim (Option-cases (lookup id w.ft_tasks)) [
  | inl e ↦ absurd (cc (rw e at h))
  | inr (t, e) ↦ rw (lookup-update id id (λ t. record t { done = s }) w.ft_tasks, e) (ground arith)
]

transferred-progress :
    (now id n : ℕ) (w : World)
    → transferred id w ≡ some n
    → transferred id (maybe_publish_ft_progress now id false w) ≡ some n
unfolding maybe_publish_ft_progress
transferred-progress now id n w h = elim (Option-cases (lookup id w.ft_tasks)) [
  | inl e ↦ absurd (cc (rw e at h))
  | inr (t, e) ↦ elim (Bool-cases (is_due now false t.last_event)) [
    | inl d ↦
        rw (e, maybe_publish_ft_progress, d)
          (rw (lookup-update id id (λ u. record u { last_event = some now }) w.ft_tasks, e)
            (ground (arith, rw e at h)))
    | inr d ↦ rw (e, maybe_publish_ft_progress, d) h
  ]
]

told-progress :
    (now id : ℕ) (w : World) → told id (maybe_publish_ft_progress now id false w) ≡ told id w
unfolding maybe_publish_ft_progress
told-progress now id w = elim (Option-cases (lookup id w.ft_tasks)) [
  | inl e ↦ rw (e, maybe_publish_ft_progress) refl
  | inr (t, e) ↦ elim (Bool-cases (is_due now false t.last_event)) [
    | inl d ↦
        rw (e, maybe_publish_ft_progress, d)
          (filter-append (is_ending id) w.state.pending_events (ft_progress id t.done ∷ [])
            ∙ append-nil (told id w))
    | inr d ↦ rw (e, maybe_publish_ft_progress, d) refl
  ]
]

same : {a b : ℕ} → some a ≡ some b → a ≡ b
same h = ground arith

told-finish_ft_task :
    (id n : ℕ) (ok : Bool) (err : Option Text) (w : World)
    → transferred id w ≡ some n
    → told id (finish_ft_task id ok err w) ≡ told id w ++ ft_done id ok n err ∷ []
unfolding finish_ft_task
told-finish_ft_task id n ok err w h = elim (Option-cases (lookup id w.ft_tasks)) [
  | inl e ↦ absurd (cc (rw e at h))
  | inr (t, e) ↦
      rw (e, finish_ft_task)
        (filter-append (is_ending id) w.state.pending_events (ft_done id ok t.done err ∷ [])
          ∙ rw (==-refl id) (ap (λ k. told id w ++ ft_done id ok k err ∷ []) (same (rw e at h))))
]

-- A chunk that is read and written while nothing else happens, and the end of the stream.
abbrev chunk : ℕ → ℕ → IoRound
chunk now n = record {
  meanwhile = [];
  cancel_flag = false;
  now = now;
  read = bytes n;
  write_error = none;
}

abbrev pub chunks : ℕ → List ℕ → List IoRound
chunks now [] = chunk now 0 ∷ []
chunks now (n ∷ ns) = chunk now n ∷ chunks now ns

abbrev pub sum : List ℕ → ℕ
sum [] = 0
sum (n ∷ ns) = n + sum ns

-- The end that is due behind so many bytes: of a file of a known length all must have come.
abbrev pub verdict : ℕ → ℕ → ℕ → TsEvent
verdict id total received =
    if ltb 0 total && ltb received total
    then ft_done id false received (some (incomplete received total))
    else ft_done id true received none

told-end_download :
    (id total received : ℕ) (w : World)
    → transferred id w ≡ some received
    → told id (end_download id total received w) ≡ told id w ++ verdict id total received ∷ []
unfolding end_download
told-end_download id total received w h = elim (Bool-cases (ltb 0 total && ltb received total)) [
  | inl e ↦ simp e (told-finish_ft_task id received false (some (incomplete received total)) w h)
  | inr e ↦ simp e (
      told-finish_ft_task id received true none (store_done id received w)
        (transferred-store_done id received received w h))
]

told-download_rounds :
    (id total received now : ℕ) (ns : List ℕ) (w : World)
    → transferred id w ≡ some received
    → All (λ n. (n == 0) ≡ false) ns
    → received + sum ns < 2 ^ 64
    → told id (download_rounds id total received (chunks now ns) w).0
      ≡ told id w ++ verdict id total (received + sum ns) ∷ []
unfolding download_rounds io_round
told-download_rounds id total received now [] w h all bound =
    told-end_download id total received w h
    ∙ ap (λ k. told id w ++ verdict id total k ∷ []) (omega arith)
told-download_rounds id total received now (n ∷ ns) w h all bound =
    let s = (received + n) % 2 ^ 64 in
    let v = note_received now id s w in
    simp all.0 (
      told-download_rounds id total s now ns v
        (transferred-progress now id s (store_done id s w)
          (transferred-store_done id received s w h))
        all.1 (omega arith)
      ∙ ap (λ es. es ++ verdict id total (s + sum ns) ∷ [])
          (told-progress now id (store_done id s w))
      ∙ ap (λ k. told id w ++ verdict id total k ∷ []) (omega arith))

-- A download of a task that has no byte yet, whose file can be created and whose chunks are read
-- and written with no error, no cancel and no other step in between, and make less than 2 ^ 64
-- bytes: Dart is told of one end of it, of a success if all the announced bytes came or none were
-- announced, of a failure that names both numbers otherwise, each time with the bytes that came.
pub told-run_download :
    (id total now : ℕ) (ns : List ℕ) (w : World)
    → transferred id w ≡ some 0
    → All (λ n. (n == 0) ≡ false) ns
    → sum ns < 2 ^ 64
    → told id (run_download id total none (chunks now ns) w).0
      ≡ told id w ++ verdict id total (sum ns) ∷ []
unfolding run_download
told-run_download id total now ns w h all bound = elim (Option-cases (lookup id w.ft_tasks)) [
  | inl e ↦ absurd (cc (rw e at h))
  | inr (t, e) ↦
      rw (e, run_download)
        (told-download_rounds id total 0 now ns w h all (omega arith)
          ∙ ap (λ k. told id w ++ verdict id total k ∷ []) (omega arith))
]
