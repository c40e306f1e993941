-- ===== src/Items/Progress.antt =====
-- How often Dart is told of the progress of a transfer.
use nek.Common.{ℕ, ◌+◌, ◌<◌, ◌≡◌, refl, true, false, Option, none, some, arith, ==-refl}
use nek.Common.Table.{lookup, lookup-update}
use nek.Model.{World, FtTask}
use nek.Items.Transfer.{is_due, maybe_publish_ft_progress}

quiet :
    (now task_id : ℕ) (t : FtTask) (w : World)
    → lookup task_id w.ft_tasks ≡ some t
    → is_due now false t.last_event ≡ false
    → maybe_publish_ft_progress now task_id false w ≡ w
unfolding maybe_publish_ft_progress
quiet now task_id t w h d = rw (h, maybe_publish_ft_progress, d)

forced : (now : ℕ) (last : Option ℕ) → is_due now true last ≡ true
forced now none = refl
forced now (some t) = refl

stamped :
    (now task_id : ℕ) (t : FtTask) (w : World)
    → lookup task_id w.ft_tasks ≡ some t
    → lookup task_id (maybe_publish_ft_progress now task_id true w).ft_tasks
      ≡ some (record t { last_event = some now })
unfolding maybe_publish_ft_progress
stamped now task_id t w h =
    rw (h, maybe_publish_ft_progress, forced, lookup-update, ==-refl task_id, h)

not_due : (now later : ℕ) → later < now + 500 → is_due later false (some now) ≡ false
not_due now later h = ground arith

-- Once Dart was told of the progress of a task that is there, an attempt that is not forced
-- changes nothing until half a second has passed.
pub maybe_publish_ft_progress_throttled :
    (now later task_id : ℕ) (t : FtTask) (w : World)
    → lookup task_id w.ft_tasks ≡ some t
    → later < now + 500
    → let v = maybe_publish_ft_progress now task_id true w in
      maybe_publish_ft_progress later task_id false v ≡ v
maybe_publish_ft_progress_throttled now later task_id t w h l =
    quiet later task_id (record t { last_event = some now })
      (maybe_publish_ft_progress now task_id true w) (stamped now task_id t w h)
      (not_due now later l)
