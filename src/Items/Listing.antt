-- ===== src/Items/Listing.antt =====
-- Directory listings: the rows, the marker that ends them, and the deferred end of the request.
use nek.Common.{
  ℕ, Bool, true, not, ◌&&◌, Option, none, some, List, [], ◌∷◌, ◌++◌, length, if◌then◌else◌, ◌==◌,
}
use nek.Common.Text.{Text, lit, decimal, text_eq}
use nek.Common.Table.{Table, lookup, remove, update}
use nek.Model.{
  World, PendingFtList, TsFtEntry, ft_list_finish, ft_listing, push_event, push_diag, spawn,
}
use nek.RemotePath.{parse_return_code}

abbrev pub finish_delay : ℕ
finish_delay = 600

-- Spawns the end of a listing once: nothing happens if it is unknown or has its end scheduled.
unfoldable pub schedule_ft_list_finish : ℕ → World → World
schedule_ft_list_finish code w = elim (lookup code w.ft_lists) [
  | none ↦ w
  | some p ↦
      if p.finalize_scheduled
      then w
      else spawn finish_delay (ft_list_finish code) (record w {
        ft_lists = update code (λ q. record q { finalize_scheduled = true }) w.ft_lists;
      })
]

-- The body that is spawned: takes the listing out and emits what was collected.
unfoldable pub run_ft_list_finish : ℕ → World → World
unfolding push_diag
run_ft_list_finish code w = elim (lookup code w.ft_lists) [
  | none ↦ w
  | some p ↦ push_event (ft_listing p.token p.entries p.result_error) (
      push_diag
        (lit "ft list "
          ++ p.token
          ++ lit ": finalize entries="
          ++ decimal (length p.entries)
          ++ lit " result="
          ++ (if p.result_ok then lit "ok" else lit "error"))
        (record w { ft_lists = remove code w.ft_lists }))
]

-- A frame of rows for a return code that is known.
unfoldable pub add_rows : ℕ → List TsFtEntry → World → World
unfolding push_diag
add_rows code rows w = elim (lookup code w.ft_lists) [
  | none ↦ push_diag (lit "ft list frame for unknown return code") w
  | some p ↦
      push_diag
        (lit "ft list "
          ++ p.token
          ++ lit ": frame +"
          ++ decimal (length rows)
          ++ lit " (total "
          ++ decimal (length (p.entries ++ rows))
          ++ lit ")")
        (record w {
          ft_lists = update code (λ q. record q { entries = q.entries ++ rows }) w.ft_lists;
        })
]

abbrev pub code_of : Option Text → Option ℕ
code_of none = none
code_of (some rc) = parse_return_code rc

-- A frame of a listing: its rows are kept under the return code that it echoes.
unfoldable pub on_file_list : Option Text → List TsFtEntry → World → World
unfolding add_rows
on_file_list return_code rows w = elim (code_of return_code) [
  | none ↦ w
  | some code ↦ add_rows code rows w
]

abbrev matches : ℕ → Text → PendingFtList → Bool
matches cid path p = p.cid == cid && text_eq p.path path && not p.finished_seen

-- Marks the listings of one directory as finished, and gathers their return codes.
unfoldable pub mark_finished : ℕ → Text → Table PendingFtList → Table PendingFtList × List ℕ
mark_finished cid path [] = ([], [])
mark_finished cid path ((code, p) ∷ m) =
    let (rest, found) = mark_finished cid path m in
    if matches cid path p
    then ((code, record p { finished_seen = true }) ∷ rest, code ∷ found)
    else ((code, p) ∷ rest, found)

unfoldable pub mark_all : List (ℕ × Text) → Table PendingFtList → Table PendingFtList × List ℕ
unfolding mark_finished
mark_all [] m = (m, [])
mark_all ((cid, path) ∷ parts) m =
    let (m', found) = mark_finished cid path m in
    let (m'', more) = mark_all parts m' in (m'', found ++ more)

unfoldable pub schedule_all : List ℕ → World → World
unfolding schedule_ft_list_finish
schedule_all [] w = w
schedule_all (code ∷ codes) w = schedule_all codes (schedule_ft_list_finish code w)

-- The marker names directories only: every listing of one of them ends.
unfoldable pub on_file_list_finished : List (ℕ × Text) → World → World
unfolding mark_all schedule_all
on_file_list_finished parts w =
    let (lists, codes) = mark_all parts w.ft_lists in
    schedule_all codes (record w { ft_lists = lists })
