-- ===== src/Items/Collect.antt =====
-- A listing is collected in full and told once.
use nek.Common.{
  ℕ, ◌≡◌, refl, ap, ◌∙◌, Bool, true, false, none, some, List, [], ◌∷◌, ◌++◌, inl, inr, Bool-cases,
  Option-cases, filter, filter-append, append_assoc, append-nil, ==-refl,
}
use nek.Common.Text.{Text}
use nek.Common.Table.{Table, lookup, update, lookup-update, lookup-remove}
use nek.Model.{World, TsEvent, ft_listing, TsFtEntry, PendingFtList, push_diag}
use nek.Items.Listing.{add_rows, schedule_ft_list_finish, run_ft_list_finish}

-- The events that are listings.
abbrev is_listing : TsEvent → Bool
is_listing (ft_listing token entries err) = true
is_listing _ = false

abbrev pub listings : World → List TsEvent
listings w = filter is_listing w.state.pending_events

-- The frames of a listing, one after the other.
abbrev pub add_frames : ℕ → List (List TsFtEntry) → World → World
add_frames code [] w = w
add_frames code (rows ∷ frames) w = add_frames code frames (add_rows code rows w)

abbrev pub concat : List (List TsFtEntry) → List TsFtEntry
concat [] = []
concat (rows ∷ frames) = rows ++ concat frames

listings-push_diag : (t : Text) (w : World) → listings (push_diag t w) ≡ listings w
unfolding push_diag
listings-push_diag t w = filter-append is_listing w.state.pending_events _ ∙ append-nil _

abbrev with_rows : List TsFtEntry → PendingFtList → PendingFtList
with_rows rows p = record p { entries = p.entries ++ rows }

lookup-update_self :
    (code : ℕ) (f : PendingFtList → PendingFtList) (m : Table PendingFtList) (p : PendingFtList)
    → lookup code m ≡ some p
    → lookup code (update code f m) ≡ some (f p)
lookup-update_self code f m p h = rw (lookup-update code code f m, ==-refl code, h)

lists-push_diag : (t : Text) (w : World) → (push_diag t w).ft_lists ≡ w.ft_lists
unfolding push_diag
lists-push_diag t w = refl

lookup-add_rows :
    (code : ℕ) (rows : List TsFtEntry) (w : World) (p : PendingFtList)
    → lookup code w.ft_lists ≡ some p
    → lookup code (add_rows code rows w).ft_lists ≡ some (with_rows rows p)
unfolding add_rows
lookup-add_rows code rows w p h =
    rw (h, add_rows, lists-push_diag) (lookup-update_self code (with_rows rows) w.ft_lists p h)

listings-add_rows :
    (code : ℕ) (rows : List TsFtEntry) (w : World) → listings (add_rows code rows w) ≡ listings w
unfolding add_rows
listings-add_rows code rows w = elim (Option-cases (lookup code w.ft_lists)) [
  | inl e ↦ rw (e, add_rows, listings-push_diag)
  | inr (p, e) ↦ rw (e, add_rows, listings-push_diag)
]

-- The end of a listing tells its rows and its error, and forgets it.
told :
    (code : ℕ) (w : World) (p : PendingFtList)
    → lookup code w.ft_lists ≡ some p
    → (listings (run_ft_list_finish code w)
        ≡ listings w ++ ft_listing p.token p.entries p.result_error ∷ [])
      × (lookup code (run_ft_list_finish code w).ft_lists ≡ none)
unfolding run_ft_list_finish
told code w p h = (
  rw (h, run_ft_list_finish, filter-append, listings-push_diag),
  rw (h, run_ft_list_finish, lists-push_diag, lookup-remove code code w.ft_lists, ==-refl code),
)

-- However many frames come, the end of a listing that is known tells Dart once, with the rows of
-- all the frames in their order behind those collected before, and then forgets the listing.
pub listings-run_ft_list_finish :
    (code : ℕ) (frames : List (List TsFtEntry)) (w : World) (p : PendingFtList)
    → lookup code w.ft_lists ≡ some p
    → let v = run_ft_list_finish code (add_frames code frames w) in
      (listings v
        ≡ listings w ++ ft_listing p.token (p.entries ++ concat frames) p.result_error ∷ [])
      × (lookup code v.ft_lists ≡ none)
listings-run_ft_list_finish code [] w p h = rw (append-nil p.entries) (told code w p h)
listings-run_ft_list_finish code (rows ∷ frames) w p h =
    let (first, second) =
      listings-run_ft_list_finish code frames (add_rows code rows w) (with_rows rows p)
        (lookup-add_rows code rows w p h) in
    (
      first ∙ rw (listings-add_rows code rows w, append_assoc p.entries rows (concat frames)),
      second,
    )

schedule_unknown :
    (code : ℕ) (w : World) → lookup code w.ft_lists ≡ none → schedule_ft_list_finish code w ≡ w
unfolding schedule_ft_list_finish
schedule_unknown code w e = rw (e, schedule_ft_list_finish)

schedule_scheduled :
    (code : ℕ) (w : World) (p : PendingFtList)
    → lookup code w.ft_lists ≡ some p
    → p.finalize_scheduled ≡ true
    → schedule_ft_list_finish code w ≡ w
unfolding schedule_ft_list_finish
schedule_scheduled code w p e f = rw (e, schedule_ft_list_finish, f)

lookup-schedule :
    (code : ℕ) (w : World) (p : PendingFtList)
    → lookup code w.ft_lists ≡ some p
    → lookup code (schedule_ft_list_finish code w).ft_lists
      ≡ some (record p { finalize_scheduled = true })
unfolding schedule_ft_list_finish
lookup-schedule code w p e = elim (Bool-cases p.finalize_scheduled) [
  | inl f ↦
      rw (e, schedule_ft_list_finish, f)
        (e ∙ ap (λ b. some (record p { finalize_scheduled = b })) f)
  | inr f ↦
      rw (e, schedule_ft_list_finish, f)
        (lookup-update_self code (λ q. record q { finalize_scheduled = true }) w.ft_lists p e)
]

run_unknown : (code : ℕ) (w : World) → lookup code w.ft_lists ≡ none → run_ft_list_finish code w ≡ w
unfolding run_ft_list_finish
run_unknown code w e = rw (e, run_ft_list_finish)

-- The end of a listing is spawned once however often it is scheduled, and one that has run does
-- nothing when it runs again.
pub ft_list_finish_once :
    (code : ℕ) (w : World)
    → (schedule_ft_list_finish code (schedule_ft_list_finish code w)
        ≡ schedule_ft_list_finish code w)
      × (run_ft_list_finish code (run_ft_list_finish code w) ≡ run_ft_list_finish code w)
ft_list_finish_once code w = elim (Option-cases (lookup code w.ft_lists)) [
  | inl e ↦ (
    ap (schedule_ft_list_finish code) (schedule_unknown code w e),
    ap (run_ft_list_finish code) (run_unknown code w e),
  )
  | inr (p, e) ↦ (
    schedule_scheduled code _ _ (lookup-schedule code w p e) refl,
    run_unknown code _ (told code w p e).1,
  )
]
