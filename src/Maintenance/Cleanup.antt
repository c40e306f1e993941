-- ===== src/Maintenance/Cleanup.antt =====
-- Only clients that are silent for long lose their buffers, and all of these do.
use nek.Common.{
  ℕ, ◌≡◌, refl, ◌∙◌, ap, arith, Bool, true, false, Option, none, some, List, [], ◌∷◌, inl, inr,
  Bool-cases, Option-cases, if◌then◌else◌, ◌==◌,
}
use nek.Common.Table.{Table, lookup, lookup-remove, same_key}
use nek.Model.{World, ClientJitterBuffer}
use nek.Maintenance.{is_stale, candidates, remove_stale, remove_candidates, cleanup_tick}

-- Whether a client is there whose last packet is too old.
abbrev stale_at : ℕ → Option ClientJitterBuffer → Bool
stale_at now none = false
stale_at now (some b) = is_stale now b.last_packet

abbrev without_stale : ℕ → Option ClientJitterBuffer → Option ClientJitterBuffer
without_stale now o = if stale_at now o then none else o

lookup-remove_stale_self :
    (now id : ℕ) (w : World)
    → lookup id (remove_stale now id w).client_buffers
      ≡ without_stale now (lookup id w.client_buffers)
unfolding remove_stale
lookup-remove_stale_self now id w = elim (Option-cases (lookup id w.client_buffers)) [
  | inl e ↦ rw (e, remove_stale) e
  | inr (b, e) ↦ elim (Bool-cases (is_stale now b.last_packet)) [
    | inl s ↦ rw (e, remove_stale, s) (ground (arith, lookup-remove id id w.client_buffers))
    | inr s ↦ rw (e, remove_stale, s) e
  ]
]

lookup-remove_stale_other :
    (now k id : ℕ) (w : World)
    → (k == id) ≡ false
    → lookup id (remove_stale now k w).client_buffers ≡ lookup id w.client_buffers
unfolding remove_stale
lookup-remove_stale_other now k id w h = elim (Option-cases (lookup k w.client_buffers)) [
  | inl e ↦ rw (e, remove_stale) refl
  | inr (b, e) ↦ elim (Bool-cases (is_stale now b.last_packet)) [
    | inl s ↦ rw (e, remove_stale, s) (ground (arith, lookup-remove k id w.client_buffers))
    | inr s ↦ rw (e, remove_stale, s) refl
  ]
]

fresh_stays :
    (now id : ℕ) (ids : List ℕ) (w : World) {o : Option ClientJitterBuffer}
    → lookup id w.client_buffers ≡ o
    → stale_at now o ≡ false
    → lookup id (remove_candidates now ids w).client_buffers ≡ o
unfolding remove_candidates
fresh_stays now id [] w h f = h
fresh_stays now id (k ∷ ids) w h f =
    fresh_stays now id ids (remove_stale now k w)
      (elim (Bool-cases (k == id)) [
        | inl e ↦
            rw (same_key k id e)
              (lookup-remove_stale_self now id w ∙ ap (without_stale now) h ∙ rw f refl)
        | inr e ↦ lookup-remove_stale_other now k id w e ∙ h
      ])
      f

-- The cleanup never takes the buffer of a client that is not silent for more than ten seconds
-- when it is looked at again, whatever other threads did between the two looks: a client that
-- began to talk in between, or whose buffer is new, keeps the buffer it has.
pub lookup-cleanup_tick :
    (now id : ℕ) (between : World → World) (w : World)
    → stale_at now (lookup id (between w).client_buffers) ≡ false
    → lookup id (cleanup_tick now between w).client_buffers ≡ lookup id (between w).client_buffers
unfolding cleanup_tick
lookup-cleanup_tick now id between w f =
    fresh_stays now id (candidates now w.client_buffers) (between w) refl f

gone_stays :
    (now id : ℕ) (ids : List ℕ) (w : World)
    → lookup id w.client_buffers ≡ none
    → lookup id (remove_candidates now ids w).client_buffers ≡ none
gone_stays now id ids w h = fresh_stays now id ids w h refl

candidate_goes :
    (now id : ℕ) (buffers : Table ClientJitterBuffer) (w : World)
    → stale_at now (lookup id buffers) ≡ true
    → stale_at now (lookup id w.client_buffers) ≡ true
    → lookup id (remove_candidates now (candidates now buffers) w).client_buffers ≡ none
unfolding candidates remove_candidates lookup
candidate_goes now id [] w h s = absurd (cc h)
candidate_goes now id ((k, b) ∷ buffers) w h s = elim (Bool-cases (k == id)) [
  | inl e ↦ rw (simp e at h) (
      rw (same_key k id e) (
        gone_stays now id (candidates now buffers) (remove_stale now id w)
          (lookup-remove_stale_self now id w ∙ rw s refl)))
  | inr e ↦ elim (Bool-cases (is_stale now b.last_packet)) [
    | inl t ↦ rw t (
        candidate_goes now id buffers (remove_stale now k w) (simp e at h)
          (ap (stale_at now) (lookup-remove_stale_other now k id w e) ∙ s))
    | inr t ↦ rw t (candidate_goes now id buffers w (simp e at h) s)
  ]
]

-- The cleanup takes the buffer of every client that is silent for more than ten seconds at both
-- looks.
pub lookup-cleanup_tick_stale :
    (now id : ℕ) (between : World → World) (w : World)
    → stale_at now (lookup id w.client_buffers) ≡ true
    → stale_at now (lookup id (between w).client_buffers) ≡ true
    → lookup id (cleanup_tick now between w).client_buffers ≡ none
unfolding cleanup_tick
lookup-cleanup_tick_stale now id between w h s =
    candidate_goes now id w.client_buffers (between w) h s
