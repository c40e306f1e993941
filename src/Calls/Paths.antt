-- ===== src/Calls/Paths.antt =====
-- Which paths the file transfer calls let through.
use nek.Common.{
  ℕ, ◌≡◌, refl, Bool, true, false, not, ◌||◌, Option, arith, is_some, is_empty, if◌then◌else◌,
}
use nek.Common.Text.{Text}
use nek.Model.{World}
use nek.RemotePath.{normalize_remote_path, valid_remote_path}
use nek.Calls.Queue.{read_cstr}
use nek.Calls.Transfers.{ft_ready, ts_ft_list}

-- A test that is passed, in a call that returns 1.
passed :
    (b : Bool) (y : World × ℕ) (w : World)
    → (if b then (w, 0) else y).1 ≡ 1
    → (b ≡ false) × (y.1 ≡ 1)
passed true y w h = absurd (omega (arith, h))
passed false y w h = (refl, h)

not-false : (b : Bool) → not b ≡ false → b ≡ true
not-false true h = refl
not-false false h = cc h

or-false : (a b : Bool) → (a || b) ≡ false → a ≡ false
or-false true b h = h
or-false false b h = refl

-- A listing is queued only while a session and its loop are there, for a path that is valid in its
-- normal form, and with a token to answer to.
pub ts_ft_list_queued :
    (cid : ℕ) (path pw token : Option Text) (w : World)
    → (ts_ft_list cid path pw token w).1 ≡ 1
    → (ft_ready w ≡ true)
      × (valid_remote_path (normalize_remote_path (read_cstr path)) ≡ true)
      × (is_empty (read_cstr token) ≡ false)
unfolding ts_ft_list
ts_ft_list_queued cid path pw token w h =
    let (ready, h1) = passed (not (ft_ready w) || not (is_some token)) _ w h in
    let (valid, h2) = passed (not (valid_remote_path p)) _ w h1 in
    let (full, h3) = passed (is_empty (read_cstr token)) _ w h2 in
    (
      not-false (ft_ready w) (or-false (not (ft_ready w)) (not (is_some token)) ready),
      not-false (valid_remote_path p) valid,
      full,
    )
  where
    p : Text
    p = normalize_remote_path (read_cstr path)
