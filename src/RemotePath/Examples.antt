-- ===== src/RemotePath/Examples.antt =====
-- Tests of the remote paths, and the theorems about them at an input.
use nek.Common.{◌≡◌, refl, some, not, ◌&&◌, any, All, [], ◌∷◌}
use nek.Common.Text.{Text, lit}
use nek.RemotePath.{
  split, normalize_remote_path, remote_basename, parse_return_code, parse_u16, segments, trim,
  slash, valid_remote_path, contains_nul, is_parent,
}
use nek.RemotePath.Laws.{Segment, or_root, normalize_shape, valid-normalize}

normalize_example : normalize_remote_path (lit " //a//b/ ") ≡ lit "/a/b"
unfolding normalize_remote_path split lit
normalize_example = refl

basename_example : remote_basename (lit "/a/b.txt") ≡ lit "b.txt"
unfolding remote_basename split lit
basename_example = refl

return_code_example : parse_return_code (lit "12:5") ≡ some 5
unfolding parse_return_code parse_u16 split lit
return_code_example = refl

abbrev messy : Text
messy = lit " //a//b.txt/ "

normalize_shape_example :
    All Segment (segments (trim messy))
    × (split slash (normalize_remote_path messy) ≡ [] ∷ or_root (segments (trim messy)))
normalize_shape_example = normalize_shape messy

valid-normalize_example : valid_remote_path (normalize_remote_path (lit "/a/../b")) ≡ (
    not (contains_nul (trim (lit "/a/../b")))
    && not (any is_parent (split slash (trim (lit "/a/../b")))))
valid-normalize_example = valid-normalize (lit "/a/../b")
