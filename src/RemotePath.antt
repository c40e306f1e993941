-- ===== src/RemotePath.antt =====
-- Remote paths of the channel file storage (native/src/api.rs): `parse_return_code`,
-- `normalize_remote_path`, `valid_remote_path` and `remote_basename`.
pub mod Segments
pub mod Laws
mod Examples
use mathlib.Core.List.{reverse}
use nek.Common.{
  ℕ, zero, suc, ◌+◌, ◌-◌, ◌*◌, ◌<◌, Bool, true, false, not, ◌&&◌, ◌||◌, Option, none, some, List,
  [], ◌∷◌, ◌++◌, ltb, leb, ◌==◌, if◌then◌else◌, unwrap_or, filter, any, find, is_empty,
}
use nek.Common.Text.{Text, text_eq}

abbrev pub slash : ℕ
slash = b'/'

abbrev pub nonempty : Text → Bool
nonempty s = not (is_empty s)

-- `char::is_whitespace`: the property White_Space of Unicode.
unfoldable pub is_whitespace : ℕ → Bool
is_whitespace c =
    (leb 9 c && leb c 13)
    || c == 32
    || c == 0x85
    || c == 0xa0
    || c == 0x1680
    || (leb 0x2000 c && leb c 0x200a)
    || c == 0x2028
    || c == 0x2029
    || c == 0x202f
    || c == 0x205f
    || c == 0x3000

unfoldable pub trim_start : Text → Text
unfolding is_whitespace
trim_start [] = []
trim_start (c ∷ t) = let rest = trim_start t in if is_whitespace c then rest else c ∷ t

-- `str::trim`
unfoldable pub trim : Text → Text
unfolding trim_start
trim t = reverse (trim_start (reverse (trim_start t)))

abbrev cons_head : ℕ → List Text → List Text
cons_head c [] = (c ∷ []) ∷ []
cons_head c (s ∷ ss) = (c ∷ s) ∷ ss

-- `str::split` at one character: there is one segment more than there are separators.
unfoldable pub split : ℕ → Text → List Text
split sep [] = [] ∷ []
split sep (c ∷ t) = let rest = split sep t in if c == sep then [] ∷ rest else cons_head c rest

-- `join("/")`
unfoldable pub join : List Text → Text
join [] = []
join (s ∷ []) = s
join (s ∷ t ∷ ss) = s ++ slash ∷ join (t ∷ ss)

-- The segments that normalization keeps.
unfoldable pub segments : Text → List Text
segments t = filter nonempty (split slash t)

unfoldable pub normalize_remote_path : Text → Text
unfolding trim segments join
normalize_remote_path path = slash ∷ join (segments (trim path))

abbrev starts_with_slash : Text → Bool
starts_with_slash [] = false
starts_with_slash (c ∷ t) = c == slash

abbrev pub contains_nul : Text → Bool
contains_nul = any (λ c. c == 0)

abbrev pub is_parent : Text → Bool
is_parent s = text_eq s (b'.' ∷ b'.' ∷ [])

unfoldable pub valid_remote_path : Text → Bool
valid_remote_path path =
    if text_eq path (slash ∷ [])
    then true
    else starts_with_slash path && not (contains_nul path) && not (any is_parent (split slash path))

unfoldable pub remote_basename : Text → Text
remote_basename path = unwrap_or (find nonempty (reverse (split slash path))) (slash ∷ [])

-- `u16::from_str`: one `+` may lead; at least one digit; no overflow.
parse_digits : ℕ → Text → Option ℕ
parse_digits n [] = some n
parse_digits n (c ∷ t) =
    let m : ℕ = n * 10 + (c - b'0') in
    let rest = parse_digits m t in if leb b'0' c && leb c b'9' && ltb m 65536 then rest else none

parse_nonempty : Text → Option ℕ
unfolding parse_digits
parse_nonempty [] = none
parse_nonempty (c ∷ t) = parse_digits 0 (c ∷ t)

unfoldable pub parse_u16 : Text → Option ℕ
unfolding parse_nonempty
parse_u16 [] = none
parse_u16 (c ∷ t) = if c == b'+' then parse_nonempty t else parse_nonempty (c ∷ t)

abbrev head? : List Text → Option Text
head? [] = none
head? (s ∷ ss) = some s

abbrev and_parse : Option Text → Option ℕ
and_parse none = none
and_parse (some s) = parse_u16 s

-- The part behind the last `:`.
unfoldable pub parse_return_code : Text → Option ℕ
parse_return_code rc = and_parse (head? (reverse (split b':' rc)))
