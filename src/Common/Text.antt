-- ===== src/Common/Text.antt =====
-- Text as the list of its code points, and the formatting of the standard library that the
-- program uses: `{}` of an unsigned number and `{:#06x}`.
use Prim.Native.Nat.{ℕ, zero, suc, ◌+◌, ◌-◌, ◌/◌, ◌%◌}
use Prim.Native.Char.{code}
use Prim.Native.String.{String}
use mathlib.Core.Path.{◌≡◌, refl}
use mathlib.Core.Bool.{Bool, true, false, ◌&&◌}
use mathlib.Core.List.{List, [], ◌∷◌, ◌++◌}
use native.Mathlib.Omega.{arith}
use nek.Common.Tests.{ltb, leb, ◌==◌, if◌then◌else◌}
use nek.Common.Lists.{length, replicate}

abbrev pub Text : Type 0
Text = List ℕ

-- A literal of the source.
unfoldable pub lit : String → Text
lit String.[] = []
lit (String.◌∷◌ c s) = code c ∷ lit s

-- `==` on strings.
unfoldable pub text_eq : Text → Text → Bool
text_eq [] [] = true
text_eq (x ∷ xs) (y ∷ ys) = let rest = text_eq xs ys in if x == y then rest else false
text_eq _ _ = false

-- `to_ascii_lowercase`
unfoldable pub to_ascii_lowercase : Text → Text
to_ascii_lowercase [] = []
to_ascii_lowercase (c ∷ t) = (if leb b'A' c && leb c b'Z' then c + 32 else c) ∷ to_ascii_lowercase t

unfoldable pub starts_with : Text → Text → Bool
starts_with t [] = true
starts_with [] (p ∷ ps) = false
starts_with (c ∷ t) (p ∷ ps) = let rest = starts_with t ps in if c == p then rest else false

-- `contains`: some suffix begins with the pattern.
unfoldable pub contains : Text → Text → Bool
unfolding starts_with
contains [] p = starts_with [] p
contains (c ∷ t) p = let rest = contains t p in if starts_with (c ∷ t) p then true else rest

digit : ℕ → ℕ
digit d = if ltb d 10 then b'0' + d else b'a' + (d - 10)

-- The digits of `n` in a base, most significant first, before the digits `acc`.
digits_of : ℕ → ℕ → ℕ → Text → Text
unfolding digit
digits_of base zero n acc = acc
digits_of base (suc fuel) n acc =
    let rest = digits_of base fuel (n / base) (digit (n % base) ∷ acc) in
    if ltb n base then digit n ∷ acc else rest

-- `{}`: twenty digits hold every u64.
unfoldable pub decimal : ℕ → Text
unfolding digits_of
decimal n = digits_of 10 20 n []

-- `{:#06x}`: `0x`, then the digits, padded with zeros to a width of six in all.
unfoldable pub hex06 : ℕ → Text
unfolding digits_of
hex06 n = let ds = digits_of 16 8 n [] in b'0' ∷ b'x' ∷ (replicate (4 - length ds) b'0' ++ ds)

pub text_eq_refl : (t : Text) → text_eq t t ≡ true
unfolding text_eq
text_eq_refl [] = refl
text_eq_refl (x ∷ t) = ground (arith, text_eq_refl t)
