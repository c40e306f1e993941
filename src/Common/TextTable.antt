-- ===== src/Common/TextTable.antt =====
-- A `HashMap<String, V>` as an association list.
use mathlib.Core.Option.{Option, none, some}
use mathlib.Core.List.{List, [], ◌∷◌}
use nek.Common.Tests.{if◌then◌else◌}
use nek.Common.Text.{Text, text_eq}

module _ {ℓ} {V : Type ℓ} where
  unfoldable pub lookup : Text → List (Text × V) → Option V
  unfolding text_eq
  lookup k [] = none
  lookup k ((j, v) ∷ m) = let rest = lookup k m in if text_eq j k then some v else rest

  unfoldable pub insert : Text → V → List (Text × V) → List (Text × V)
  unfolding text_eq
  insert k v [] = (k, v) ∷ []
  insert k v ((j, w) ∷ m) =
      let rest = (j, w) ∷ insert k v m in if text_eq j k then (k, v) ∷ m else rest
