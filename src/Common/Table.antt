-- ===== src/Common/Table.antt =====
-- The concurrent maps of the program (`DashMap`, `Mutex<HashMap>`) as association lists whose
-- keys are numbers. A key is stored once; the order of the list stands for the order in which a
-- map is walked, which the source leaves open.
use nek.Common.Tests.{◌==◌, if◌then◌else◌, Bool-cases}
use Prim.Native.Nat.{ℕ}
use mathlib.Core.Path.{◌≡◌, refl, ap}
use mathlib.Core.Logic.{inl, inr}
use mathlib.Core.Bool.{Bool, true, false}
use mathlib.Core.Option.{Option, none, some}
use mathlib.Core.List.{List, [], ◌∷◌}
use native.Mathlib.Omega.{arith}

abbrev pub Table {ℓ} : Type ℓ → Type ℓ
Table V = List (ℕ × V)

module _ {ℓ} {V : Type ℓ} where
  unfoldable pub lookup : ℕ → Table V → Option V
  lookup k [] = none
  lookup k ((j, v) ∷ m) = let rest = lookup k m in if j == k then some v else rest

  unfoldable pub insert : ℕ → V → Table V → Table V
  insert k v [] = (k, v) ∷ []
  insert k v ((j, w) ∷ m) = let rest = (j, w) ∷ insert k v m in if j == k then (k, v) ∷ m else rest

  unfoldable pub remove : ℕ → Table V → Table V
  remove k [] = []
  remove k ((j, v) ∷ m) = let rest = remove k m in if j == k then rest else (j, v) ∷ rest

  -- `get_mut`: changes the value in place, if the key is there.
  unfoldable pub update : ℕ → (V → V) → Table V → Table V
  update k f [] = []
  update k f ((j, v) ∷ m) =
      let rest = update k f m in if j == k then (j, f v) ∷ rest else (j, v) ∷ rest

  abbrev pub mapped : (V → V) → Option V → Option V
  mapped f none = none
  mapped f (some v) = some (f v)

  unfoldable pub contains_key : ℕ → Table V → Bool
  contains_key k [] = false
  contains_key k ((j, v) ∷ m) = let rest = contains_key k m in if j == k then true else rest

  pub lookup-update :
      (at key : ℕ) (f : V → V) (table : Table V)
      → lookup key (update at f table)
        ≡ (if at == key then mapped f (lookup key table) else lookup key table)
  unfolding lookup update
  lookup-update at key f [] = ground arith
  lookup-update at key f (entry ∷ table) = ground (arith, lookup-update at key f table)

  pub lookup-insert :
      (at key : ℕ) (value : V) (table : Table V)
      → lookup key (insert at value table) ≡ (if at == key then some value else lookup key table)
  unfolding insert lookup
  lookup-insert at key value [] = refl
  lookup-insert at key value (entry ∷ table) = ground (arith, lookup-insert at key value table)

  pub lookup-remove :
      (at key : ℕ) (table : Table V)
      → lookup key (remove at table) ≡ (if at == key then none else lookup key table)
  unfolding remove lookup
  lookup-remove at key [] = ground arith
  lookup-remove at key (entry ∷ table) = ground (arith, lookup-remove at key table)

-- No key stands twice.
abbrev pub Distinct : {V : Type 0} → Table V → Type 0
Distinct [] = Unit
Distinct ((k, v) ∷ m) = (lookup k m ≡ none) × Distinct m

pub same_key : (j k : ℕ) → (j == k) ≡ true → j ≡ k
same_key j k h = ground arith

module _ {V : Type 0} where
  pub remove_absent : (k : ℕ) (m : Table V) → lookup k m ≡ none → remove k m ≡ m
  unfolding lookup remove
  remove_absent k [] h = refl
  remove_absent k ((j, v) ∷ m) h = elim (Bool-cases (j == k)) [
    | inl e ↦ absurd (cc (rw e at h))
    | inr e ↦ rw e (ap (◌∷◌ (j, v)) (remove_absent k m (rw e at h)))
  ]

  pub insert-Distinct : (k : ℕ) (v : V) (m : Table V) → Distinct m → Distinct (insert k v m)
  unfolding lookup insert
  insert-Distinct k v [] d = (refl, tt)
  insert-Distinct k v ((j, w) ∷ m) d = elim (Bool-cases (j == k)) [
    | inl e ↦ rw e (rw (same_key j k e) at d.0, d.1)
    | inr e ↦ rw e (ground (arith, lookup-insert k j v m), insert-Distinct k v m d.1)
  ]

  pub remove-Distinct : (k : ℕ) (m : Table V) → Distinct m → Distinct (remove k m)
  unfolding lookup remove
  remove-Distinct k [] d = tt
  remove-Distinct k ((j, w) ∷ m) d = elim (Bool-cases (j == k)) [
    | inl e ↦ rw e (remove-Distinct k m d.1)
    | inr e ↦ rw e (ground (arith, lookup-remove k j m), remove-Distinct k m d.1)
  ]
