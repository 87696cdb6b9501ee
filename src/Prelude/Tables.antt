-- ===== src/Prelude/Tables.antt =====
-- A `match` on one or two numbers as a table of its arms: the first arm that fits is taken.
use Prim.Native.Nat.{ℕ}
use mathlib.Core.Path.{◌≡◌, refl}
use mathlib.Core.Logic.{inl, inr}
use mathlib.Core.Bool.{Bool, true, false, ◌&&◌}
use mathlib.Core.Option.{Option, none, some}
use mathlib.Core.Option
use mathlib.Core.List.{List, [], ◌∷◌}
use vpod.Prelude.Tests.{◌==◌, if◌then◌else◌, Bool-cases}

module _ {ℓ} {A : Type ℓ} where
  abbrev pub select : List (ℕ × A) → ℕ → Option A
  select [] x = none
  select ((a, v) ∷ arms) x = if x == a then some v else select arms x

  abbrev pub select₂ : List (ℕ × ℕ × A) → ℕ → ℕ → Option A
  select₂ [] x y = none
  select₂ ((a, b, v) ∷ arms) x y = if x == a && y == b then some v else select₂ arms x y

module _ {ℓ κ} {A : Type ℓ} {B : Type κ} (f : A → B) where
  -- The values of the arms changed.
  abbrev pub on_values : List (ℕ × A) → List (ℕ × B)
  on_values [] = []
  on_values ((a, v) ∷ arms) = (a, f v) ∷ on_values arms

  abbrev pub on_values₂ : List (ℕ × ℕ × A) → List (ℕ × ℕ × B)
  on_values₂ [] = []
  on_values₂ ((a, b, v) ∷ arms) = (a, b, f v) ∷ on_values₂ arms

  pub map-if :
      (c : Bool) (o o' : Option A)
      → Option.map f (if c then o else o') ≡ (if c then Option.map f o else Option.map f o')
  map-if true o o' = refl
  map-if false o o' = refl

  pub select-on_values :
      (arms : List (ℕ × A)) (x : ℕ) → select (on_values arms) x ≡ Option.map f (select arms x)
  select-on_values [] x = refl
  select-on_values ((a, v) ∷ arms) x = elim (Bool-cases (x == a)) [
    | inl hit ↦ rw hit
    | inr miss ↦ rw miss (select-on_values arms x)
  ]

  pub select₂-on_values₂ :
      (arms : List (ℕ × ℕ × A)) (x y : ℕ)
      → select₂ (on_values₂ arms) x y ≡ Option.map f (select₂ arms x y)
  select₂-on_values₂ [] x y = refl
  select₂-on_values₂ ((a, b, v) ∷ arms) x y = elim (Bool-cases (x == a && y == b)) [
    | inl hit ↦ rw hit
    | inr miss ↦ rw miss (select₂-on_values₂ arms x y)
  ]
