-- ===== src/Prelude/Lists.antt =====
-- Lists measured by native numbers, and tests over lists of texts.
use Prim.Native.Nat.{ℕ, suc, ◌+◌, ◌≤◌}
use Prim.Native.String.{String}
use mathlib.Core.Path.{◌≡◌, refl, sym}
use mathlib.Core.Bool.{Bool, true, false, ◌||◌}
use mathlib.Core.Option.{Option, none, some}
use mathlib.Core.List.{List, [], ◌∷◌, ◌++◌, Memᴰ}
use text.Mathlib.Text.{◌==◌}
use text.Mathlib.TextEquality.{eq_iff}
use native.Mathlib.Omega.{arith}
use mathlib.Core.Logic.{inl, inr}
use wfc.Prelude.Tests.{if◌then◌else◌, Bool-cases}

module _ {ℓ} {A : Type ℓ} where
  abbrev pub length : List A → ℕ
  length [] = 0
  length (x ∷ xs) = suc (length xs)

  -- `xs[0] if xs else None`
  abbrev pub head? : List A → Option A
  head? [] = none
  head? (x ∷ xs) = some x

  -- `not xs`
  abbrev pub is_empty : List A → Bool
  is_empty [] = true
  is_empty (x ∷ xs) = false

  pub length-append : (xs ys : List A) → length (xs ++ ys) ≡ length xs + length ys
  length-append [] ys = omega arith
  length-append (x ∷ xs) ys = omega (arith, length-append xs ys)

-- `x in xs`
unfoldable pub contains : List String → String → Bool
contains [] x = false
contains (y ∷ ys) x = y == x || contains ys x

-- `[y for y in xs if y != x]`
unfoldable pub without : List String → String → List String
without [] x = []
without (y ∷ ys) x = let rest = without ys x in if y == x then rest else y ∷ rest

pub contains-append :
    (xs ys : List String) (x : String) → contains (xs ++ ys) x ≡ (contains xs x || contains ys x)
unfolding contains
contains-append [] ys x = refl
contains-append (y ∷ xs) ys x = ground (arith, contains-append xs ys x)

pub contains-without :
    (xs : List String) (x y : String)
    → contains (without xs x) y ≡ (if x == y then false else contains xs y)
unfolding contains without
contains-without [] x y = ground arith
contains-without (z ∷ xs) x y =
    ground (arith, contains-without xs x y, eq_iff z x, eq_iff z y, eq_iff x y)

pub length-without-le : (xs : List String) (x : String) → length (without xs x) ≤ length xs
unfolding without
length-without-le [] x = omega arith
length-without-le (y ∷ xs) x = ground (arith, length-without-le xs x)

-- an unchanged length means that nothing was removed
pub without_absent : (xs : List String) (x : String) → contains xs x ≡ false → without xs x ≡ xs
unfolding contains without
without_absent [] x h = refl
without_absent (y ∷ xs) x h = ground (arith, without_absent xs x)

-- no text stands twice
abbrev pub IsDistinct : List String → Type 0
IsDistinct [] = Unit {0}
IsDistinct (x ∷ xs) = (contains xs x ≡ false) × IsDistinct xs

pub append-IsDistinct :
    (xs : List String) (x : String)
    → IsDistinct xs
    → contains xs x ≡ false
    → IsDistinct (xs ++ x ∷ [])
unfolding contains
append-IsDistinct [] x d h = (refl, tt)
append-IsDistinct (y ∷ xs) x d h = (
  ground (arith, contains-append xs (x ∷ []) y, eq_iff y x, eq_iff x y),
  append-IsDistinct xs x d.1 (ground arith),
)

pub without-IsDistinct : (xs : List String) (x : String) → IsDistinct xs → IsDistinct (without xs x)
unfolding without
without-IsDistinct [] x d = tt
without-IsDistinct (y ∷ xs) x d =
    ground (arith, without-IsDistinct xs x d.1, contains-without xs x y)

pub contains→mem : (xs : List String) (x : String) → contains xs x ≡ true → Memᴰ x xs
unfolding contains
contains→mem [] x h = cc
contains→mem (y ∷ xs) x h = elim (Bool-cases (y == x)) [
  | inl e ↦ Memᴰ.head (sym ((eq_iff y x).0 e))
  | inr e ↦ Memᴰ.tail (contains→mem xs x (ground arith))
]
