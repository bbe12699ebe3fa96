-- ===== src/Prelude/Least.antt =====
-- Python's `min(xs, key=key)`: the first element of the least key.
use Prim.Native.Nat.{ℕ, ◌≤◌}
use mathlib.Core.Path.{◌≡◌, refl}
use mathlib.Core.Option.{Option, none, some}
use mathlib.Core.List.{List, [], ◌∷◌, Memᴰ}
use mathlib.Core.Logic.{inl, inr}
use native.Mathlib.Omega.{arith}
use wfc.Prelude.Tests.{ltb, if◌then◌else◌, Bool-cases}

module _ {ℓ} {A : Type ℓ} (key : A → ℕ) where
  -- the better of two, the second if they are equal
  abbrev better : A → A → A
  better x best = if ltb (key x) (key best) then x else best

  -- the loop over the rest, with the best so far
  unfoldable pub least : A → List A → A
  least best [] = best
  least best (x ∷ xs) = least (better x best) xs

  better-le : (x best : A) → (key (better x best) ≤ key x) × (key (better x best) ≤ key best)
  better-le x best = elim (Bool-cases (ltb (key x) (key best))) [
    | inl e ↦ rw e (omega arith, ground arith)
    | inr e ↦ rw e (ground arith, omega arith)
  ]

  least-le_first : (best : A) (xs : List A) → key (least best xs) ≤ key best
  unfolding least
  least-le_first best [] = omega arith
  least-le_first best (x ∷ xs) = omega (arith, least-le_first (better x best) xs, better-le x best)

  least-le : (best : A) (xs : List A) (y : A) → Memᴰ y xs → key (least best xs) ≤ key y
  unfolding least
  least-le best [] y m = elim m [ ]
  least-le best (x ∷ xs) y (Memᴰ.head e) =
      rw e (omega (arith, least-le_first (better x best) xs, better-le x best))
  least-le best (x ∷ xs) y (Memᴰ.tail m) = least-le (better x best) xs y m

  least-mem : (best : A) (xs : List A) → Memᴰ (least best xs) (best ∷ xs)
  unfolding least
  least-mem best [] = Memᴰ.head refl
  least-mem best (x ∷ xs) = elim (Bool-cases (ltb (key x) (key best))) [
    | inl e ↦ rw (e, least) (Memᴰ.tail (least-mem x xs))
    | inr e ↦ rw (e, least) (skip_second (least-mem best xs))
  ]
    where
      skip_second : {y : A} → Memᴰ y (best ∷ xs) → Memᴰ y (best ∷ x ∷ xs)
      skip_second (Memᴰ.head e) = Memᴰ.head e
      skip_second (Memᴰ.tail m) = Memᴰ.tail (Memᴰ.tail m)

  -- `none` where `min` is not called
  abbrev pub least_of : List A → Option A
  least_of [] = none
  least_of (x ∷ xs) = some (least x xs)

  -- what is found is of the list, and nothing of the list is less
  pub least_of-mem : (xs : List A) (y : A) → least_of xs ≡ some y → Memᴰ y xs
  least_of-mem [] y h = cc
  least_of-mem (x ∷ xs) y h = let e : y ≡ least x xs = ground arith in rw e (least-mem x xs)

  pub least_of-le : (xs : List A) (y z : A) → least_of xs ≡ some y → Memᴰ z xs → key y ≤ key z
  least_of-le [] y z h m = elim m [ ]
  least_of-le (x ∷ xs) y z h (Memᴰ.head e) =
      let same : y ≡ least x xs = ground arith in rw (same, e) (least-le_first x xs)
  least_of-le (x ∷ xs) y z h (Memᴰ.tail m) =
      let same : y ≡ least x xs = ground arith in rw same (least-le x xs z m)
