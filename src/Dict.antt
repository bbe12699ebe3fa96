-- ===== src/Dict.antt =====
-- Python's `dict` with string keys, in order of insertion: what iterates over one sees that order.
-- A write to a key that is there keeps its place.
pub mod Select
use wfc.Prelude.{
  String, ◌≡◌, refl, Option, none, some, List, [], ◌∷◌, arith, ◌==◌, eq_iff, eq_refl, if◌then◌else◌,
}

abbrev pub Dict {ℓ} : Type ℓ → Type ℓ
Dict V = List (String × V)

module _ {ℓ} {V : Type ℓ} where
  -- d.get(k)
  unfoldable pub get : Dict V → String → Option V
  get [] k = none
  get ((j, v) ∷ d) k = if j == k then some v else get d k

  -- d[k] = v
  unfoldable pub put : Dict V → String → V → Dict V
  put [] k v = (k, v) ∷ []
  put ((j, w) ∷ d) k v = let rest = put d k v in if j == k then (j, v) ∷ d else (j, w) ∷ rest

  -- d.pop(k, None), and `del d[k]` where the key is there
  unfoldable pub pop : Dict V → String → Dict V
  pop [] k = []
  pop ((j, w) ∷ d) k = let rest = pop d k in if j == k then rest else (j, w) ∷ rest

  -- list(d.values())
  unfoldable pub values : Dict V → List V
  values [] = []
  values ((j, v) ∷ d) = v ∷ values d

  pub get-put :
      (d : Dict V) (k j : String) (v : V) → get (put d k v) j ≡ (if k == j then some v else get d j)
  unfolding get put
  get-put [] k j v = refl
  get-put ((i, w) ∷ d) k j v = ground (arith, get-put d k j v, eq_iff i k, eq_iff i j, eq_iff k j)

  pub get-pop : (d : Dict V) (k j : String) → get (pop d k) j ≡ (if k == j then none else get d j)
  unfolding get pop
  get-pop [] k j = ground arith
  get-pop ((i, w) ∷ d) k j = ground (arith, get-pop d k j, eq_iff i k, eq_iff i j, eq_iff k j)

  pub get-put_self : (d : Dict V) (k : String) (v : V) → get (put d k v) k ≡ some v
  get-put_self d k v = ground (arith, get-put d k k v, eq_refl k)

  -- no key stands twice
  abbrev pub IsUnique : Dict V → Type ℓ
  IsUnique [] = Unit {ℓ}
  IsUnique ((k, v) ∷ d) = (get d k ≡ none) × IsUnique d

  pub put-IsUnique : (d : Dict V) (k : String) (v : V) → IsUnique d → IsUnique (put d k v)
  unfolding put
  put-IsUnique [] k v u = (unfold get in refl, tt)
  put-IsUnique ((j, w) ∷ d) k v u =
      ground (arith, put-IsUnique d k v u.1, get-put d k j v, eq_iff j k, eq_iff k j)

  pub pop-IsUnique : (d : Dict V) (k : String) → IsUnique d → IsUnique (pop d k)
  unfolding pop
  pop-IsUnique [] k u = tt
  pop-IsUnique ((j, w) ∷ d) k u = ground (arith, pop-IsUnique d k u.1, get-pop d k j)

-- by value, for `simp` and `grind`
pub ruleset dict_laws = (get-put, get-pop)
