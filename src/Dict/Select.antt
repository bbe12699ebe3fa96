-- ===== src/Dict/Select.antt =====
-- Comprehensions over a dict: `[k for k, v in d.items() if p(v)]` and `[v for v in d.values() if p(v)]`.
use wfc.Prelude.{
  eq_refl, String, ◌≡◌, refl, sym, Bool, true, false, none, some, List, [], ◌∷◌, arith, ◌==◌,
  eq_iff, inl, inr, if◌then◌else◌, Memᴰ, Bool-cases, is_empty, contains, contains→mem, IsDistinct,
}
use mathlib.Core.List.Memᴰ
use wfc.Dict.{Dict, get, IsUnique}

not_empty {ℓ} : {A : Type ℓ} {x : A} {xs : List A} → Memᴰ x xs → is_empty xs ≡ false
not_empty (Memᴰ.head e) = refl
not_empty (Memᴰ.tail m) = refl

module _ {ℓ} {V : Type ℓ} (p : V → Bool) where
  unfoldable pub select_keys : Dict V → List String
  select_keys [] = []
  select_keys ((k, v) ∷ d) = let rest = select_keys d in if p v then k ∷ rest else rest

  unfoldable pub select_values : Dict V → List V
  select_values [] = []
  select_values ((k, v) ∷ d) = let rest = select_values d in if p v then v ∷ rest else rest

  keys_head :
      (k n : String) (v : V) (d : Dict V)
      → get d k ≡ none
      → (Memᴰ n (select_keys d) → (w : V) × (get d n ≡ some w) × (p w ≡ true))
      → (b : Bool) → p v ≡ b
      → Memᴰ n (if b then k ∷ select_keys d else select_keys d)
      → (w : V) × (get ((k, v) ∷ d) n ≡ some w) × (p w ≡ true)
  unfolding get
  keys_head k n v d fresh ih true e (Memᴰ.head q) = (v, ground (arith, eq_iff k n), e)
  keys_head k n v d fresh ih true e (Memᴰ.tail m) =
      let (w, g, pw) = ih m in (w, ground (arith, eq_iff k n), pw)
  keys_head k n v d fresh ih false e m =
      let (w, g, pw) = ih m in (w, ground (arith, eq_iff k n), pw)

  -- a selected key is there, with a value that passes
  pub select_keys_sound :
      (d : Dict V) (n : String)
      → IsUnique d
      → Memᴰ n (select_keys d)
      → (w : V) × (get d n ≡ some w) × (p w ≡ true)
  unfolding select_keys
  select_keys_sound [] n u m = absurd (Memᴰ.not-nil m)
  select_keys_sound ((k, v) ∷ d) n u m =
      keys_head k n v d u.0 (select_keys_sound d n u.1) (p v) refl m

  -- every key whose value passes is selected
  pub select_keys_complete :
      (d : Dict V) (n : String) (w : V) → get d n ≡ some w → p w ≡ true → Memᴰ n (select_keys d)
  unfolding get select_keys
  select_keys_complete [] n w g h = cc
  select_keys_complete ((k, v) ∷ d) n w g h = elim (Bool-cases (k == n)) [
    | inl e ↦ let q : v ≡ w = ground arith in rw (q, h) (Memᴰ.head (sym ((eq_iff k n).0 e)))
    | inr e ↦ elim (Bool-cases (p v)) [
      | inl y ↦ rw y (Memᴰ.tail (select_keys_complete d n w (ground arith) h))
      | inr y ↦ rw y (select_keys_complete d n w (ground arith) h)
    ]
  ]

  fresh_key :
      (d : Dict V) (n : String) → IsUnique d → get d n ≡ none → contains (select_keys d) n ≡ false
  fresh_key d n u g = elim (Bool-cases (contains (select_keys d) n)) [
    | inl y ↦
        let (w, e, h) = select_keys_sound d n u (contains→mem (select_keys d) n y) in ground arith
    | inr e ↦ e
  ]

  -- no key is selected twice
  pub select_keys-IsDistinct : (d : Dict V) → IsUnique d → IsDistinct (select_keys d)
  unfolding select_keys
  select_keys-IsDistinct [] u = tt
  select_keys-IsDistinct ((k, v) ∷ d) u = elim (Bool-cases (p v)) [
    | inl y ↦ rw y (fresh_key d k u.1 u.0, select_keys-IsDistinct d u.1)
    | inr n ↦ rw n (select_keys-IsDistinct d u.1)
  ]

  -- what passes makes the selection not empty
  pub select_keys-ne-nil :
      (d : Dict V) (n : String) (w : V)
      → get d n ≡ some w
      → p w ≡ true
      → is_empty (select_keys d) ≡ false
  select_keys-ne-nil d n w g h = not_empty (select_keys_complete d n w g h)

  under :
      (j : String) (w : V) (d : Dict V) (v : V)
      → IsUnique ((j, w) ∷ d)
      → (k : String) × (get d k ≡ some v) × (p v ≡ true)
      → (k : String) × (get ((j, w) ∷ d) k ≡ some v) × (p v ≡ true)
  unfolding get
  under j w d v u (k, g, h) = (k, ground (arith, eq_iff j k, u.0), h)

  values_head :
      (j : String) (w : V) (d : Dict V) (v : V)
      → IsUnique ((j, w) ∷ d)
      → p w ≡ true
      → (Memᴰ v (select_values d) → (k : String) × (get d k ≡ some v) × (p v ≡ true))
      → Memᴰ v (w ∷ select_values d)
      → (k : String) × (get ((j, w) ∷ d) k ≡ some v) × (p v ≡ true)
  unfolding get
  values_head j w d v u y ih (Memᴰ.head e) = (j, ground (arith, eq_refl j), rw e y)
  values_head j w d v u y ih (Memᴰ.tail m) = under j w d v u (ih m)

  -- a selected value stands under some key, and passes
  pub select_values_sound :
      (d : Dict V) (v : V)
      → IsUnique d
      → Memᴰ v (select_values d)
      → (k : String) × (get d k ≡ some v) × (p v ≡ true)
  unfolding select_values get
  select_values_sound [] v u m = absurd (Memᴰ.not-nil m)
  select_values_sound ((j, w) ∷ d) v u m = elim (Bool-cases (p w)) [
    | inl y ↦ values_head j w d v u y (select_values_sound d v u.1) (rw y at m)
    | inr n ↦ under j w d v u (select_values_sound d v u.1 (rw n at m))
  ]

  -- every value that passes is selected
  pub select_values_complete :
      (d : Dict V) (k : String) (v : V) → get d k ≡ some v → p v ≡ true → Memᴰ v (select_values d)
  unfolding get select_values
  select_values_complete [] k v g h = cc
  select_values_complete ((j, w) ∷ d) k v g h = elim (Bool-cases (j == k)) [
    | inl e ↦ let q : w ≡ v = ground arith in rw (q, h) (Memᴰ.head refl)
    | inr e ↦ elim (Bool-cases (p w)) [
      | inl y ↦ rw y (Memᴰ.tail (select_values_complete d k v (ground arith) h))
      | inr y ↦ rw y (select_values_complete d k v (ground arith) h)
    ]
  ]
