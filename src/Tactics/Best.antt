-- ===== src/Tactics/Best.antt =====
-- The best assignment of each drone, as SwarmLeaderNode._dispatch_assignments collects them.
use mathlib.Core.List.Memᴰ
use mathlib.Core.Path.{subst}
use wfc.Prelude.{
  ◌≤◌, ◌≡◌, refl, sym, ap, ◌∙◌, Bool, true, false, String, Option, none, some, List, [], ◌∷◌, Memᴰ,
  arith, ◌==◌, eq_iff, ltb, inl, inr, Bool-cases, or_else, ◌⊎◌, if◌then◌else◌,
}
use wfc.Dict
use wfc.Dict.{Dict, get-put, get-put_self, IsUnique, put-IsUnique}
use wfc.Tactics.{DroneAssignment, beats, keep_best, best_of}

-- the best assignments so far, where `seen` were taken in
pub record IsBest (seen : List DroneAssignment) (best : Dict DroneAssignment) : Type 0 where
  pub unique : IsUnique best
  pub keyed :
      (k : String) (a : DroneAssignment) → Dict.get best k ≡ some a → (a.drone_id ≡ k) × Memᴰ a seen
  pub served :
      (a : DroneAssignment)
      → Memᴰ a seen
      → (b : DroneAssignment) × (Dict.get best a.drone_id ≡ some b) × (a.priority ≤ b.priority)

-- those of the first list are put on the second, one by one
pub reverse_onto : {A : Type 0} → List A → List A → List A
reverse_onto [] ys = ys
reverse_onto (x ∷ xs) ys = reverse_onto xs (x ∷ ys)

-- a new assignment that does not beat the old one
beaten :
    (seen : List DroneAssignment) (best : Dict DroneAssignment) (a prev : DroneAssignment)
    → Dict.get best a.drone_id ≡ some prev
    → ltb prev.priority a.priority ≡ false
    → IsBest seen best
    → IsBest (a ∷ seen) best
beaten seen best a prev found low i = record {
  unique = i.unique;
  keyed = λ k b g. let (e, m) = i.keyed k b g in (e, Memᴰ.tail m);
  served = λ b m. go b m;
}
  where
    go :
        (b : DroneAssignment)
        → Memᴰ b (a ∷ seen)
        → (c : DroneAssignment) × (Dict.get best b.drone_id ≡ some c) × (b.priority ≤ c.priority)
    go b (Memᴰ.head e) = (prev, rw e found, rw e (ground arith))
    go b (Memᴰ.tail m) = i.served b m

-- one that beats whatever is there
taken :
    (seen : List DroneAssignment) (best : Dict DroneAssignment) (a : DroneAssignment)
    → ((prev : DroneAssignment) → Dict.get best a.drone_id ≡ some prev → prev.priority ≤ a.priority)
    → IsBest seen best
    → IsBest (a ∷ seen) (Dict.put best a.drone_id a)
taken seen best a higher i = record {
  unique = put-IsUnique best a.drone_id a i.unique;
  keyed = λ k b g. elim (Bool-cases (a.drone_id == k)) [
    | inl y ↦
        (let h : some a ≡ some b = rw (get-put best a.drone_id k a, y) at g in
          let e : b ≡ a = sym (ap (λ o. or_else o a) h) in
          (ap (λ c. c.drone_id) e ∙ (eq_iff a.drone_id k).0 y, Memᴰ.head e))
    | inr n ↦
        (let h : Dict.get best k ≡ some b = rw (get-put best a.drone_id k a, n) at g in
          let (e, m) = i.keyed k b h in (e, Memᴰ.tail m))
  ];
  served = λ b m. go b m;
}
  where
    go :
        (b : DroneAssignment)
        → Memᴰ b (a ∷ seen)
        → (c : DroneAssignment) × (Dict.get (Dict.put best a.drone_id a) b.drone_id ≡ some c)
          × (b.priority ≤ c.priority)
    go b (Memᴰ.head e) = (a, rw e (get-put_self best a.drone_id a), rw e (omega arith))
    go b (Memᴰ.tail m) = elim (Bool-cases (a.drone_id == b.drone_id)) [
      | inl y ↦
          (let (c, f, le) = i.served b m in
            let hi = higher c (
              subst (λ k. Dict.get best k ≡ some c) (sym ((eq_iff a.drone_id b.drone_id).0 y)) f) in
            (a, get-put best a.drone_id b.drone_id a ∙ rw y refl, omega (arith, le, hi)))
      | inr n ↦
          (let (c, f, le) = i.served b m in (c, get-put best a.drone_id b.drone_id a ∙ rw n f, le))
    ]

kept-IsBest :
    (seen : List DroneAssignment) (best : Dict DroneAssignment) (a : DroneAssignment)
    → IsBest seen best
    → IsBest (a ∷ seen) (keep_best best a)
kept-IsBest seen best a i = go (Dict.get best a.drone_id) refl
  where
    go :
        (o : Option DroneAssignment)
        → Dict.get best a.drone_id ≡ o
        → IsBest (a ∷ seen) (if beats a o then Dict.put best a.drone_id a else best)
    go none e = taken seen best a (λ prev f. absurd (ground arith)) i
    go (some prev) e = choose (ltb prev.priority a.priority) refl
      where
        choose :
            (b : Bool)
            → ltb prev.priority a.priority ≡ b
            → IsBest (a ∷ seen) (if b then Dict.put best a.drone_id a else best)
        choose true h =
            taken seen best a
              (λ old f.
                (let same : old ≡ prev = ap (λ o. or_else o prev) (sym f ∙ e) in
                  rw same (ground arith)))
              i
        choose false h = beaten seen best a prev e h i

best_of-IsBest :
    (assignments seen : List DroneAssignment) (best : Dict DroneAssignment)
    → IsBest seen best
    → IsBest (reverse_onto assignments seen) (best_of assignments best)
unfolding best_of reverse_onto
best_of-IsBest [] seen best i = i
best_of-IsBest (a ∷ assignments) seen best i =
    best_of-IsBest assignments (a ∷ seen) (keep_best best a) (kept-IsBest seen best a i)

kept_on : {A : Type 0} → (xs ys : List A) (x : A) → Memᴰ x ys → Memᴰ x (reverse_onto xs ys)
unfolding reverse_onto
kept_on [] ys x m = m
kept_on (z ∷ xs) ys x m = kept_on xs (z ∷ ys) x (Memᴰ.tail m)

pub put_on : {A : Type 0} → (xs ys : List A) (x : A) → Memᴰ x xs → Memᴰ x (reverse_onto xs ys)
unfolding reverse_onto
put_on [] ys x m = absurd (Memᴰ.not-nil m)
put_on (z ∷ xs) ys x (Memᴰ.head e) = kept_on xs (z ∷ ys) x (Memᴰ.head e)
put_on (z ∷ xs) ys x (Memᴰ.tail m) = put_on xs (z ∷ ys) x m

pub taken_from :
    {A : Type 0} → (xs ys : List A) (x : A) → Memᴰ x (reverse_onto xs ys) → Memᴰ x xs ⊎ Memᴰ x ys
unfolding reverse_onto
taken_from [] ys x m = inr m
taken_from (z ∷ xs) ys x m = elim (taken_from xs (z ∷ ys) x m) [
  | inl n ↦ inl (Memᴰ.tail n)
  | inr (Memᴰ.head e) ↦ inl (Memᴰ.head e)
  | inr (Memᴰ.tail n) ↦ inr n
]

none_seen : IsBest [] []
unfolding Dict.get
none_seen = record {
  unique = tt;
  keyed = λ k a g. absurd (ground arith);
  served = λ a m. absurd (Memᴰ.not-nil m);
}

pub best_at_end :
    (assignments : List DroneAssignment)
    → IsBest (reverse_onto assignments []) (best_of assignments [])
best_at_end assignments = best_of-IsBest assignments [] [] none_seen
