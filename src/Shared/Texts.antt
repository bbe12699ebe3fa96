-- ===== src/Shared/Texts.antt =====
-- Python's `str` of a whole number.
use Prim.Native.String.{◌++◌ as join, slice}
use wfc.Prelude.{
  ℕ, zero, suc, ◌+◌, ◌/◌, ◌%◌, ◌≤◌, ◌≡◌, refl, ap, arith, true, false, inl, inr, Bool-cases, String,
  ltb,
}

abbrev digit : ℕ → String
digit d = slice "0123456789" d (d + 1)

-- recursion on the number of digits that are left at most
unfoldable decimal_within : ℕ → ℕ → String
decimal_within zero n = ""
decimal_within (suc fuel) n = elim (ltb n 10) [
  | true ↦ digit n
  | false ↦ join (decimal_within fuel (n / 10)) (digit (n % 10))
]

-- str(n)
unfoldable pub decimal : ℕ → String
unfolding decimal_within
decimal n = decimal_within (suc n) n

-- any two supplies of fuel above the number give the same text
decimal_enough : (k m n : ℕ) → n ≤ k → n ≤ m → decimal_within (suc k) n ≡ decimal_within (suc m) n
unfolding decimal_within
decimal_enough zero m n p q =
    let small : ltb n 10 ≡ true = ground arith in rw (decimal_within, small) refl
decimal_enough (suc k) zero n p q =
    let small : ltb n 10 ≡ true = ground arith in rw (decimal_within, small) refl
decimal_enough (suc k) (suc m) n p q = elim (Bool-cases (ltb n 10)) [
  | inl y ↦ rw (decimal_within, y) refl
  | inr large ↦
      let shorter = decimal_enough k m (n / 10) (ground arith) (ground arith) in
      rw (decimal_within, large) (ap (λ s. join s (digit (n % 10))) shorter)
]

decimal_runs : decimal 1205 ≡ "1205"
unfolding decimal
decimal_runs = refl
