-- ===== src/Examples/Uuids.antt =====
-- A supply of uuids of which no two are the same.
use Prim.Native.String.{◌∷◌ as prepend, [] as no_text}
use wfc.Prelude.{ℕ, zero, suc, ◌+◌, ◌≡◌, ap, String, arith}
use wfc.Dispatch.{Ids}

-- "uuid" after as many more letters
abbrev pub tally : ℕ → String
tally zero = "uuid"
tally (suc n) = prepend "u" (tally n)

abbrev pub size : String → ℕ
size no_text = 0
size (prepend c s) = suc (size s)

pub size-tally : (n : ℕ) → size (tally n) ≡ n + 4
size-tally zero = omega arith
size-tally (suc n) = let e = size-tally n in omega (arith, e)

pub tally_differ : (m n : ℕ) → tally m ≡ tally n → m ≡ n
tally_differ m n e =
    let p = size-tally m in let q = size-tally n in let r = ap size e in omega (arith, p, q, r)

abbrev pub plain_ids : Ids
plain_ids = record { uuid4 = tally; uuid5 = λ key. key }
