-- ===== src/CommandNodes/Takeover.antt =====
-- When the backup takes over.
use wfc.Prelude.{
  ℕ, suc, zero, ◌+◌, ◌≤◌, ◌<◌, ◌≡◌, true, false, arith, leb, ◌⊎◌, inl, inr, Bool-cases,
}
use wfc.Lease.{check_lease_and_maybe_promote}
use wfc.CommandNodes.{Outlook, Promotion, promoted, aborted, confirm}

-- the lease is stale after so many seconds
abbrev pub IsStale : Outlook → ℕ → ℕ → Type 0
IsStale o start k = check_lease_and_maybe_promote (start + k) (o.lease k) ≡ true

-- the lease is not stale at the looks from one second on and before another
abbrev pub IsHeld : Outlook → ℕ → ℕ → ℕ → Type 0
IsHeld o start from until =
    (j : ℕ) → from ≤ j → j < until → check_lease_and_maybe_promote (start + j) (o.lease j) ≡ false

-- how it came out, and why
pub data Verdict (o : Outlook) (start waited : ℕ) : Promotion → Type 0 where
  stale_lease :
      (k : ℕ)
      → waited ≤ k
      → k ≤ 10
      → IsStale o start k
      → IsHeld o start waited k
      → ((j : ℕ) → waited < j → j ≤ k → o.alive j ≡ false)
      → Verdict o start waited promoted
  out_of_patience :
      IsHeld o start waited 11
      → ((j : ℕ) → waited < j → j ≤ 10 → o.alive j ≡ false)
      → Verdict o start waited promoted
  primary_back :
      (k : ℕ)
      → waited < k
      → k ≤ 10
      → o.alive k ≡ true
      → IsHeld o start waited k
      → ((j : ℕ) → waited < j → j < k → o.alive j ≡ false)
      → Verdict o start waited aborted

next_or_later : (w j : ℕ) → w < j → (j ≡ suc w) ⊎ (suc w < j)
next_or_later w j lt = elim (Bool-cases (leb j (suc w))) [
  | inl y ↦ inl (ground arith)
  | inr n ↦ inr (ground arith)
]

this_or_later : (w j : ℕ) → w ≤ j → (j ≡ w) ⊎ (suc w ≤ j)
this_or_later w j le = elim (Bool-cases (leb j w)) [
  | inl y ↦ inl (ground arith)
  | inr n ↦ inr (ground arith)
]

-- the looks that begin a second earlier, or later
hold_on :
    (o : Outlook) (start w k : ℕ)
    → check_lease_and_maybe_promote (start + w) (o.lease w) ≡ false
    → IsHeld o start (suc w) k
    → IsHeld o start w k
hold_on o start w k held fresh j x y = elim (this_or_later w j x) [
  | inl e ↦ rw e held
  | inr z ↦ fresh j z y
]

-- a second that passed with the lease fresh and the primary away
later :
    (o : Outlook) (start w : ℕ) (p : Promotion)
    → check_lease_and_maybe_promote (start + w) (o.lease w) ≡ false
    → o.alive (suc w) ≡ false
    → Verdict o start (suc w) p
    → Verdict o start w p
later o start w p held gone (stale_lease k l m stale fresh away) =
    stale_lease k (omega arith) m stale (hold_on o start w k held fresh)
      (λ j x y. elim (next_or_later w j x) [ inl e ↦ rw e gone | inr z ↦ away j z y ])
later o start w p held gone (out_of_patience fresh away) =
    out_of_patience (hold_on o start w 11 held fresh)
      (λ j x y. elim (next_or_later w j x) [ inl e ↦ rw e gone | inr z ↦ away j z y ])
later o start w p held gone (primary_back k l m back fresh away) =
    primary_back k (omega arith) m back (hold_on o start w k held fresh)
      (λ j x y. elim (next_or_later w j x) [ inl e ↦ rw e gone | inr z ↦ away j z y ])

-- only this look
just-IsHeld :
    (o : Outlook) (start w : ℕ)
    → check_lease_and_maybe_promote (start + w) (o.lease w) ≡ false
    → IsHeld o start w (suc w)
just-IsHeld o start w held j l m = let e : j ≡ w = omega arith in rw e held

confirm-Verdict :
    (fuel : ℕ) (o : Outlook) (start waited : ℕ)
    → waited ≤ 10
    → 11 ≤ fuel + waited
    → Verdict o start waited (confirm fuel o start waited)
unfolding confirm
confirm-Verdict zero o start waited le enough = absurd (omega arith)
confirm-Verdict (suc fuel) o start waited le enough =
    elim (Bool-cases (check_lease_and_maybe_promote (start + waited) (o.lease waited))) [
      | inl stale ↦ rw stale (
          stale_lease waited (omega arith) le stale (λ j l m. absurd (omega arith))
            (λ j l m. absurd (omega arith)))
      | inr held ↦ elim (Bool-cases (leb 10 waited)) [
        | inl late ↦
            (let last : waited ≡ 10 = ground arith in
              rw (held, late)
                (out_of_patience (λ j l m. (let e : j ≡ waited = omega arith in rw e held))
                  (λ j l m. absurd (omega arith))))
        | inr early ↦ elim (Bool-cases (o.alive (suc waited))) [
          | inl back ↦
              rw (held, early, back)
                (primary_back (suc waited) (omega arith) (ground arith) back
                  (just-IsHeld o start waited held) (λ j l m. absurd (omega arith)))
          | inr gone ↦
              rw (held, early, gone)
                (later o start waited _ held gone
                  (confirm-Verdict fuel o start (suc waited) (ground arith) (omega arith)))
        ]
      ]
    ]

-- The loop by which the backup decides on a takeover ends after eleven looks at most, whatever lease and
-- primary it sees. It promotes where the lease was stale at a look within ten seconds and at none before, or
-- after all ten of them with a lease that was fresh at every look, in both cases with the primary away until
-- then; it gives up only where the primary was back within them, and not earlier, the lease having been fresh
-- at every look before.
pub takeover_decided : (o : Outlook) (start : ℕ) → Verdict o start 0 (confirm 11 o start 0)
takeover_decided o start = confirm-Verdict 11 o start 0 (omega arith) (omega arith)
