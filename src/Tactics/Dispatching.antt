-- ===== src/Tactics/Dispatching.antt =====
-- What is left of the assignments that a leader dispatches.
use mathlib.Core.List.Memᴰ
use mathlib.Core.Path.{subst}
use wfc.Prelude.{
  ◌≤◌, ◌≡◌, refl, ap, Bool, true, false, String, Option, none, some, List, [], ◌∷◌, Memᴰ, arith,
  ◌==◌, eq_iff, eq_refl, inl, inr, Bool-cases, contains, IsDistinct, or_else, if◌then◌else◌,
}
use wfc.Dict
use wfc.Dict.{Dict, get-put, get-put_self, IsUnique, put-IsUnique}
use wfc.Tactics.{
  DroneAssignment, DroneCommand, recall, retask, best_of, command_of, if_any, commands_of,
  dispatch_assignments,
}
use wfc.Tactics.Best.{reverse_onto, put_on, taken_from, best_at_end}

-- the command of an assignment, if it has one, was sent
abbrev pub IsSent : Option DroneCommand → List DroneCommand → Type 0
IsSent none commands = Unit
IsSent (some c) commands = Memᴰ c commands

abbrev pub targets : List DroneCommand → List String
targets [] = []
targets (c ∷ cs) = c.target_node ∷ targets cs

-- where a command goes, if there is one
abbrev target_or : String → Option DroneCommand → String
target_or d none = d
target_or d (some c) = c.target_node

-- a command goes to the drone of its assignment
command_of-target : (a : DroneAssignment) → target_or a.drone_id (command_of a) ≡ a.drone_id
command_of-target a = either (a.task == "RETURNING") (some (recall a)) _ refl (
    either (a.task == "SCOUTING") (some (retask a)) _ refl (
      either (a.task == "SUPPRESSING") (some (retask a)) _ refl
        (either (a.task == "IDLE") (some (retask a)) none refl refl)))
  where
    either :
        (b : Bool) (x y : Option DroneCommand)
        → target_or a.drone_id x ≡ a.drone_id
        → target_or a.drone_id y ≡ a.drone_id
        → target_or a.drone_id (if b then x else y) ≡ a.drone_id
    either true x y p q = p
    either false x y p q = q

first-IsSent : (o : Option DroneCommand) (rest : List DroneCommand) → IsSent o (if_any o rest)
first-IsSent none rest = tt
first-IsSent (some c) rest = Memᴰ.head refl

later-IsSent :
    (o p : Option DroneCommand) (rest : List DroneCommand)
    → IsSent o rest
    → IsSent o (if_any p rest)
later-IsSent none p rest i = tt
later-IsSent (some c) none rest i = i
later-IsSent (some c) (some d) rest i = Memᴰ.tail i

best-IsSent :
    (best : Dict DroneAssignment) (k : String) (a : DroneAssignment)
    → Dict.get best k ≡ some a
    → IsSent (command_of a) (commands_of best)
unfolding Dict.get commands_of
best-IsSent [] k a g = absurd (ground arith)
best-IsSent ((j, b) ∷ best) k a g = elim (Bool-cases (j == k)) [
  | inl y ↦
      let h : some b ≡ some a = rw y at g in
      subst (λ x. IsSent (command_of x) (if_any (command_of b) (commands_of best)))
        (ap (λ o. or_else o a) h) (first-IsSent (command_of b) (commands_of best))
  | inr n ↦
      let h : Dict.get best k ≡ some a = rw n at g in
      later-IsSent (command_of a) (command_of b) (commands_of best) (best-IsSent best k a h)
]

-- every assignment stands under its own drone
abbrev OwnKeys : Dict DroneAssignment → Type 0
OwnKeys best = (k : String) (a : DroneAssignment) → Dict.get best k ≡ some a → a.drone_id ≡ k

tail-OwnKeys :
    (k : String) (a : DroneAssignment) (best : Dict DroneAssignment)
    → Dict.get best k ≡ none
    → OwnKeys ((k, a) ∷ best)
    → OwnKeys best
unfolding Dict.get
tail-OwnKeys k a best new own j b g = own j b (elim (Bool-cases (k == j)) [
  | inl y ↦ absurd (let same = (eq_iff k j).0 y in ground arith)
  | inr n ↦ rw n g
])

if_any-targets :
    (o : Option DroneCommand) (d x : String) (rest : List DroneCommand)
    → target_or d o ≡ d
    → (d == x) ≡ false
    → contains (targets rest) x ≡ false
    → contains (targets (if_any o rest)) x ≡ false
unfolding contains
if_any-targets none d x rest e n h = h
if_any-targets (some c) d x rest e n h = rw (e, n) h

not_targeted :
    (best : Dict DroneAssignment) (x : String)
    → IsUnique best
    → OwnKeys best
    → Dict.get best x ≡ none
    → contains (targets (commands_of best)) x ≡ false
unfolding commands_of contains Dict.get
not_targeted [] x u own g = refl
not_targeted ((k, a) ∷ best) x u own g = elim (Bool-cases (k == x)) [
  | inl y ↦ absurd (ground arith)
  | inr n ↦
      let h : Dict.get best x ≡ none = rw n at g in
      let rest = not_targeted best x u.1 (tail-OwnKeys k a best u.0 own) h in
      let at_key : a.drone_id ≡ k = own k a (rw (eq_refl k) refl) in
      if_any-targets (command_of a) a.drone_id x (commands_of best) (command_of-target a)
        (rw at_key n) rest
]

if_any-IsDistinct :
    (o : Option DroneCommand) (d : String) (rest : List DroneCommand)
    → target_or d o ≡ d
    → contains (targets rest) d ≡ false
    → IsDistinct (targets rest)
    → IsDistinct (targets (if_any o rest))
if_any-IsDistinct none d rest e h i = i
if_any-IsDistinct (some c) d rest e h i = (rw e h, i)

targets-IsDistinct :
    (best : Dict DroneAssignment)
    → IsUnique best
    → OwnKeys best
    → IsDistinct (targets (commands_of best))
unfolding commands_of Dict.get
targets-IsDistinct [] u own = tt
targets-IsDistinct ((k, a) ∷ best) u own =
    let later = tail-OwnKeys k a best u.0 own in
    let at_key : a.drone_id ≡ k = own k a (rw (eq_refl k) refl) in
    if_any-IsDistinct (command_of a) a.drone_id (commands_of best) (command_of-target a)
      (rw at_key (not_targeted best k u.1 later u.0)) (targets-IsDistinct best u.1 later)

-- Of the assignments that a leader dispatches, no drone gets two commands.
pub dispatch-IsDistinct :
    (assignments : List DroneAssignment) → IsDistinct (targets (dispatch_assignments assignments))
unfolding dispatch_assignments
dispatch-IsDistinct assignments =
    let i = best_at_end assignments in
    targets-IsDistinct (best_of assignments []) i.unique (λ k a g. (i.keyed k a g).0)

-- Whatever assignments a leader dispatches: for each of them, one of the assignments of its drone with at
-- least its priority is chosen, and if that has a command then it is sent; and no drone gets two commands.
pub dispatch_serves :
    (assignments : List DroneAssignment) (a : DroneAssignment)
    → Memᴰ a assignments
    → (b : DroneAssignment) × Memᴰ b assignments
      × (b.drone_id ≡ a.drone_id)
      × (a.priority ≤ b.priority)
      × IsSent (command_of b) (dispatch_assignments assignments)
      × IsDistinct (targets (dispatch_assignments assignments))
unfolding dispatch_assignments
dispatch_serves assignments a m =
    let i = best_at_end assignments in
    let (b, f, le) = i.served a (put_on assignments [] a m) in
    let (e, n) = i.keyed a.drone_id b f in
    (
      b,
      chosen b n,
      e,
      le,
      best-IsSent (best_of assignments []) a.drone_id b f,
      dispatch-IsDistinct assignments,
    )
  where
    chosen : (b : DroneAssignment) → Memᴰ b (reverse_onto assignments []) → Memᴰ b assignments
    chosen b n = elim (taken_from assignments [] b n) [
      | inl x ↦ x
      | inr x ↦ absurd (Memᴰ.not-nil x)
    ]
