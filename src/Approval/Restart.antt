-- ===== src/Approval/Restart.antt =====
-- PendingCommandStore.__init__ with PendingRepository.get_all: the entries that a restarted store has.
use wfc.Prelude.{ℕ, ◌≡◌, refl, String, Option, none, some, [], ◌∷◌, arith, eq_iff, eq_refl, ◌∙◌}
use wfc.Dict
use wfc.Dict.{Dict, get-put, IsUnique}
use wfc.Events.{EventLog}
use wfc.Dispatch.{Desk}
use wfc.Approval.{PendingCommand, Gate}

-- the loop of __init__ over PendingRepository.get_all
unfoldable pub hydrate_rows : Dict PendingCommand → Dict PendingCommand → Dict PendingCommand
hydrate_rows [] store = store
hydrate_rows ((k, p) ∷ rows) store = hydrate_rows rows (Dict.put store p.pending_id p)

-- PendingCommandStore.__init__(dispatcher, ttl, db, event_log)
unfoldable pub open_store : Desk → Option ℕ → Option (Dict PendingCommand) → Option EventLog → Gate
unfolding hydrate_rows
open_store desk ttl none event_log = record {
  desk = desk;
  ttl = ttl;
  store = [];
  repo = none;
  event_log = event_log;
}
open_store desk ttl (some rows) event_log = record {
  desk = desk;
  ttl = ttl;
  store = hydrate_rows rows [];
  repo = some rows;
  event_log = event_log;
}

-- every row is under its own id
abbrev IsKeyed : Dict PendingCommand → Type 0
IsKeyed rows = (k : String) (p : PendingCommand) → Dict.get rows k ≡ some p → p.pending_id ≡ k

abbrev or_before : Option PendingCommand → Option PendingCommand → Option PendingCommand
or_before none before = before
or_before (some p) before = some p

get-hydrate_rows :
    (rows store : Dict PendingCommand) (k : String)
    → IsUnique rows
    → IsKeyed rows
    → Dict.get (hydrate_rows rows store) k ≡ or_before (Dict.get rows k) (Dict.get store k)
unfolding hydrate_rows Dict.get
get-hydrate_rows [] store k u keyed = refl
get-hydrate_rows ((j, p) ∷ rows) store k u keyed =
    let id : p.pending_id ≡ j = keyed j p (rw (eq_refl j)) in
    let rest =
      get-hydrate_rows rows (Dict.put store p.pending_id p) k u.1
        (λ i q g. keyed i q (ground (arith, eq_iff j i, g, u.0))) in
    ground (arith, rest, get-put store p.pending_id k p, eq_iff j k, u.0)

nothing_before :
    (o : Option PendingCommand) (k : String) → or_before o (Dict.get {V = PendingCommand} [] k) ≡ o
unfolding Dict.get
nothing_before none k = refl
nothing_before (some p) k = refl

-- A store that is opened on a table with unique keys, each row under its own id, has exactly the
-- entries of the table.
open_store_entries :
    (desk : Desk) (ttl : Option ℕ) (rows : Dict PendingCommand) (event_log : Option EventLog)
    (k : String)
    → IsUnique rows
    → IsKeyed rows
    → Dict.get (open_store desk ttl (some rows) event_log).store k ≡ Dict.get rows k
unfolding open_store
open_store_entries desk ttl rows event_log k u keyed =
    get-hydrate_rows rows [] k u keyed ∙ nothing_before (Dict.get rows k) k
