-- ===== src/Nodes/Calls.antt =====
-- Any sequence of calls of NodeRegistry's methods: the keys, and how a node becomes ACTIVE.
use wfc.Prelude.{
  ℕ, ◌≡◌, refl, String, Option, none, some, List, [], ◌∷◌, inl, inr, Bool-cases, Option-cases,
}
use wfc.Dict
use wfc.Dict.{Dict, get-put, IsUnique, put-IsUnique}
use wfc.Shared.Status.{NodeStatus, unregistered, registered, active, offline}
use wfc.Nodes.{
  Announcement, NodeRecord, NodeRegistry, has_updates, updated, new_node, seen_alive, get, save,
  register, grant_active, heartbeat, mark_offline, assign_job, release_job,
}

pub data NodeCall : Type 0 where
  register_call : String → Announcement → ℕ → NodeCall
  grant_active_call : String → NodeCall
  heartbeat_call : String → ℕ → NodeCall
  mark_offline_call : String → NodeCall
  assign_job_call : String → String → NodeCall
  release_job_call : String → NodeCall

unfoldable pub call : NodeCall → NodeRegistry → NodeRegistry
call (register_call n a now) s = register n a now s
call (grant_active_call n) s = (grant_active n s).0
call (heartbeat_call n now) s = (heartbeat n now s).0
call (mark_offline_call n) s = mark_offline n s
call (assign_job_call n fire_id) s = assign_job n fire_id s
call (release_job_call n) s = release_job n s

unfoldable pub run : List NodeCall → NodeRegistry → NodeRegistry
unfolding call
run [] s = s
run (c ∷ cs) s = run cs (call c s)

-- how a call may set the record of the key `k`, which had the record `old`
pub data Edit (c : NodeCall) (k : String) (old : Option NodeRecord) (r : NodeRecord) : Type 0 where
  announced : (a : Announcement) (now : ℕ) → old ≡ none → r ≡ new_node k a now → Edit c k old r
  refreshed : (q : NodeRecord) (a : Announcement) → old ≡ some q → r ≡ updated q a → Edit c k old r
  granted :
      (q : NodeRecord)
      → c ≡ grant_active_call k
      → old ≡ some q
      → r ≡ record q { status = active }
      → Edit c k old r
  alive :
      (q : NodeRecord) (now : ℕ)
      → c ≡ heartbeat_call k now
      → old ≡ some q
      → r ≡ seen_alive q now
      → Edit c k old r
  lost : (q : NodeRecord) → old ≡ some q → r ≡ record q { status = offline } → Edit c k old r
  tasked :
      (q : NodeRecord) (job : Option String)
      → old ≡ some q
      → r ≡ record q { current_job = job }
      → Edit c k old r

-- what a call does to the records: nothing, or one record set under its key
pub data Edited (c : NodeCall) (s s' : NodeRegistry) : Type 0 where
  untouched : s'.nodes ≡ s.nodes → Edited c s s'
  edited :
      (k : String) (r : NodeRecord)
      → Edit c k (get s k) r
      → s'.nodes ≡ Dict.put s.nodes k r
      → Edited c s s'

module _ (n : String) (s : NodeRegistry) where
  register-Edited :
      (a : Announcement) (now : ℕ) → Edited (register_call n a now) s (register n a now s)
  unfolding register save
  register-Edited a now = elim (Option-cases (Dict.get s.nodes n)) [
    | inl e ↦ rw (e, register) (edited n (new_node n a now) (announced a now e refl) refl)
    | inr (q, e) ↦ elim (Bool-cases (has_updates q a)) [
      | inl y ↦ rw (e, register) (rw y (edited n (updated q a) (refreshed q a e refl) refl))
      | inr y ↦ rw (e, register) (rw y (untouched refl))
    ]
  ]

  grant_active-Edited : Edited (grant_active_call n) s (grant_active n s).0
  unfolding grant_active
  grant_active-Edited = elim (Option-cases (Dict.get s.nodes n)) [
    | inl e ↦ rw (e, grant_active) (untouched refl)
    | inr (q, e) ↦ rw (e, grant_active) (by_status q e q.status)
  ]
    where
      by_status :
          (q : NodeRecord)
          → Dict.get s.nodes n ≡ some q
          → (status : NodeStatus)
          → Edited
              (grant_active_call n)
              s
              (elim status as (λ _. NodeRegistry × Option (String × List String)) [
                | registered ↦ (
                  record s { nodes = Dict.put s.nodes n (record q { status = active }) },
                  some (n, q.capabilities),
                )
                | _ ↦ (s, none)
              ]).0
      by_status q e registered =
          edited n (record q { status = active }) (granted q refl e refl) refl
      by_status q e unregistered = untouched refl
      by_status q e active = untouched refl
      by_status q e offline = untouched refl

  heartbeat-Edited : (now : ℕ) → Edited (heartbeat_call n now) s (heartbeat n now s).0
  unfolding heartbeat save
  heartbeat-Edited now = elim (Option-cases (Dict.get s.nodes n)) [
    | inl e ↦ rw (e, heartbeat) (untouched refl)
    | inr (q, e) ↦ rw (e, heartbeat) (edited n (seen_alive q now) (alive q now refl e refl) refl)
  ]

  mark_offline-Edited : Edited (mark_offline_call n) s (mark_offline n s)
  unfolding mark_offline save
  mark_offline-Edited = elim (Option-cases (Dict.get s.nodes n)) [
    | inl e ↦ rw (e, mark_offline) (untouched refl)
    | inr (q, e) ↦
        rw (e, mark_offline) (edited n (record q { status = offline }) (lost q e refl) refl)
  ]

  assign_job-Edited : (f : String) → Edited (assign_job_call n f) s (assign_job n f s)
  unfolding assign_job save
  assign_job-Edited f = elim (Option-cases (Dict.get s.nodes n)) [
    | inl e ↦ rw (e, assign_job) (untouched refl)
    | inr (q, e) ↦
        rw (e, assign_job)
          (edited n (record q { current_job = some f }) (tasked q (some f) e refl) refl)
  ]

  release_job-Edited : Edited (release_job_call n) s (release_job n s)
  unfolding release_job save
  release_job-Edited = elim (Option-cases (Dict.get s.nodes n)) [
    | inl e ↦ rw (e, release_job) (untouched refl)
    | inr (q, e) ↦
        rw (e, release_job) (edited n (record q { current_job = none }) (tasked q none e refl) refl)
  ]

pub call-Edited : (c : NodeCall) (s : NodeRegistry) → Edited c s (call c s)
unfolding call
call-Edited (register_call n a now) s = register-Edited n s a now
call-Edited (grant_active_call n) s = grant_active-Edited n s
call-Edited (heartbeat_call n now) s = heartbeat-Edited n s now
call-Edited (mark_offline_call n) s = mark_offline-Edited n s
call-Edited (assign_job_call n f) s = assign_job-Edited n s f
call-Edited (release_job_call n) s = release_job-Edited n s
