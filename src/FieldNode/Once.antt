-- ===== src/FieldNode/Once.antt =====
-- No command is executed twice.
use wfc.Prelude.{
  ℕ, ◌≡◌, refl, Bool, true, false, String, Option, none, some, List, [], ◌∷◌, arith, contains,
  IsDistinct, if◌then◌else◌,
}
use wfc.Shared.Commands.{Payload}
use wfc.FieldNode.{
  CommandMessage, FieldNode, send_ack, known_type, named_trace, conclude, perform, handle_trace,
  handle_command, handle_commands,
}

module _ {S : Type 0} (execute : String → Payload → String → S → S × Bool) where
  -- the same, with a list of the traces of the commands that were executed without an exception
  abbrev pub recorded : String → Payload → String → S × List String → (S × List String) × Bool
  recorded command_type payload trace_id (s, done) =
      let (s', ok) = execute command_type payload trace_id s in
      ((s', if ok then trace_id ∷ done else done), ok)

  -- the record is without repetition, and within what the node says that it handled
  record IsOnce (n : FieldNode (S × List String)) : Type 0 where
    distinct : IsDistinct n.state.1
    within : (t : String) → contains n.state.1 t ≡ true → contains n.handled_trace_ids t ≡ true

  concluded-IsOnce :
      (trace_id : String) (now : ℕ) (s : S) (ok : Bool) (n : FieldNode (S × List String))
      → contains n.handled_trace_ids trace_id ≡ false
      → IsOnce n
      → IsOnce (
          conclude recorded trace_id now
            ((s, if ok then trace_id ∷ n.state.1 else n.state.1), ok)
            n)
  unfolding contains
  concluded-IsOnce trace_id now s false n fresh o = record {
    distinct = o.distinct;
    within = o.within;
  }
  concluded-IsOnce trace_id now s true n fresh o = record {
    distinct = (ground (arith, o.within trace_id), o.distinct);
    within = λ t h. ground (arith, o.within t);
  }

  performed-IsOnce :
      (trace_id : String) (o : Option String) (payload : Payload) (now : ℕ)
      (n : FieldNode (S × List String))
      → contains n.handled_trace_ids trace_id ≡ false
      → IsOnce n
      → IsOnce (perform recorded trace_id o payload now n)
  performed-IsOnce trace_id none payload now n fresh o = record {
    distinct = o.distinct;
    within = o.within;
  }
  performed-IsOnce trace_id (some command_type) payload now n fresh o =
      let (s, ok) = execute command_type payload trace_id n.state.0 in
      concluded-IsOnce trace_id now s ok n fresh o

  handled-IsOnce :
      (o : Option String) (m : CommandMessage) (now : ℕ) (n : FieldNode (S × List String))
      → IsOnce n
      → IsOnce (handle_trace recorded o m now n)
  handled-IsOnce none m now n o = o
  handled-IsOnce (some trace_id) m now n o = go (contains n.handled_trace_ids trace_id) refl
    where
      go :
          (b : Bool)
          → contains n.handled_trace_ids trace_id ≡ b
          → IsOnce (
              if b
              then send_ack trace_id "EXECUTED" now n
              else perform recorded trace_id
                  (known_type m.command_type)
                  m.payload
                  now
                  (send_ack trace_id "RECEIVED" now n))
      go true e = record { distinct = o.distinct; within = o.within }
      go false e =
          performed-IsOnce trace_id (known_type m.command_type) m.payload now
            (send_ack trace_id "RECEIVED" now n) e
            (record { distinct = o.distinct; within = o.within })

  handle_commands-IsOnce :
      (ms : List (CommandMessage × ℕ)) (n : FieldNode (S × List String))
      → IsOnce n
      → IsOnce (handle_commands recorded ms n)
  unfolding handle_commands handle_command
  handle_commands-IsOnce [] n o = o
  handle_commands-IsOnce ((m, now) ∷ ms) n o =
      handle_commands-IsOnce ms _ (handled-IsOnce (named_trace m.trace_id) m now n o)

  -- Whatever commands are delivered, in whatever order and however often, and whatever a subclass does
  -- with them: from a node that has handled none, no command is executed to its end twice.
  pub executed_once :
      (ms : List (CommandMessage × ℕ)) (n : FieldNode (S × List String))
      → n.state.1 ≡ []
      → IsDistinct (handle_commands recorded ms n).state.1
  unfolding contains
  executed_once ms n empty =
      (handle_commands-IsOnce ms n
        (record { distinct = rw empty tt; within = λ t h. absurd (ground arith) })).distinct
