-- ===== src/Group/Send.antt =====
-- What sending a message does: `Send` of `perform`.
use ape_server.Prelude.{
  ◌+◌, ◌≡◌, ◌⊎◌, refl, ap, inl, inr, true, none, some, [], ◌∷◌, ◌++◌, Bytes, bytes_eq, bytes_eq→eq,
  collates_refl, Option-cases, arith, find, update, find-true, Ensures,
}
use ape_server.Group.Data.{Db, Env, Command, Operation, GroupRow, MessageRow, Reply}
use ape_server.Group.Store.{is_group}
use ape_server.Group.Talk
use ape_server.Group.Talk.{is_request, new_message, is_fresh, append_message}
use ape_server.Group.Perform.{act, context, perform}
use ape_server.Group.Invariant.Opened.{last_state}
use ape_server.Group.Reach.{Names}
use ape_server.Group.Access.{perform-act}

-- The message that a reply carries is the actor's, with the text and the request that the command has.
pub record IsAnswer (row : GroupRow) (cmd : Command) (m : MessageRow) : Type 0 where
  pub requested : is_request row.id cmd.actor cmd.client_id m ≡ true
  pub same_text : m.text ≡ cmd.text

-- Either the request was stored before, and nothing changes, or it is the group's next message.
pub record Sends (row : GroupRow) (cmd : Command) (db : Db) (o : Db × Reply) : Type 0 where
  pub message : MessageRow
  pub answered : o.1.messages ≡ message ∷ []
  pub answer : IsAnswer row cmd message
  pub stored :
      ((find (is_request row.id cmd.actor cmd.client_id) db.messages ≡ some message) × (o.0 ≡ db))
      ⊎ ((find (is_request row.id cmd.actor cmd.client_id) db.messages ≡ none)
          × (message.seq ≡ row.last_seq + 1)
          × (o.0.messages ≡ db.messages ++ message ∷ [])
          × (o.0.groups
              ≡ update
                  (is_group row.id)
                  (λ (g : GroupRow). record g { last_seq = row.last_seq + 1 })
                  db.groups))

module _ (env : Env) (cmd : Command) (nickname : Bytes) (db : Db) (row : GroupRow) where
  fresh-Sends :
      find (is_request row.id cmd.actor cmd.client_id) db.messages ≡ none
      → Sends row cmd db (
        append_message (context env cmd nickname db row),
        record (context env cmd nickname db row).reply {
          messages = new_message (context env cmd nickname db row) ∷ [];
        },
      )
  unfolding context
  fresh-Sends e = record {
    message = new_message (context env cmd nickname db row);
    answered = refl;
    answer = record { requested = ground (arith, collates_refl cmd.client_id); same_text = refl };
    stored =
        let last : (context env cmd nickname db row).group.last_seq ≡ row.last_seq =
          last_state db row cmd.actor in
        inr (
          e,
          ap (λ n. n + 1) last,
          refl,
          ap
              (λ n.
                update (is_group row.id) (λ (g : GroupRow). record g { last_seq = n + 1 })
                  db.groups)
              last,
        );
  }

  stored-Sends :
      (m : MessageRow)
      → find (is_request row.id cmd.actor cmd.client_id) db.messages ≡ some m
      → bytes_eq m.text cmd.text ≡ true
      → Sends row cmd db (db, record (context env cmd nickname db row).reply { messages = m ∷ [] })
  stored-Sends m e h = record {
    message = m;
    answered = refl;
    answer = record {
      requested = find-true (is_request row.id cmd.actor cmd.client_id) db.messages e;
      same_text = bytes_eq→eq m.text cmd.text h;
    };
    stored = inl (e, refl);
  }

  send-Sends : Ensures (Sends row cmd db) (Talk.send (context env cmd nickname db row))
  unfolding Talk.send context
  send-Sends = elim (Option-cases (find (is_request row.id cmd.actor cmd.client_id) db.messages)) [
    | inl e ↦ rw e (ground (arith, fresh-Sends e))
    | inr (m, e) ↦ rw e (ground (arith, stored-Sends m e))
  ]

-- A sent message is the actor's, with the command's text and request identifier. If the request was
-- stored before, the reply carries the stored message and no table changes; otherwise the message
-- takes the number after the group's last one, is added to the messages, and the group's last
-- number becomes its number.
pub perform-Sends :
    (env : Env) (cmd : Command) (db : Db) (row : GroupRow)
    → Names cmd db row
    → cmd.operation ≡ Operation.send
    → Ensures (Sends row cmd db) (perform env cmd db)
unfolding act
perform-Sends env cmd db row n h =
    perform-act (Sends row cmd db) env cmd db row n Operation.send h refl
      λ nickname. send-Sends env cmd nickname db row
