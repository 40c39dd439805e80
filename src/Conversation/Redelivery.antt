-- ===== src/Conversation/Redelivery.antt =====
-- A message that is delivered again is recorded once: what recording it leaves, and recording it again.
use ape_server.Prelude.{
  ℕ, ◌≤◌, ◌≡◌, refl, ap, ◌∙◌, inl, inr, true, false, List, [], ◌∷◌, ◌++◌, Bytes, bytes_eq_refl,
  Bool-cases, arith, any, All, All-append, All-mono, All-update, any-update, any-append_left,
  any-append_right, update-All, update_same, unmatched,
}
use ape_server.Conversation.Data.{ConversationRow, UnreadRow, Db, Message, is_of}
use ape_server.Conversation.Record.{
  newer, new_conversation, upsert, upsert_both, adds_unread, add_unread, is_same_unread,
}

module _ (m : Message) where
  -- The row holds the message's number or a later one, if it is the owner's.
  abbrev pub IsCovered : ℕ → ConversationRow → Type 0
  IsCovered o r = is_of o m.conversation r ≡ true → m.seq ≤ r.max_seq

  pub record Covers (o : ℕ) (rows : List ConversationRow) : Type 0 where
    pub there : any (is_of o m.conversation) rows ≡ true
    pub covered : All (IsCovered o) rows

  -- What recording the message leaves: nothing of it is left to record.
  pub record IsRecorded (db : Db) : Type 0 where
    pub sender : Covers m.sender db.conversations
    pub receiver : Covers m.receiver db.conversations
    pub counted : adds_unread m db ≡ false

module _ (m : Message) (summary : Bytes) where
  newer-IsCovered : (o o' peer : ℕ) (r : ConversationRow) → IsCovered m o (newer m summary r)
  unfolding newer
  newer-IsCovered o o' peer r h = ground arith

  is_of-newer :
      (o : ℕ) (r : ConversationRow)
      → is_of o m.conversation (newer m summary r) ≡ is_of o m.conversation r
  unfolding newer
  is_of-newer o r = ground arith

  upsert-Covers :
      (o peer : ℕ) (rows : List ConversationRow) → Covers m o (upsert m summary o peer rows)
  unfolding upsert any
  upsert-Covers o peer rows = elim (Bool-cases (any (is_of o m.conversation) rows)) [
    | inl e ↦ rw e (record {
      there =
          any-update (is_of o m.conversation) (is_of o m.conversation) (newer m summary) rows
            (λ x _ k. is_of-newer o x ∙ k) e;
      covered =
          update-All (IsCovered m o) (is_of o m.conversation) (newer m summary) rows
            (λ x _. newer-IsCovered o o peer x) (λ x n h. cc);
    })
    | inr e ↦ rw e (record {
      there =
          any-append_right (is_of o m.conversation) rows (new_conversation m summary o peer ∷ [])
            (ground (arith, bytes_eq_refl m.conversation));
      covered =
          All-append (IsCovered m o) rows _
            (All-mono _ _ rows (λ r n h. cc) (unmatched (is_of o m.conversation) rows e))
            ((λ _. omega arith), tt);
    })
  ]

  upsert_keeps-Covers :
      (o o' peer : ℕ) (rows : List ConversationRow)
      → Covers m o rows
      → Covers m o (upsert m summary o' peer rows)
  unfolding upsert
  upsert_keeps-Covers o o' peer rows c = elim (Bool-cases (any (is_of o' m.conversation) rows)) [
    | inl e ↦ rw e (record {
      there =
          any-update (is_of o m.conversation) (is_of o' m.conversation) (newer m summary) rows
            (λ x _ k. is_of-newer o x ∙ k) c.there;
      covered =
          All-update (IsCovered m o) (is_of o' m.conversation) (newer m summary) rows
            (λ x _ _. newer-IsCovered o o' peer x) c.covered;
    })
    | inr e ↦ rw e (record {
      there = any-append_left (is_of o m.conversation) rows _ c.there;
      covered = All-append (IsCovered m o) rows _ c.covered ((λ _. omega arith), tt);
    })
  ]

  upsert_again :
      (o peer : ℕ) (rows : List ConversationRow)
      → Covers m o rows
      → upsert m summary o peer rows ≡ rows
  unfolding upsert newer
  upsert_again o peer rows c = rw c.there (
      update_same (is_of o m.conversation) (newer m summary) rows
        (All-mono _ _ rows (λ r h k. ground (arith, h k)) c.covered))

  add_unread-Covers :
      (o : ℕ) (db : Db) → Covers m o db.conversations → Covers m o (add_unread m db).conversations
  unfolding add_unread
  add_unread-Covers o db c = elim (Bool-cases (adds_unread m db)) [
    | inr e ↦ rw e c
    | inl e ↦ rw e (record {
      there =
          any-update (is_of o m.conversation) (is_of m.receiver m.conversation) _ db.conversations
            (λ x _ k. k) c.there;
      covered =
          All-update (IsCovered m o) (is_of m.receiver m.conversation) _ db.conversations
            (λ x _ k. k) c.covered;
    })
  ]

  kept_out :
      (rows : List ConversationRow) (us : List UnreadRow)
      → adds_unread m (record {
        conversations = rows;
        unread = us ++ record { owner = m.receiver; id = m.conversation; seq = m.seq } ∷ [];
      })
        ≡ false
  unfolding adds_unread any
  kept_out rows us =
      let last : any (is_same_unread m.receiver m.conversation m.seq)
            (record { owner = m.receiver; id = m.conversation; seq = m.seq } ∷ [])
          ≡ true =
        ground (arith, bytes_eq_refl m.conversation) in
      rw (any-append_right (is_same_unread m.receiver m.conversation m.seq) us _ last)
        (ground arith)

  -- A message that was added is not added again.
  not_added_again : (db : Db) → adds_unread m (add_unread m db) ≡ false
  unfolding add_unread
  not_added_again db = elim (Bool-cases (adds_unread m db)) [
    | inr e ↦ rw e e
    | inl e ↦ rw e (kept_out _ _)
  ]

  add_unread_again : (db : Db) → adds_unread m db ≡ false → add_unread m db ≡ db
  unfolding add_unread
  add_unread_again db e = rw e refl

  pub both_rows-IsRecorded : (db : Db) → IsRecorded m (add_unread m (upsert_both m summary db))
  both_rows-IsRecorded db =
      let sent = upsert m summary m.sender m.receiver db.conversations in
      record {
        sender = add_unread-Covers m.sender (upsert_both m summary db) (
            upsert_keeps-Covers m.sender m.receiver m.sender sent
              (upsert-Covers m.sender m.receiver db.conversations));
        receiver =
            add_unread-Covers m.receiver (upsert_both m summary db)
              (upsert-Covers m.receiver m.sender sent);
        counted = not_added_again (upsert_both m summary db);
      }

  upsert_both_again : (db : Db) → IsRecorded m db → upsert_both m summary db ≡ db
  upsert_both_again db r =
      ap (λ rows. record db { conversations = rows })
        (ap (upsert m summary m.receiver m.sender)
            (upsert_again m.sender m.receiver db.conversations r.sender)
          ∙ upsert_again m.receiver m.sender db.conversations r.receiver)

  pub IsRecorded-again : (db : Db) → IsRecorded m db → add_unread m (upsert_both m summary db) ≡ db
  IsRecorded-again db r = ap (add_unread m) (upsert_both_again db r) ∙ add_unread_again db r.counted
