-- ===== src/Conversation/Keeps.antt =====
-- Recording a message keeps the conversation tables sound.
use mathlib.Core.Option
use ape_server.Prelude.{
  ℕ, ◌+◌, ◌≤◌, ◌<◌, ◌≡◌, refl, sym, ap, ◌∙◌, subst, inl, inr, true, false, not, ◌&&◌, Option, some,
  List, [], ◌∷◌, ◌++◌, Bytes, bytes_eq_refl, Bool-cases, Option-cases, arith, ltb, find, count, any,
  All, All-append, All-mono, count-append, any-append_left, find-true, find→any, count_zero,
  none→any, found-update, found-append, Ensures,
}
use ape_server.Conversation.Data.{ConversationRow, UnreadRow, Db, Message, is_of, is_unread_of}
use ape_server.Conversation.Record.{
  newer, new_conversation, upsert, upsert_both, adds_unread, add_unread, is_same_unread, is_new_to,
  record_message,
}
use ape_server.Conversation.Sound.{RowOk, AreSound, IsSound, update-AreSound, unlinked}

newer-RowOk :
    (m : Message) (summary : Bytes) (us : List UnreadRow) (o : ℕ) (i : Bytes) (r : ConversationRow)
    → RowOk us o i r
    → RowOk us o i (newer m summary r)
unfolding newer
newer-RowOk m summary us o i r k = elim (Bool-cases (ltb r.max_seq m.seq)) [
  | inr e ↦ rw e k
  | inl e ↦ rw e (record {
    counted = k.counted;
    ordered = ground (arith, k.ordered);
    pending = All-mono _ _ us (λ u h w. ((h w).0, ground (arith, (h w).1))) k.pending;
  })
]

module _ (m : Message) (summary : Bytes) (owner peer : ℕ) where
  new-RowOk :
      (us : List UnreadRow) (o : ℕ) (i : Bytes)
      → All (λ (u : UnreadRow). is_unread_of o i u ≡ false) us
      → RowOk us o i (new_conversation m summary owner peer)
  new-RowOk us o i a = record {
    counted = sym (count_zero (is_unread_of o i) us a);
    ordered = omega arith;
    pending = All-mono _ _ us (λ u h w. cc) a;
  }

  pub newer_key :
      (r : ConversationRow)
      → ((newer m summary r).owner ≡ r.owner) × ((newer m summary r).id ≡ r.id)
  unfolding newer
  newer_key r = (ground arith, ground arith)

  upsert-AreSound :
      (rows : List ConversationRow) (us : List UnreadRow)
      → AreSound rows us
      → AreSound (upsert m summary owner peer rows) us
  unfolding upsert
  upsert-AreSound rows us s = elim (Bool-cases (any (is_of owner m.conversation) rows)) [
    | inl e ↦ rw e (
        update-AreSound owner m.conversation (newer m summary) newer_key rows us us s
          (λ r _ k. newer-RowOk m summary us owner m.conversation r k) (λ o i r _ k. k) s.linked)
    | inr e ↦ rw e (record {
      rows_ok = λ o i.
          found-append (RowOk us o i) (is_of o i) rows (new_conversation m summary owner peer)
            (s.rows_ok o i)
            (λ n h. new-RowOk us o i (unlinked o i rows us (none→any (is_of o i) rows n) s.linked));
      linked = All-mono _ _ us (λ u h. any-append_left (is_of u.owner u.id) rows _ h) s.linked;
    })
  ]

more_own :
    (us : List UnreadRow) (u : UnreadRow) (o : ℕ) (i : Bytes) (k : ConversationRow)
    → RowOk us o i k
    → is_unread_of o i u ≡ true
    → k.read_seq < u.seq
    → u.seq ≤ k.max_seq
    → RowOk (us ++ u ∷ []) o i (record k { unread_count = k.unread_count + 1 })
unfolding count
more_own us u o i k h own past upto = record {
  counted =
      ap (λ n. n + 1) h.counted ∙ sym (count-append (is_unread_of o i) us (u ∷ []) ∙ rw own refl);
  ordered = h.ordered;
  pending = All-append _ us (u ∷ []) h.pending ((λ _. (past, upto)), tt);
}

more_other :
    (us : List UnreadRow) (u : UnreadRow) (o : ℕ) (i : Bytes) (k : ConversationRow)
    → RowOk us o i k
    → is_unread_of o i u ≡ false
    → RowOk (us ++ u ∷ []) o i k
unfolding count
more_other us u o i k h other = record {
  counted = h.counted ∙ sym (count-append (is_unread_of o i) us (u ∷ []) ∙ rw other (omega arith));
  ordered = h.ordered;
  pending = All-append _ us (u ∷ []) h.pending ((λ w. cc), tt);
}

module _ (m : Message) (db : Db) (s : IsSound db) where
  abbrev added : UnreadRow
  added = record { owner = m.receiver; id = m.conversation; seq = m.seq }

  added_own : is_unread_of m.receiver m.conversation added ≡ true
  added_own = ground (arith, bytes_eq_refl m.conversation)

  add_unread-IsSound :
      ((r : ConversationRow)
        → find (is_of m.receiver m.conversation) db.conversations ≡ some r
        → m.seq ≤ r.max_seq)
      → IsSound (add_unread m db)
  unfolding add_unread adds_unread
  add_unread-IsSound bound =
      elim (Option-cases (find (is_of m.receiver m.conversation) db.conversations)) [
        | inl e ↦ rw e s
        | inr (r, e) ↦
            elim (Bool-cases (
              is_new_to m.seq r
              && not (any (is_same_unread m.receiver m.conversation m.seq) db.unread))) [
                | inr n ↦ rw (e, n) s
                | inl n ↦
                    rw (e, n)
                      (update-AreSound m.receiver m.conversation
                        (λ (k : ConversationRow). record k { unread_count = k.unread_count + 1 })
                        (λ k. (refl, refl)) db.conversations db.unread (db.unread ++ added ∷ []) s
                        (λ k f ok.
                          let same : r ≡ k = Option.some-injective r k (sym e ∙ f) in
                          more_own db.unread added m.receiver m.conversation k ok added_own
                            (subst (λ (x : ConversationRow). x.read_seq < m.seq) same
                              (ground arith))
                            (bound k f))
                        (λ o i k a ok. more_other db.unread added o i k ok (a added added_own))
                        (All-append _ db.unread (added ∷ []) s.linked
                          (find→any _ db.conversations r e, tt)))
              ]
      ]

newer_bound :
    (m : Message) (summary : Bytes) (r : ConversationRow) → m.seq ≤ (newer m summary r).max_seq
unfolding newer
newer_bound m summary r = ground arith

-- After an upsert the row found holds the message's number or a later one.
upsert_bound :
    (m : Message) (summary : Bytes) (owner peer : ℕ) (rows : List ConversationRow)
    (r : ConversationRow)
    → find (is_of owner m.conversation) (upsert m summary owner peer rows) ≡ some r
    → m.seq ≤ r.max_seq
unfolding upsert
upsert_bound m summary owner peer rows r e =
    elim (Bool-cases (any (is_of owner m.conversation) rows)) [
      | inl h ↦
          found-update (λ (x : ConversationRow). m.seq ≤ x.max_seq) (is_of owner m.conversation)
            (is_of owner m.conversation) (newer m summary) rows
            (λ x _.
              rw ((newer_key m summary owner peer x).0, (newer_key m summary owner peer x).1) refl)
            (λ x f. rw (find-true (is_of owner m.conversation) rows f) (newer_bound m summary x)) r
            (rw h at e)
      | inr h ↦
          found-append (λ (x : ConversationRow). m.seq ≤ x.max_seq) (is_of owner m.conversation)
            rows (new_conversation m summary owner peer)
            (λ x f.
              let there : any (is_of owner m.conversation) rows ≡ true = find→any _ rows x f in
              ground arith)
            (λ _ _. omega arith) r (rw h at e)
    ]

pub record_message-IsSound :
    (summarise : Message → Option Bytes) (m : Message) (db : Db)
    → IsSound db
    → Ensures IsSound (record_message summarise m db)
unfolding record_message
record_message-IsSound summarise m db s = elim (Option-cases (summarise m)) [
  | inl e ↦ rw e (ground arith)
  | inr (summary, e) ↦
      let sent = upsert m summary m.sender m.receiver db.conversations in
      let both : IsSound (upsert_both m summary db) =
        upsert-AreSound m summary m.receiver m.sender sent db.unread
          (upsert-AreSound m summary m.sender m.receiver db.conversations db.unread s) in
      let kept =
        add_unread-IsSound m (upsert_both m summary db) both
          (upsert_bound m summary m.receiver m.sender sent) in
      rw e (ground (arith, kept))
]
