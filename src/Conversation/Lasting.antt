-- ===== src/Conversation/Lasting.antt =====
-- What recording other messages leaves of a message that was recorded.
use mathlib.Core.Option
use ape_server.Prelude.{
  ℕ, ◌≤◌, ◌≡◌, refl, sym, ap, ◌∙◌, inl, inr, Bool, true, false, not, ◌&&◌, Option, none, some, List,
  [], ◌∷◌, ◌++◌, Bytes, bytes_eq→eq, Bool-cases, ==_iff, if◌then◌else◌, arith, find, any,
  All-append, All-update, any-update, any-append_left, any→find, update, find-update,
  find-append_some, ◌+◌,
}
use ape_server.Conversation.Data.{ConversationRow, Db, Message, is_of}
use ape_server.Conversation.Record.{
  newer, new_conversation, upsert, upsert_both, is_new_to, is_same_unread, adds_unread, add_unread,
}
use ape_server.Conversation.Redelivery.{IsCovered, Covers, IsRecorded}

module _ (m : Message) where
  -- Whether the message is new to the receiver's row, if there is one.
  abbrev is_new_in : Option ConversationRow → Bool
  is_new_in row = elim row [ none ↦ false | some r ↦ is_new_to m.seq r ]

  abbrev is_new : List ConversationRow → Bool
  is_new rows = is_new_in (find (is_of m.receiver m.conversation) rows)

  -- A change of rows that keeps their keys and positions, and lowers no number.
  record Gentle (f : ConversationRow → ConversationRow) : Type 0 where
    same_key : (o : ℕ) (id : Bytes) (r : ConversationRow) → is_of o id (f r) ≡ is_of o id r
    read : (r : ConversationRow) → (f r).read_seq ≡ r.read_seq
    min : (r : ConversationRow) → (f r).min_seq ≡ r.min_seq
    max : (r : ConversationRow) → r.max_seq ≤ (f r).max_seq

  newer-Gentle : (other : Message) (summary : Bytes) → Gentle (newer other summary)
  unfolding newer
  newer-Gentle other summary = record {
    same_key = λ o id r. ground arith;
    read = λ r. ground arith;
    min = λ r. ground arith;
    max = λ r. ground arith;
  }

  module _ (p : ConversationRow → Bool) (f : ConversationRow → ConversationRow) (g : Gentle f)
      (rows : List ConversationRow) where
    update-Covers : (o : ℕ) → Covers m o rows → Covers m o (update p f rows)
    update-Covers o c = record {
      there =
          any-update (is_of o m.conversation) p f rows (λ x _ k. g.same_key o m.conversation x ∙ k)
            c.there;
      covered =
          All-update (IsCovered m o) p f rows
            (λ x _ k e.
              let before = k (sym (g.same_key o m.conversation x) ∙ e) in
              omega (arith, before, g.max x))
            c.covered;
    }

    update-is_new : is_new (update p f rows) ≡ is_new rows
    update-is_new =
        ap is_new_in (
          find-update (is_of m.receiver m.conversation) p f rows
            (λ x _. g.same_key m.receiver m.conversation x))
        ∙ mapped (find (is_of m.receiver m.conversation) rows)
      where
        mapped :
            (o : Option ConversationRow)
            → is_new_in (Option.map (λ x. if p x then f x else x) o) ≡ is_new_in o
        mapped none = refl
        mapped (some x) = elim (Bool-cases (p x)) [
          | inr e ↦ rw e refl
          | inl e ↦ rw (e, g.read x, g.min x) refl
        ]

  module _ (other : Message) (summary : Bytes) where
    -- A row that is added is of another conversation or owner.
    added-Covers :
        (o o' peer : ℕ) (rows : List ConversationRow)
        → any (is_of o' other.conversation) rows ≡ false
        → Covers m o rows
        → Covers m o (rows ++ new_conversation other summary o' peer ∷ [])
    added-Covers o o' peer rows e c = record {
      there = any-append_left (is_of o m.conversation) rows _ c.there;
      covered = All-append (IsCovered m o) rows _ c.covered (
        (λ k.
            let owner : o' ≡ o = (==_iff o' o).0 (ground (arith, k)) in
            let id : other.conversation ≡ m.conversation =
              bytes_eq→eq other.conversation m.conversation (ground (arith, k)) in
            absurd (differ owner id)),
        tt,
      );
    }
      where
        differ : o' ≡ o → other.conversation ≡ m.conversation → ⊥
        differ a b =
            let none : any (is_of o m.conversation) rows ≡ false =
              ap (λ x. any (is_of x m.conversation) rows) (sym a)
              ∙ ap (λ x. any (is_of o' x) rows) (sym b)
              ∙ e in
            cc (none, c.there)

    upsert-keeps :
        (o o' peer : ℕ) (rows : List ConversationRow)
        → Covers m o rows
        → Covers m o (upsert other summary o' peer rows)
    unfolding upsert
    upsert-keeps o o' peer rows c = elim (Bool-cases (any (is_of o' other.conversation) rows)) [
      | inl e ↦ rw e (
          update-Covers (is_of o' other.conversation) (newer other summary)
            (newer-Gentle other summary) rows o c)
      | inr e ↦ rw e (added-Covers o o' peer rows e c)
    ]

    upsert-is_new :
        (o' peer : ℕ) (rows : List ConversationRow)
        → any (is_of m.receiver m.conversation) rows ≡ true
        → is_new (upsert other summary o' peer rows) ≡ is_new rows
    unfolding upsert
    upsert-is_new o' peer rows t = elim (Bool-cases (any (is_of o' other.conversation) rows)) [
      | inl e ↦ rw e (
          update-is_new (is_of o' other.conversation) (newer other summary)
            (newer-Gentle other summary) rows)
      | inr e ↦
          let (r, f) = any→find (is_of m.receiver m.conversation) rows t in
          rw e (
            ap is_new_in (find-append_some (is_of m.receiver m.conversation) rows _ f)
            ∙ sym (ap is_new_in f))
    ]

    counts_more : Gentle (λ (r : ConversationRow). record r { unread_count = r.unread_count + 1 })
    counts_more = record {
      same_key = λ o id r. refl;
      read = λ r. refl;
      min = λ r. refl;
      max = λ r. omega arith;
    }

    pub add_unread-IsRecorded : (db : Db) → IsRecorded m db → IsRecorded m (add_unread other db)
    unfolding add_unread adds_unread
    add_unread-IsRecorded db r = elim (Bool-cases (adds_unread other db)) [
      | inr e ↦ rw e r
      | inl e ↦ rw e (
          let p = is_of other.receiver other.conversation in
          let f = λ (x : ConversationRow). record x { unread_count = x.unread_count + 1 } in
          record {
            sender = update-Covers p f counts_more db.conversations m.sender r.sender;
            receiver = update-Covers p f counts_more db.conversations m.receiver r.receiver;
            counted =
                stays (is_new db.conversations) (is_new (update p f db.conversations))
                  (any (is_same_unread m.receiver m.conversation m.seq) db.unread) _
                  (update-is_new p f counts_more db.conversations)
                  (any-append_left (is_same_unread m.receiver m.conversation m.seq) db.unread _)
                  r.counted;
          })
    ]
      where
        stays :
            (a a' b b' : Bool)
            → a' ≡ a
            → (b ≡ true → b' ≡ true)
            → (a && not b) ≡ false
            → (a' && not b') ≡ false
        stays a a' false b' e h k = ground (arith, e, k)
        stays a a' true b' e h k = ground (arith, h refl)

    pub upsert_both-IsRecorded :
        (db : Db) → IsRecorded m db → IsRecorded m (upsert_both other summary db)
    unfolding adds_unread
    upsert_both-IsRecorded db r =
        let sent = upsert other summary other.sender other.receiver db.conversations in
        let kept : (o : ℕ) → Covers m o db.conversations → Covers m o sent =
          λ o. upsert-keeps o other.sender other.receiver db.conversations in
        let receiver = kept m.receiver r.receiver in
        record {
          sender = upsert-keeps m.sender other.receiver other.sender sent (kept m.sender r.sender);
          receiver = upsert-keeps m.receiver other.receiver other.sender sent receiver;
          counted =
              ap (λ b. b && not (any (is_same_unread m.receiver m.conversation m.seq) db.unread))
                (upsert-is_new other.receiver other.sender sent receiver.there
                  ∙ upsert-is_new other.sender other.receiver db.conversations r.receiver.there)
              ∙ r.counted;
        }
