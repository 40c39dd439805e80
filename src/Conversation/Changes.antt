-- ===== src/Conversation/Changes.antt =====
-- What an owner does, and the deletion of a pair, keep the conversation tables sound.
use mathlib.Core.Option
use ape_server.Prelude.{
  ℕ, ◌+◌, ◌-◌, ◌≤◌, min, ◌≡◌, refl, sym, ◌∙◌, subst, inl, inr, Bool, true, false, ◌&&◌, Option,
  some, List, [], ◌∷◌, Bytes, bytes_eq, bytes_eq→eq, bytes_eq_refl, Bool-cases, Option-cases, arith,
  ltb, leb, if◌then◌else◌, find, update, delete, count, any, All, All-mono, any-update, any-delete,
  count_zero, found-update, find-delete, find-delete_all, count-delete, count-delete_other,
  All-delete, Ensures,
}
use ape_server.Conversation.Data.{ConversationRow, UnreadRow, Db, is_of, is_unread_of}
use ape_server.Conversation.Record.{delete_pair}
use ape_server.Conversation.Owner.{
  is_read_by, read_up_to, mark_read, update_settings, set_options, is_visible, delete_conversation,
}
use ape_server.Conversation.Sound.{RowOk, AreSound, IsSound, Apart, update-AreSound}

module _ (owner : ℕ) (id : Bytes) (db : Db) (s : IsSound db) where
  -- What is left of the unread messages of the own key, and of another.
  left_own :
      (seq : ℕ) (r : ConversationRow)
      → RowOk db.unread owner id r
      → seq ≤ r.max_seq
      → r.read_seq ≤ seq
      → RowOk (delete (is_read_by owner id seq) db.unread) owner id (record r {
        read_seq = seq;
        unread_count =
            r.unread_count - min r.unread_count (count (is_read_by owner id seq) db.unread);
      })
  left_own seq r k upto past =
      let parts : count (is_unread_of owner id) (delete (is_read_by owner id seq) db.unread)
            + count (is_read_by owner id seq) db.unread
          ≡ count (is_unread_of owner id) db.unread =
        count-delete (is_unread_of owner id) (is_read_by owner id seq) db.unread
          (λ u h. ground arith) in
      record {
        counted = omega (arith, k.counted, parts);
        ordered = upto;
        pending =
            All-mono _ _ _ (λ u h w. (ground (arith, h.1, w), (h.0 w).1))
              (All-delete _ (is_read_by owner id seq) db.unread k.pending);
      }

  left_other :
      (p : UnreadRow → Bool)
      → ((u : UnreadRow) → p u ≡ true → is_unread_of owner id u ≡ true)
      → (o : ℕ) (i : Bytes) (r : ConversationRow) → Apart owner id o i
      → RowOk db.unread o i r
      → RowOk (delete p db.unread) o i r
  left_other p within o i r a k = record {
    counted =
        k.counted
        ∙ sym (count-delete_other (is_unread_of o i) p db.unread (λ u h. a u (within u h)));
    ordered = k.ordered;
    pending = All-mono _ _ _ (λ u h. h.0) (All-delete _ p db.unread k.pending);
  }

  left_linked :
      (p : UnreadRow → Bool)
      → All
          (λ (u : UnreadRow). any (is_of u.owner u.id) db.conversations ≡ true)
          (delete p db.unread)
  left_linked p = All-mono _ _ _ (λ u h. h.0) (All-delete _ p db.unread s.linked)

  read_up_to-IsSound :
      (seq : ℕ)
      → ((r : ConversationRow)
          → find (is_of owner id) db.conversations ≡ some r
          → (seq ≤ r.max_seq) × (r.read_seq ≤ seq))
      → IsSound (read_up_to owner id seq db)
  unfolding read_up_to
  read_up_to-IsSound seq h =
      update-AreSound owner id _ (λ r. (refl, refl)) db.conversations db.unread
        (delete (is_read_by owner id seq) db.unread) s
        (λ r f k. left_own seq r k (h r f).0 (h r f).1)
        (left_other (is_read_by owner id seq) (λ u h. ground arith))
        (left_linked (is_read_by owner id seq))

  pub mark_read-IsSound : (seq : ℕ) → IsSound (mark_read owner id seq db).1
  unfolding mark_read
  mark_read-IsSound seq = elim (Option-cases (find (is_of owner id) db.conversations)) [
    | inl e ↦ rw (mark_read, e) s
    | inr (r, e) ↦
        let bounds : (ltb r.max_seq seq ≡ false)
            → (leb seq r.read_seq ≡ false)
            → IsSound (read_up_to owner id seq db) =
          λ h k. read_up_to-IsSound seq (λ x f.
            subst (λ (y : ConversationRow). (seq ≤ y.max_seq) × (y.read_seq ≤ seq))
              (Option.some-injective r x (sym e ∙ f)) (ground arith, ground arith)) in
        rw (mark_read, e) (ground (arith, bounds, s))
  ]

  pub delete_conversation-IsSound : IsSound (delete_conversation owner id db)
  unfolding delete_conversation
  delete_conversation-IsSound = elim (Bool-cases (any (is_of owner id) db.conversations)) [
    | inr e ↦ rw e s
    | inl e ↦ rw e (
        update-AreSound owner id _ (λ r. (refl, refl)) db.conversations db.unread
          (delete (is_unread_of owner id) db.unread) s
          (λ r f k. record {
            counted = sym (
                count_zero (is_unread_of owner id) _ (
                  All-mono _ _ _ (λ u h. h.1)
                    (All-delete _ (is_unread_of owner id) db.unread k.pending)));
            ordered = omega arith;
            pending =
                All-mono _ _ _ (λ u h w. cc)
                  (All-delete _ (is_unread_of owner id) db.unread k.pending);
          })
          (left_other (is_unread_of owner id) (λ u h. h)) (left_linked (is_unread_of owner id)))
  ]

  -- A setting is nothing that RowOk reads.
  set_options-RowOk :
      (pinned : Option Bool) (recv_opt : Option ℕ) (o : ℕ) (i : Bytes) (r : ConversationRow)
      (b : Bool)
      → RowOk db.unread o i r
      → RowOk db.unread o i (if b then set_options pinned recv_opt r else r)
  unfolding set_options
  set_options-RowOk pinned recv_opt o i r true k = record {
    counted = k.counted;
    ordered = k.ordered;
    pending = k.pending;
  }
  set_options-RowOk pinned recv_opt o i r false k = k

  set_options-IsSound :
      (pinned : Option Bool) (recv_opt : Option ℕ)
      → AreSound
          (update (is_visible owner id) (set_options pinned recv_opt) db.conversations)
          db.unread
  unfolding set_options
  set_options-IsSound pinned recv_opt = record {
    rows_ok = λ o i.
        found-update (RowOk db.unread o i) (is_of o i) (is_visible owner id)
          (set_options pinned recv_opt) db.conversations (λ r _. refl)
          (λ r e.
            set_options-RowOk pinned recv_opt o i r (is_visible owner id r) (s.rows_ok o i r e));
    linked =
        All-mono _ _ db.unread
          (λ u h.
            any-update (is_of u.owner u.id) (is_visible owner id) (set_options pinned recv_opt)
              db.conversations (λ r _ k. k) h)
          s.linked;
  }

  pub update_settings-IsSound :
      (pinned : Option Bool) (recv_opt : Option ℕ)
      → Ensures (λ (o : Bool × Db). IsSound o.1) (update_settings owner id pinned recv_opt db)
  unfolding update_settings
  update_settings-IsSound pinned recv_opt = ground (arith, set_options-IsSound pinned recv_opt)

module _ (id : Bytes) (db : Db) (s : IsSound db) where
  abbrev is_cascaded : UnreadRow → Bool
  is_cascaded u =
      any (λ (r : ConversationRow). bytes_eq r.id id && is_of u.owner u.id r) db.conversations

  cascaded_id :
      (o : ℕ) (i : Bytes) (rows : List ConversationRow)
      → any (λ (r : ConversationRow). bytes_eq r.id id && is_of o i r) rows ≡ true
      → i ≡ id
  unfolding any
  cascaded_id o i [] h = cc
  cascaded_id o i (r ∷ rows) h = elim (Bool-cases (bytes_eq r.id id && is_of o i r)) [
    | inl e ↦ sym (bytes_eq→eq r.id i (ground arith)) ∙ bytes_eq→eq r.id id (ground arith)
    | inr e ↦ cascaded_id o i rows (rw e at h)
  ]

  kept_row :
      (o : ℕ) (i : Bytes) (r : ConversationRow)
      → bytes_eq i id ≡ false
      → RowOk db.unread o i r
      → RowOk (delete is_cascaded db.unread) o i r
  kept_row o i r n k = record {
    counted = k.counted ∙ sym (count-delete_other (is_unread_of o i) is_cascaded db.unread away);
    ordered = k.ordered;
    pending = All-mono _ _ _ (λ u h. h.0) (All-delete _ is_cascaded db.unread k.pending);
  }
    where
      away : (u : UnreadRow) → is_cascaded u ≡ true → is_unread_of o i u ≡ false
      away u h = elim (Bool-cases (is_unread_of o i u)) [
        | inr e ↦ e
        | inl e ↦
            let same : i ≡ id =
              sym (bytes_eq→eq u.id i (ground arith))
              ∙ cascaded_id u.owner u.id db.conversations h in
            let met : bytes_eq i id ≡ true =
              subst (λ k. bytes_eq k id ≡ true) (sym same) (bytes_eq_refl id) in
            cc
      ]

  pub delete_pair-IsSound : IsSound (delete_pair id db)
  unfolding delete_pair
  delete_pair-IsSound = record {
    rows_ok = λ o i r e. elim (Bool-cases (bytes_eq i id)) [
      | inl n ↦ absurd (
          Option.none-ne-some r (
            sym (
              find-delete_all (is_of o i) (λ (x : ConversationRow). bytes_eq x.id id)
                db.conversations
                (λ x h.
                  subst (λ k. bytes_eq k id ≡ true) (sym (bytes_eq→eq x.id i (ground arith))) n))
            ∙ e))
      | inr n ↦ kept_row o i r n (
          s.rows_ok o i r (
            sym (
              find-delete (is_of o i) (λ (x : ConversationRow). bytes_eq x.id id) db.conversations
                (λ x h.
                  subst (λ k. bytes_eq k id ≡ false) (sym (bytes_eq→eq x.id i (ground arith))) n))
            ∙ e))
    ];
    linked =
        All-mono _ _ _
          (λ u h.
            any-delete (is_of u.owner u.id) (λ (r : ConversationRow). bytes_eq r.id id)
              db.conversations h.0 h.1)
          (All-delete _ is_cascaded db.unread s.linked);
  }
