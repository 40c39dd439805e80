-- ===== src/Conversation/Sound.antt =====
-- What the conversation tables keep true, and that every operation keeps it.
use ape_server.Prelude.{
  ℕ, ◌≤◌, ◌<◌, ◌≡◌, ◌⊎◌, refl, sym, ◌∙◌, subst, inl, inr, true, false, some, List, [], ◌∷◌, Bytes,
  bytes_eq→eq, bytes_eq_refl, Bool-cases, arith, if◌then◌else◌, find, update, count, any, All,
  All-mono, any-update, find-true, found-update,
}
use ape_server.Conversation.Data.{ConversationRow, UnreadRow, Db, is_of, is_unread_of}

-- The row counts its owner's unread messages, each of which is past the position read and not past
-- the last message.
pub record RowOk (us : List UnreadRow) (owner : ℕ) (id : Bytes) (r : ConversationRow) : Type 0 where
  pub counted : r.unread_count ≡ count (is_unread_of owner id) us
  pub ordered : r.read_seq ≤ r.max_seq
  pub pending :
      All
        (λ (u : UnreadRow).
          is_unread_of owner id u ≡ true → (r.read_seq < u.seq) × (u.seq ≤ r.max_seq))
        us

pub record AreSound (rows : List ConversationRow) (us : List UnreadRow) : Type 0 where
  pub rows_ok :
      (owner : ℕ) (id : Bytes) (r : ConversationRow)
      → find (is_of owner id) rows ≡ some r
      → RowOk us owner id r
  -- the foreign key
  pub linked : All (λ (u : UnreadRow). any (is_of u.owner u.id) rows ≡ true) us

abbrev pub IsSound : Db → Type 0
IsSound db = AreSound db.conversations db.unread

-- The key of a row is the key that finds it.
is_of-same :
    (o o' : ℕ) (i i' : Bytes) (r : ConversationRow)
    → is_of o i r ≡ true
    → is_of o' i' r ≡ true
    → (o ≡ o') × (i ≡ i')
is_of-same o o' i i' r h h' =
    let e : r.id ≡ i = bytes_eq→eq r.id i (ground arith) in
    let e' : r.id ≡ i' = bytes_eq→eq r.id i' (ground arith) in (ground arith, sym e ∙ e')

is_of_self : (r : ConversationRow) → is_of r.owner r.id r ≡ true
is_of_self r = ground (arith, bytes_eq_refl r.id)

-- No row refers to a conversation that is not there.
pub unlinked :
    (o : ℕ) (i : Bytes) (rows : List ConversationRow) (us : List UnreadRow)
    → any (is_of o i) rows ≡ false
    → All (λ (u : UnreadRow). any (is_of u.owner u.id) rows ≡ true) us
    → All (λ (u : UnreadRow). is_unread_of o i u ≡ false) us
unlinked o i rows [] h a = tt
unlinked o i rows (u ∷ us) h a = (
  elim (Bool-cases (is_unread_of o i u)) [
    | inr e ↦ e
    | inl e ↦
        let owned : u.owner ≡ o = ground arith in
        let named : u.id ≡ i = bytes_eq→eq u.id i (ground arith) in
        let there : any (is_of o i) rows ≡ true =
          subst (λ k. any (is_of k i) rows ≡ true) owned
            (subst (λ k. any (is_of u.owner k) rows ≡ true) named a.0) in
        cc
  ],
  unlinked o i rows us h a.1,
)

-- Unread messages of one key are not those of another.
abbrev pub Apart : ℕ → Bytes → ℕ → Bytes → Type 0
Apart o' i' o i = (u : UnreadRow) → is_unread_of o' i' u ≡ true → is_unread_of o i u ≡ false

apart :
    (o o' : ℕ) (i i' : Bytes) (r : ConversationRow)
    → is_of o i r ≡ true
    → is_of o' i' r ≡ false
    → Apart o' i' o i
apart o o' i i' r h h' u e = elim (Bool-cases (is_unread_of o i u)) [
  | inr n ↦ n
  | inl n ↦
      let owner : o ≡ o' = ground arith in
      let id : i ≡ i' =
        sym (bytes_eq→eq u.id i (ground arith)) ∙ bytes_eq→eq u.id i' (ground arith) in
      let both : is_of o' i' r ≡ true =
        subst (λ k. is_of k i' r ≡ true) owner (subst (λ k. is_of o k r ≡ true) id h) in
      cc
]

module _ (o : ℕ) (i : Bytes) (f : ConversationRow → ConversationRow)
    (same : (r : ConversationRow) → ((f r).owner ≡ r.owner) × ((f r).id ≡ r.id)) where
  same_key : (o' : ℕ) (i' : Bytes) (r : ConversationRow) → is_of o' i' (f r) ≡ is_of o' i' r
  same_key o' i' r = rw ((same r).0, (same r).1) refl

  pub still_linked :
      (rows : List ConversationRow) (us : List UnreadRow)
      → All (λ (u : UnreadRow). any (is_of u.owner u.id) rows ≡ true) us
      → All (λ (u : UnreadRow). any (is_of u.owner u.id) (update (is_of o i) f rows) ≡ true) us
  still_linked rows us a =
      All-mono _ _ us
        (λ u h.
          any-update (is_of u.owner u.id) (is_of o i) f rows (λ r _ k. same_key u.owner u.id r ∙ k)
            h)
        a

  pub update-AreSound :
      (rows : List ConversationRow) (us us' : List UnreadRow)
      → AreSound rows us
      → ((r : ConversationRow)
          → find (is_of o i) rows ≡ some r
          → RowOk us o i r
          → RowOk us' o i (f r))
      → ((o' : ℕ) (i' : Bytes) (r : ConversationRow)
          → Apart o i o' i'
          → RowOk us o' i' r
          → RowOk us' o' i' r)
      → All (λ (u : UnreadRow). any (is_of u.owner u.id) rows ≡ true) us'
      → AreSound (update (is_of o i) f rows) us'
  update-AreSound rows us us' s own others l = record {
    rows_ok = λ o' i'.
        found-update (RowOk us' o' i') (is_of o' i') (is_of o i) f rows (λ r _. same_key o' i' r)
          (λ x e. one o' i' x e (find-true (is_of o' i') rows e) (Bool-cases (is_of o i x)));
    linked = still_linked rows us' l;
  }
    where
      one :
          (o' : ℕ) (i' : Bytes) (x : ConversationRow)
          → find (is_of o' i') rows ≡ some x
          → is_of o' i' x ≡ true
          → (is_of o i x ≡ true) ⊎ (is_of o i x ≡ false)
          → RowOk us' o' i' (if is_of o i x then f x else x)
      one o' i' x e h (inr n) = rw n (others o' i' x (apart o' o i' i x h n) (s.rows_ok o' i' x e))
      one o' i' x e h (inl n) =
          let (oo, ii) = is_of-same o o' i i' x n h in
          let here : find (is_of o i) rows ≡ some x =
            subst (λ k. find (is_of k i) rows ≡ some x) (sym oo)
              (subst (λ k. find (is_of o' k) rows ≡ some x) (sym ii) e) in
          rw n (
            subst (λ k. RowOk us' k i' (f x)) oo
              (subst (λ k. RowOk us' o k (f x)) ii (own x here (s.rows_ok o i x here))))
