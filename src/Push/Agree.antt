-- ===== src/Push/Agree.antt =====
-- The query of `filter_visible_messages` beside the check of `with_friend_message`.
use ape_server.Prelude.{
  ℕ, ◌+◌, ◌≤◌, ◌≡◌, ◌≢◌, refl, sym, ◌∙◌, inl, inr, Bool, true, false, not, ◌&&◌, ◌||◌, none, some,
  List, [], ◌∷◌, Bytes, bytes_eq, bytes_eq_refl, is_empty, leb, ltb, ◌==◌, ==_false, Bool-cases,
  Option-cases, arith, All, All-mono, All-both, All-find, find, any, count, select, none→any,
  find→any, any-count, unique-any, firsts, select-cong, any-select,
}
use ape_server.Outbox.Data.{Message, Task, FriendRow, DeletionRow, Db, friend_allows}
use ape_server.Outbox.Queue.{is_message_task, is_receipt}
use ape_server.Push.Visible.{
  is_deletion, is_committed, with_friend_message, is_friend, is_shown, is_visible,
  filter_visible_messages,
}

-- The keys of the tables of friends and deletions. No key of im_outbox says that a message has one task,
-- so that its tasks, if there are several, are all to be shown or none is; and no stage is past 1.
pub record IsRegular (db : Db) : Type 0 where
  pub friends : (a b : ℕ) → count (is_friend a b) db.friends ≤ 1
  pub deletions : (a b : ℕ) → count (is_deletion a b) db.deletions ≤ 1
  pub messages :
      (id : Bytes)
      → (any (λ (t : Task). is_message_task id t && is_shown t) db.tasks
          && any (λ (t : Task). is_message_task id t && not (is_shown t)) db.tasks)
        ≡ false
  pub stages : All (λ (t : Task). t.stage ≤ 1) db.tasks

found-any :
    (p q : Task → Bool) (ts : List Task) (t : Task)
    → find p ts ≡ some t
    → q t ≡ true
    → any (λ x. p x && q x) ts ≡ true
unfolding find any
found-any p q [] t e h = cc
found-any p q (x ∷ xs) t e h = ground (arith, found-any p q xs t)

-- Where all that are meant agree, the first of them tells whether there is one.
found-agrees :
    (p q : Task → Bool) (ts : List Task) (t : Task)
    → find p ts ≡ some t
    → (any (λ x. p x && q x) ts && any (λ x. p x && not (q x)) ts) ≡ false
    → any (λ x. p x && q x) ts ≡ q t
found-agrees p q ts t e h = elim (Bool-cases (q t)) [
  | inl y ↦ found-any p q ts t e y ∙ sym y
  | inr y ↦
      first (any (λ x. p x && q x) ts) _ (found-any p (λ x. not (q x)) ts t e (rw y refl)) h ∙ sym y
]
  where
    first : (a b : Bool) → b ≡ true → (a && b) ≡ false → a ≡ false
    first a b k l = ground arith

-- Both directions of a friendship, as they are counted.
either-count :
    (a b : ℕ) (fs : List FriendRow)
    → a ≢ b
    → count
        (λ (f : FriendRow). (f.owner == a && f.friend == b) || (f.owner == b && f.friend == a))
        fs
      ≡ count (is_friend a b) fs + count (is_friend b a) fs
unfolding count
either-count a b [] n = refl
either-count a b (f ∷ fs) n = ground (arith, either-count a b fs)

both_counted : (c d : ℕ) → c ≤ 1 → d ≤ 1 → (c + d == 2) ≡ (ltb 0 c && ltb 0 d)
both_counted c d h k = ground arith

module _ (db : Db) (k : IsRegular db) (m : Message) where
  deletions-agree :
      (not (any (is_deletion m.sender m.receiver) db.deletions)
        || any
            (λ (d : DeletionRow). is_deletion m.sender m.receiver d && ltb d.seq m.seq)
            db.deletions)
      ≡ elim (find (is_deletion m.sender m.receiver) db.deletions) [
        | none ↦ true
        | some d ↦ ltb d.seq m.seq
      ]
  deletions-agree = elim (Option-cases (find (is_deletion m.sender m.receiver) db.deletions)) [
    | inl e ↦ rw (e, none→any (is_deletion m.sender m.receiver) db.deletions e) refl
    | inr (d, e) ↦
        rw
          (
            e,
            find→any (is_deletion m.sender m.receiver) db.deletions d e,
            unique-any (is_deletion m.sender m.receiver) (λ (x : DeletionRow). ltb x.seq m.seq)
                db.deletions d (k.deletions m.sender m.receiver) e,
          )
          refl
  ]

  tasks-agree :
      (not (any (is_message_task m.server_id) db.tasks)
        || any (λ (t : Task). is_message_task m.server_id t && is_shown t) db.tasks)
      ≡ is_committed m.server_id db
  unfolding is_committed
  tasks-agree = elim (Option-cases (find (is_message_task m.server_id) db.tasks)) [
    | inl e ↦ rw (is_committed, e, none→any (is_message_task m.server_id) db.tasks e) refl
    | inr (t, e) ↦
        rw
          (
            is_committed,
            e,
            find→any (is_message_task m.server_id) db.tasks t e,
            found-agrees (is_message_task m.server_id) is_shown db.tasks t e
                (k.messages m.server_id),
          )
          (shown t (
            All-find (λ (t : Task). t.stage ≤ 1) (is_message_task m.server_id) db.tasks k.stages e))
  ]
    where
      shown : (t : Task) → t.stage ≤ 1 → is_shown t ≡ (leb 1 t.stage && not (t.state == 3))
      shown t h = ground arith

  friends-agree :
      m.sender ≢ m.receiver
      → (count
            (λ (f : FriendRow).
              (f.owner == m.sender && f.friend == m.receiver)
              || (f.owner == m.receiver && f.friend == m.sender))
            db.friends
          == 2)
        ≡ (any (is_friend m.sender m.receiver) db.friends
            && any (is_friend m.receiver m.sender) db.friends)
  friends-agree n =
      rw
        (
          either-count m.sender m.receiver db.friends n,
          any-count (is_friend m.sender m.receiver) db.friends,
          any-count (is_friend m.receiver m.sender) db.friends,
        )
        (both_counted (count (is_friend m.sender m.receiver) db.friends)
          (count (is_friend m.receiver m.sender) db.friends) (k.friends m.sender m.receiver)
          (k.friends m.receiver m.sender))

  is_visible-agrees :
      m.sender ≢ m.receiver
      → is_empty m.server_id ≡ false
      → is_visible db m ≡ with_friend_message m false db
  unfolding is_visible with_friend_message friend_allows
  is_visible-agrees n f =
      join (any (is_friend m.sender m.receiver) db.friends)
        (any (is_friend m.receiver m.sender) db.friends) _ _ _ _ _ _ _
        (any (is_receipt m.receiver m.server_id) db.receipts) deletions-agree tasks-agree
        (friends-agree n) (==_false m.sender m.receiver n) f
    where
      join :
          (a b d t d' t' c s e r : Bool)
          → d ≡ d'
          → t ≡ t'
          → c ≡ (a && b)
          → s ≡ false
          → e ≡ false
          → (a && b && d && t) ≡ ((not s && c && d') && (e || (t' && not (false && r))))
      join a b d t d' t' c s e r p q x y z = ground arith

-- A message of a single chat, with its identifier.
abbrev pub IsSingle : Message → Type 0
IsSingle m = (m.sender ≢ m.receiver) × (is_empty m.server_id ≡ false)

-- Where no friendship and no deletion has two rows, no task of the outbox is past stage 1, and of the
-- tasks of a message either all have their text saved and are not cancelled or none, and for messages of single chats that have identifiers, no two the same: the filter
-- keeps, in their order, those and only those that may be passed on to a friend, so that the query and
-- the check under the lock agree.
pub filter_visible-agrees :
    (db : Db) (ms : List Message)
    → IsRegular db
    → All IsSingle ms
    → ((m : Message) → count (λ (v : Message). bytes_eq v.server_id m.server_id) ms ≤ 1)
    → filter_visible_messages db ms ≡ select (λ m. with_friend_message m false db) ms
unfolding filter_visible_messages
filter_visible-agrees db ms k a c =
    select-cong _ (λ m. with_friend_message m false db) ms
      (All-mono
        (λ m. IsSingle m × (find (λ (v : Message). bytes_eq v.server_id m.server_id) ms ≡ some m))
        (λ m.
          any (λ (v : Message). bytes_eq v.server_id m.server_id) (select (is_visible db) ms)
          ≡ with_friend_message m false db)
        ms
        (λ m h.
          any-select (is_visible db) (λ (v : Message). bytes_eq v.server_id m.server_id) ms
          ∙ unique-any (λ (v : Message). bytes_eq v.server_id m.server_id) (is_visible db) ms m
              (c m) h.1
          ∙ is_visible-agrees db k m h.0.0 h.0.1)
        (All-both IsSingle _ ms a (
          firsts (λ (m v : Message). bytes_eq v.server_id m.server_id) ms
            (λ m. bytes_eq_refl m.server_id) c)))
