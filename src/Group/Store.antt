-- ===== src/Group/Store.antt =====
-- The statements that every group operation is made of, and the replies built from rows.
use ape_server.Prelude.{
  ℕ, ◌+◌, max, Bool, false, not, ◌&&◌, ◌||◌, Option, none, some, List, [], ◌∷◌, ◌++◌, Bytes, ltb,
  leb, ◌==◌, if◌then◌else◌, length, take, find, update, count, any, Result, ok, err, ◌>>◌, guard,
}
use ape_server.Group.Data.{
  Db, Code, group_number_exhausted, db_error, GroupRow, MemberRow, MessageRow, NumberRow, Group,
  Reply,
}

abbrev pub is_group : ℕ → GroupRow → Bool
is_group id g = g.id == id

abbrev pub is_member : ℕ → ℕ → MemberRow → Bool
is_member id account m = m.group_id == id && m.account == account

-- `WHERE group_id={} AND active=1`
abbrev pub is_active_in : ℕ → MemberRow → Bool
is_active_in id m = m.group_id == id && m.active

abbrev pub is_message_in : ℕ → MessageRow → Bool
is_message_in id m = m.group_id == id

abbrev pub or_throw {ℓ} : {A : Type ℓ} → Option A → Code → Result Code A
or_throw none c = err c
or_throw (some a) c = ok a

-- AccountPoolAllocator::kMaxAccount
abbrev pub max_number : ℕ
max_number = 9999999999

-- A page holds `limit` rows of the `limit + 1` that were asked for.
abbrev pub page {ℓ} : {A : Type ℓ} → ℕ → List A → List A
page limit rows = take limit (take (limit + 1) rows)

abbrev pub has_more {ℓ} : {A : Type ℓ} → ℕ → List A → Bool
has_more limit rows = ltb limit (length (take (limit + 1) rows))

-- The last element's key, or what was there before.
abbrev pub cursor_of {ℓ} : {A : Type ℓ} → (A → ℕ) → ℕ → List A → ℕ
cursor_of key before [] = before
cursor_of key before (x ∷ xs) = cursor_of key (key x) xs

-- std::clamp(limit, 1, most)
abbrev pub clamp : ℕ → ℕ → ℕ
clamp limit most = if ltb limit 1 then 1 else if ltb most limit then most else limit

unfoldable pub group_row : GroupRow → Group
group_row row = record {
  id = row.id;
  name = row.name;
  owner = row.owner;
  member_count = row.member_count;
  dismissed = row.dismissed;
  joined = false;
  join_seq = 0;
  last_seq = row.last_seq;
  read_seq = 0;
  unread = 0;
  large = ltb 200 row.member_count;
  epoch = 0;
  number = none;
}

unread_count : Db → ℕ → ℕ → ℕ → ℕ
unread_count db id actor first =
    count (λ m. is_message_in id m && (ltb first m.seq && not (m.sender == actor))) db.messages

with_member : Db → Group → ℕ → Option MemberRow → Group
unfolding unread_count
with_member db g actor none = g
with_member db g actor (some row) =
    let joined = row.active && not g.dismissed in
    record g {
      joined = joined;
      join_seq = row.join_seq;
      read_seq = row.read_seq;
      epoch = row.epoch;
      unread = if joined then unread_count db g.id actor (max row.join_seq row.read_seq) else 0;
    }

abbrev number_of : Db → ℕ → Option ℕ
number_of db id = elim (find (λ (n : NumberRow). n.group_id == id) db.numbers) [
  | none ↦ none
  | some n ↦ some n.number
]

unfoldable pub member_state : Db → Group → ℕ → Group
unfolding with_member
member_state db g actor =
    with_member db (record g { number = number_of db g.id }) actor
      (find (is_member g.id actor) db.members)

unfoldable pub allocate_group_number : Db → ℕ → Result Code Db
allocate_group_number db id = do
  let value = db.next_number
  guard (leb value max_number) group_number_exhausted
  -- PRIMARY KEY(group_id), UNIQUE(number)
  guard (not (any (λ (n : NumberRow). n.group_id == id || n.number == value) db.numbers)) db_error
  ok (record db {
    numbers = db.numbers ++ record { group_id = id; number = value } ∷ [];
    next_number = value + 1;
  })

-- `member_count=(SELECT COUNT(*) FROM im_group_members WHERE group_id={} AND active=1)`
unfoldable pub recount : ℕ → Db → Db
recount id db = record db {
  groups =
      update (is_group id) (λ g. record g { member_count = count (is_active_in id) db.members })
        db.groups;
}

abbrev pub empty_reply : Bytes → Reply
empty_reply id = record {
  groups = [];
  members = [];
  applications = [];
  messages = [];
  cursor = 0;
  has_more = false;
  snapshot = 0;
  group_id = id;
  epoch = 0;
}
