-- ===== src/Group/Data.antt =====
-- The messages of proto/groupchat.proto and the rows of the tables that InitializeGroups creates.
-- Identifiers in replies are the decimal texts of the table's keys; the model keeps the keys.
use ape_server.Prelude.{ℕ, Bool, Option, List, Bytes}

pub data Operation : Type 0 where
  list create search apply applications review members rename : Operation
  leave kick dismiss send pull ack read my_applications : Operation
  -- A number that the enumeration does not name.
  unknown : Operation

pub record Command : Type 0 where
  pub operation : Operation
  pub actor : ℕ
  pub group_id : Bytes
  pub text : Bytes
  pub target : ℕ
  pub application_id : ℕ
  pub accept : Bool
  pub after : ℕ
  pub limit : ℕ
  pub snapshot : ℕ
  pub client_id : Bytes
  pub epoch : ℕ

-- `Error::code`.
pub data Code : Type 0 where
  invalid_param invalid_account invalid_group group_number_exhausted invalid_name : Code
  group_not_found group_dismissed already_joined not_member membership_changed : Code
  owner_required application_not_found application_handled name_unchanged : Code
  owner_cannot_leave empty_message idempotency_conflict invalid_seq : Code
  invalid_request_id cache_error db_error : Code

-- im_groups
pub record GroupRow : Type 0 where
  pub id : ℕ
  pub name : Bytes
  pub owner : ℕ
  pub member_count : ℕ
  pub dismissed : Bool
  pub last_seq : ℕ

-- im_group_members
pub record MemberRow : Type 0 where
  pub group_id : ℕ
  pub account : ℕ
  pub active : Bool
  pub epoch : ℕ
  pub join_seq : ℕ
  pub ack_seq : ℕ
  pub read_seq : ℕ

-- im_group_applications; status 0 pending, 1 accepted, 2 rejected, 3 closed
pub record ApplicationRow : Type 0 where
  pub id : ℕ
  pub group_id : ℕ
  pub account : ℕ
  pub reason : Bytes
  pub status : ℕ
  pub created_time : ℕ

-- im_group_messages
pub record MessageRow : Type 0 where
  pub group_id : ℕ
  pub seq : ℕ
  pub id : Bytes
  pub client_id : Bytes
  pub sender : ℕ
  pub nickname : Bytes
  pub text : Bytes
  pub created_time : ℕ

-- im_group_numbers
pub record NumberRow : Type 0 where
  pub group_id : ℕ
  pub number : ℕ

-- im_group_requests
pub record RequestRow : Type 0 where
  pub actor : ℕ
  pub client_id : Bytes
  pub payload : Bytes
  pub reply : Bytes

-- The columns of `users` that groups read.
pub record UserRow : Type 0 where
  pub account : ℕ
  pub nickname : Bytes

pub record Db : Type 0 where
  pub users : List UserRow
  pub groups : List GroupRow
  pub members : List MemberRow
  pub applications : List ApplicationRow
  -- AUTO_INCREMENT of im_group_applications
  pub next_application : ℕ
  pub messages : List MessageRow
  pub numbers : List NumberRow
  -- the row of im_group_number_cursor
  pub next_number : ℕ
  pub requests : List RequestRow

-- What one call reads from outside the database: the snowflake, the UUID and the clock.
pub record Env : Type 0 where
  pub snowflake : ℕ
  pub uuid : Bytes
  pub time : ℕ

-- groupchat::Group
pub record Group : Type 0 where
  pub id : ℕ
  pub name : Bytes
  pub owner : ℕ
  pub member_count : ℕ
  pub dismissed : Bool
  pub joined : Bool
  pub join_seq : ℕ
  pub last_seq : ℕ
  pub read_seq : ℕ
  pub unread : ℕ
  pub large : Bool
  pub epoch : ℕ
  pub number : Option ℕ

-- groupchat::Member
pub record Member : Type 0 where
  pub account : ℕ
  pub nickname : Bytes
  pub owner : Bool

-- groupchat::Application
pub record Application : Type 0 where
  pub id : ℕ
  pub group_id : ℕ
  pub account : ℕ
  pub nickname : Bytes
  pub reason : Bytes
  pub status : ℕ
  pub time : ℕ
  pub group_name : Bytes
  pub group_number : Option ℕ

-- groupchat::Reply of a command that succeeded; a failed one has its `Code` alone.
pub record Reply : Type 0 where
  pub groups : List Group
  pub members : List Member
  pub applications : List Application
  pub messages : List MessageRow
  pub cursor : ℕ
  pub has_more : Bool
  pub snapshot : ℕ
  pub group_id : Bytes
  pub epoch : ℕ
