-- ===== src/Register/Data.antt =====
-- The tables of registration, and what a transaction meets.
use ape_server.Text.Decimal.{to_string}
use ape_server.Text.Hex.{hex}
use ape_server.Prelude.{
  ℕ, Bool, true, false, Option, none, some, List, [], ◌∷◌, ◌++◌, Bytes, bytes_eq, length, ◌==◌,
  if◌then◌else◌, Result, ok, err,
}

-- users, with the columns that registration and login write; the last login is NULL before the first
pub record User : Type 0 where
  pub id : ℕ
  pub account : ℕ
  pub nickname : Bytes
  pub phone : Bytes
  pub password_hash : Bytes
  pub password_salt : Bytes
  pub last_login : Option ℕ

-- account_pool; status 1 is taken
pub record PoolRow : Type 0 where
  pub id : ℕ
  pub account : ℕ
  pub taken : Bool

-- registration_requests
pub record RequestRow : Type 0 where
  pub request : Bytes
  pub salt : Bytes
  pub hash : Bytes
  pub user : Option ℕ
  pub account : Option ℕ

-- The two AUTO_INCREMENTs, and next_start of account_pool_cursor, if its row is there.
pub record Db : Type 0 where
  pub users : List User
  pub next_user : ℕ
  pub pool : List PoolRow
  pub next_pool : ℕ
  pub requests : List RequestRow
  pub next_start : Option ℕ

-- RegistrationInput; the account of `user` is not read.
pub record Input : Type 0 where
  pub request : Bytes
  pub nickname : Bytes
  pub phone : Bytes
  pub password_hash : Bytes
  pub password_salt : Bytes
  pub payload : Bytes

-- `RegistrationError::code`, and an error of MySQL that is passed on.
pub data Code : Type 0 where
  schema_error internal_error idempotency_conflict phone_exists pool_inconsistent : Code
  db_error registration_uncertain registration_busy refill_invalid_param refill_uncertain : Code
  account_range_exhausted account_pool_unavailable mysql_error : Code

-- What is caught in a transaction: 1205 or 1213, 1062, another error of MySQL, or the code's own.
pub data Failure : Type 0 where
  transient duplicate broken : Failure
  thrown : Code → Failure

-- Whether there is a connection on which a transaction begins; the statement of an attempt that
-- fails, if its number is not 0, and how; whether a commit that fails was applied; whether a rollback,
-- and a query after it, succeed.
pub record Weather : Type 0 where
  pub begins : Bool
  pub fails_at : ℕ
  pub failure : Failure
  pub applied : Bool
  pub rolls_back : Bool
  pub confirms : Bool

abbrev pub calm : Weather
calm = record {
  begins = true;
  fails_at = 0;
  failure = broken;
  applied = false;
  rolls_back = true;
  confirms = true;
}

abbrev pub statement : Weather → ℕ → Result Failure (Unit {0})
statement w k = if w.fails_at == k then err w.failure else ok tt

abbrev pub min_account : ℕ
min_account = 1000000000

abbrev pub max_account : ℕ
max_account = 9999999999

abbrev pub low_water_mark : ℕ
low_water_mark = 1000

abbrev pub refill_batch : ℕ
refill_batch = 10000

-- Each text after its length.
unfoldable pub payload : Bytes → Bytes → Bytes → Bytes
payload a b c =
    to_string (length a)
    ++ (b':'
        ∷ (a ++ (to_string (length b) ++ (b':' ∷ (b ++ (to_string (length c) ++ (b':' ∷ c)))))))

-- The digest is the hexadecimal SHA-256 of salt and data; `sha` is OpenSSL's.
unfoldable pub digest : (Bytes → Bytes) → Bytes → Bytes → Bytes
digest sha salt text = hex (sha (payload salt text []))

abbrev pub is_request : Bytes → RequestRow → Bool
is_request id r = bytes_eq r.request id

abbrev pub has_account : ℕ → User → Bool
has_account account u = u.account == account

abbrev pub has_phone : Bytes → User → Bool
has_phone phone u = bytes_eq u.phone phone

abbrev pub is_pooled : ℕ → PoolRow → Bool
is_pooled account p = p.account == account

-- Both results are there.
abbrev pub both : Option ℕ → Option ℕ → Option (ℕ × ℕ)
both none a = none
both (some u) none = none
both (some u) (some a) = some (u, a)

abbrev pub result_of : RequestRow → Option (ℕ × ℕ)
result_of r = both r.user r.account
