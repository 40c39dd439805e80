-- ===== src/Services/Auth.antt =====
-- The service of src/services/auth_service, with the queries of users in src/storage/mysqlhandler.cpp
-- that it makes. SHA-256, Redis, the clock and the generated tokens and salts are given.
use ape_server.Text.Decimal.{to_string}
use ape_server.Text.Hex.{hex}
use ape_server.Text.Number.{stoull, split_comma}
use ape_server.Services.Redis.{Redis}
use ape_server.Register.Data.{
  User, Db, Code, db_error, mysql_error, Weather, Input, payload, has_account,
}
use ape_server.Register.Refill.{Shuffle, create}
use ape_server.Prelude.{
  ℕ, ◌+◌, ◌*◌, Bool, true, false, not, ◌&&◌, ◌||◌, Option, none, some, Bytes, [], ◌∷◌, ◌++◌,
  bytes_eq, codes, ltb, leb, ◌==◌, if◌then◌else◌, is_empty, length, find, update, Result, ok, err,
}
pub mod Tokens
pub mod History
pub mod Valid
pub mod Joins
mod Tests

abbrev pub token_key : Bytes → Bytes
token_key token = codes "token:" ++ token

-- Seven days.
abbrev pub token_ttl_seconds : ℕ
token_ttl_seconds = 7 * 24 * 3600

unfoldable pub hash_password : (Bytes → Bytes) → Bytes → Bytes → Bytes
hash_password sha password salt = hex (sha (salt ++ password))

-- A query that fails is caught, and answers like one that finds nobody.
abbrev pub find_user_by_account : Bool → ℕ → Db → Option User
find_user_by_account reads account db = if reads then find (has_account account) db.users else none

unfoldable pub update_last_login : Bool → ℕ → ℕ → Db → Db
update_last_login stamps at user db =
    if stamps
    then record db {
      users =
          update (λ (u : User). u.id == user) (λ (u : User). record u { last_login = some at })
            db.users;
    }
    else db

-- The tables of MySQL, and Redis.
pub record State (r : Redis) : Type 0 where
  pub db : Db
  pub store : r.Store

-- A request to log in, with the token that is generated for it, the times at which it starts, is
-- noted and is stored, and whether the query, the statement and Redis succeed.
pub record Call : Type 0 where
  pub account : ℕ
  pub password : Bytes
  pub token : Bytes
  pub started : ℕ
  pub noted : ℕ
  pub stored : ℕ
  pub reads : Bool
  pub stamps : Bool
  pub stores : Bool

pub data LoginError : Type 0 where
  invalid_param user_not_found wrong_password internal_error : LoginError

-- AuthRegResponse of a login
pub record LoggedIn : Type 0 where
  pub token : Bytes
  pub expires_at : ℕ
  pub user : ℕ
  pub account : ℕ
  pub nickname : Bytes

abbrev pub token_value : User → Bytes
token_value u = to_string u.id ++ b',' ∷ to_string u.account

-- ValidateTokenResponse, or a status of gRPC that is not OK.
pub data Validation : Type 0 where
  invalid redis_error : Validation
  valid : ℕ → ℕ → Option ℕ → Validation

-- The times of GET and of TTL and the time read after them, and whether Redis answers the two.
pub record Look : Type 0 where
  pub got : ℕ
  pub counted : ℕ
  pub now : ℕ
  pub gets : Bool
  pub counts : Bool

module _ (sha : Bytes → Bytes) (r : Redis) where
  unfoldable pub login : Call → State r → Result LoginError LoggedIn × State r
  login c s =
      if c.account == 0 || is_empty c.password
      then (err invalid_param, s)
      else elim (find_user_by_account c.reads c.account s.db) [
        | none ↦ (err user_not_found, s)
        | some u ↦
            if not (bytes_eq (hash_password sha c.password u.password_salt) u.password_hash)
            then (err wrong_password, s)
            else let db = update_last_login c.stamps c.noted u.id s.db in
              if c.stores
              then (
                ok (record {
                  token = c.token;
                  expires_at = c.started + token_ttl_seconds;
                  user = u.id;
                  account = u.account;
                  nickname = u.nickname;
                }),
                record {
                  db = db;
                  store =
                      r.setex c.stored (token_key c.token) token_ttl_seconds (token_value u)
                        s.store;
                },
              )
              else (err internal_error, record s { db = db })
      ]

  -- Both parts are numbers, and Redis still answers: TTL gives the time at which the token ends.
  abbrev pub validated : Look → Bytes → r.Store → Option ℕ → Option ℕ → Validation
  validated l key store none account = redis_error
  validated l key store (some user) none = redis_error
  validated l key store (some user) (some account) =
      if l.counts
      then valid user account
          (elim (r.ttl l.counted key store) [ none ↦ none | some n ↦ some (l.now + n) ])
      else redis_error

  abbrev pub parsed : Look → Bytes → r.Store → Bytes → Validation
  parsed l key store value = elim (split_comma value) [
    | none ↦ invalid
    | some p ↦ validated l key store (stoull p.0) (stoull p.1)
  ]

  unfoldable pub validate_token : Look → Bytes → r.Store → Validation
  validate_token l token store =
      if is_empty token
      then invalid
      else if l.gets
      then elim (r.get l.got (token_key token) store) [
        | none ↦ invalid
        | some value ↦ parsed l (token_key token) store value
      ]
      else redis_error

-- RegisterRequest, with the identifier of the request from its metadata.
pub record Registration : Type 0 where
  pub request : Bytes
  pub phone : Bytes
  pub nickname : Bytes
  pub password : Bytes

abbrev is_digit : ℕ → Bool
is_digit c = leb 48 c && leb c 57

pub all_of : (ℕ → Bool) → Bytes → Bool
all_of p [] = true
all_of p (c ∷ cs) = p c && all_of p cs

unfoldable pub valid_id : Bytes → Bool
unfolding all_of
valid_id id =
    not (is_empty id)
    && (leb (length id) 64
        && all_of
            (λ c. (leb 97 c && leb c 122) || ((leb 65 c && leb c 90) || (is_digit c || c == b'-')))
            id)

-- The first digit is 1 and the second is between 3 and 9.
abbrev prefixed : Bytes → Bool
prefixed [] = false
prefixed (c ∷ []) = false
prefixed (c ∷ d ∷ rest) = c == b'1' && (leb 51 d && leb d 57)

unfoldable pub valid_phone : Bytes → Bool
unfolding all_of
valid_phone phone = length phone == 11 && (prefixed phone && all_of is_digit phone)

unfoldable pub is_valid : Registration → Bool
is_valid q =
    valid_id q.request
    && (valid_phone q.phone
        && (not (is_empty q.nickname)
            && (leb (length q.nickname) 256
                && (not (is_empty q.password) && leb (length q.password) 1024))))

unfoldable pub registration_input : (Bytes → Bytes) → Bytes → Registration → Input
registration_input sha salt q = record {
  request = q.request;
  nickname = q.nickname;
  phone = q.phone;
  password_hash = hash_password sha q.password salt;
  password_salt = salt;
  payload = payload q.phone q.nickname q.password;
}

pub data RegisterError : Type 0 where
  invalid_info : RegisterError
  failed : Code → RegisterError

-- An error of MySQL that is not one of registration is answered as DB_ERROR.
abbrev pub answer_code : Code → Code
answer_code mysql_error = db_error
answer_code c = c

-- The user and the account, or an error.
abbrev pub register_reply : Result Code (ℕ × ℕ) → Result RegisterError (ℕ × ℕ)
register_reply (ok given) = ok given
register_reply (err c) = err (failed (answer_code c))

unfoldable pub register :
    (Bytes → Bytes)
    → Shuffle
    → (ℕ → ℕ → Weather)
    → Bytes
    → Registration
    → Db
    → Result RegisterError (ℕ × ℕ) × Db
register sha s ws salt q db =
    let (answer, after) = create sha s ws (registration_input sha salt q) db in
    if is_valid q then (register_reply answer, after) else (err invalid_info, db)
