-- ===== src/Services/Auth/Tests.antt =====
-- A login and the validation of its token, and the theorems applied to them.
use ape_server.Services.Timed.{timed, timed-Lawful}
use ape_server.Text.Hex.{hex}
use ape_server.Register.Data.{User}
use ape_server.Services.Auth.{
  State, Call, LoggedIn, Look, login, validate_token, valid, hash_password,
}
use ape_server.Services.Auth.History.{Reach, begin, after, Issued}
use ape_server.Services.Auth.Valid.{now, then_login, validate_token-login, validate_token-Issued}
use ape_server.Register.Data.{Db, calm, is_request, digest, payload}
use ape_server.Register.Once.{once, once_from, settle, attempt, body, verifies, allocate, assign}
use ape_server.Register.Refill.{Shuffle, create}
use ape_server.Text.Decimal.{to_string}
use ape_server.Services.Auth.{
  Registration, register, is_valid, valid_id, valid_phone, all_of, registration_input,
}
use ape_server.Services.Auth.Joins.{login-register}
use ape_server.Gateway.Sessions.{register_session}
use ape_server.Gateway.Gauge.{idle}
use ape_server.Gateway.Session.{World}
use ape_server.Gateway.Enter.{Request, Auth, start}
use ape_server.Gateway.Entered.{Outside}
use ape_server.Gateway.Trusted.{client, Trusted, start-Trusted}
use ape_server.Prelude.{
  any, count, update, ◌⊎◌, ◌+◌, ◌-◌, ◌≡◌, refl, true, false, none, some, [], ◌∷◌, Bytes, bytes_eq,
  codes, find, is_empty, ok, arith,
}

abbrev plain : Bytes → Bytes
plain b = b

abbrev ann : User
ann = record {
  id = 2;
  account = 1000000002;
  nickname = codes "Ann";
  phone = codes "13800000001";
  password_hash = codes "7370";
  password_salt = codes "s";
  last_login = none;
}

abbrev begun : State timed
begun = record {
  db = record {
    users = ann ∷ [];
    next_user = 3;
    pool = [];
    next_pool = 1;
    requests = [];
    next_start = none;
  };
  store = [];
}

abbrev call : Call
call = record {
  account = 1000000002;
  password = codes "p";
  token = codes "t1";
  started = 5;
  noted = 6;
  stored = 7;
  reads = true;
  stamps = true;
  stores = true;
}

abbrev other_call : Call
other_call = record call { token = codes "t2"; stored = 9 }

abbrev answer : LoggedIn
answer = record {
  token = codes "t1";
  expires_at = 604805;
  user = 2;
  account = 1000000002;
  nickname = codes "Ann";
}

abbrev look : Look
look = record { got = 100; counted = 101; now = 102; gets = true; counts = true }

logged_in : (login plain timed call begun).0 ≡ ok answer
unfolding login hash_password hex find bytes_eq is_empty
logged_in = refl

abbrev later : State timed
later = (login plain timed other_call (login plain timed call begun).1).1

apart : bytes_eq (codes "t2") (codes "t1") ≡ false
unfolding bytes_eq
apart = refl

filled : is_empty (codes "t1") ≡ false
unfolding is_empty
filled = refl

validate_token-login_example :
    validate_token plain timed look (codes "t1") later.store
    ≡ valid 2 1000000002 (some (102 + (7 + 604800 - 101)))
validate_token-login_example =
    validate_token-login plain timed timed-Lawful call begun later answer look
      ((omega arith, omega arith), tt) logged_in (then_login now other_call apart) filled refl refl
      (omega arith) (omega arith) (omega arith)

abbrev later-Reach : Reach plain timed later
later-Reach = after (after (begin begun.db ((omega arith, omega arith), tt)) call) other_call

validate_token-Issued_example :
    (u : User) × Issued plain timed later-Reach 100 (codes "t1") u
    × (u.id ≡ 2)
    × (u.account ≡ 1000000002)
validate_token-Issued_example =
    validate_token-Issued plain timed timed-Lawful later-Reach look (codes "t1") 2 1000000002
      (some (102 + (7 + 604800 - 101))) validate_token-login_example

abbrev new_world : World timed
new_world = record {
  session = record {
    id = 4;
    account = 0;
    disconnected = false;
    closed = false;
    queue = none;
    writing = none;
    pending = [];
    accepted = [];
    written = [];
    direct = [];
  };
  manager = idle;
  store = [];
  calls = [];
}

abbrev by_token_request : Request
by_token_request = record {
  type = 101;
  account = 1000000002;
  request = codes "q";
  token = codes "t1";
  payload = [];
}

abbrev the_client : Auth
the_client = client plain timed later call look (λ i q. none) (λ b. none)

abbrev entered : World timed
entered =
    start timed the_client (record { at = 100; redis = true }) (some by_token_request) new_world

start-Trusted_example :
    Outside timed the_client new_world entered
    ⊎ (entered.manager ≡ register_session 1000000002 4 idle)
      × (entered.session.account ≡ 1000000002)
      × Trusted plain timed later call look later-Reach by_token_request
start-Trusted_example =
    start-Trusted plain timed later call look timed-Lawful later-Reach (λ i q. none) (λ b. none)
      timed (record { at = 100; redis = true }) new_world by_token_request refl refl

-- Someone registers while the pool has one account.
abbrev registration : Registration
registration = record {
  request = codes "r-1";
  phone = codes "13800000009";
  nickname = codes "Ben";
  password = codes "pw";
}

abbrev pooled : Db
pooled = record begun.db { pool = record { id = 1; account = 1000000003; taken = false } ∷ [] }

abbrev unshuffled : Shuffle
unshuffled = record { shuffle = λ xs. xs; keeps = λ p xs. refl }

abbrev registered_db : Db
registered_db = (register plain unshuffled (λ i k. calm) (codes "z") registration pooled).1

is_registered :
    register plain unshuffled (λ i k. calm) (codes "z") registration pooled
    ≡ (ok (3, 1000000003), registered_db)
unfolding register is_valid valid_id valid_phone all_of registration_input hash_password create once
    once_from settle attempt body verifies allocate assign find update count any bytes_eq digest
    payload hex to_string is_empty
is_registered = refl

unseen_request : any (is_request (codes "r-1")) pooled.requests ≡ false
unfolding any
unseen_request = refl

login-register_example :
    (a : LoggedIn) × ((login plain timed
        (record call { account = 1000000003; password = codes "pw" })
        (record { db = registered_db; store = [] })).0
      ≡ ok a)
    × (a.user ≡ 3)
    × (a.account ≡ 1000000003)
login-register_example =
    login-register plain unshuffled (λ i k. calm) (codes "z") registration timed pooled
      registered_db (3, 1000000003) (record call { account = 1000000003; password = codes "pw" }) []
      unseen_request is_registered refl refl refl refl
