-- ===== src/Register/Tests.antt =====
-- A registration that meets a deadlock and a broken commit, and the theorems applied to it.
use ape_server.Prelude.{
  ℕ, ◌≡◌, refl, true, false, none, some, [], ◌∷◌, Bytes, codes, bytes_eq, ◌==◌, if◌then◌else◌,
  arith, ok, err, find, update, count, any,
}
use ape_server.Text.Hex.{hex}
use ape_server.Text.Decimal.{to_string}
use ape_server.Register.Data.{
  Db, Input, Weather, calm, transient, broken, phone_exists, payload, digest, User,
}
use ape_server.Register.Once.{
  once, once_from, attempt, body, verifies, allocate, assign, lookup, confirm, explain, settle,
}
use ape_server.Register.Refill.{
  Shuffle, create, refill_attempt, refill_body, generate_shuffled_batch, add_accounts, max_of, size,
}
use ape_server.Register.Answers.{HasAnswer}
use ape_server.Register.Again.{create-again, create-refused}
use ape_server.Register.Keeps.{IsConsistent}
use ape_server.Register.Reach.{begin, after, attempted, refilled, Reach-IsConsistent}

abbrev plain : Bytes → Bytes
plain b = b

abbrev ann : Input
ann = record {
  request = codes "r1";
  nickname = codes "Ann";
  phone = codes "13800000001";
  password_hash = [];
  password_salt = codes "s";
  payload = codes "p";
}

-- The tables that docker/mysql/init.sql sets up, with one account in the pool.
abbrev seed : User
seed = record {
  id = 1;
  account = 1000000001;
  nickname = [];
  phone = codes "13800000000";
  password_hash = [];
  password_salt = [];
  last_login = none;
}

abbrev start : Db
start = record {
  users = seed ∷ [];
  next_user = 2;
  pool = record { id = 1; account = 1000000002; taken = false } ∷ [];
  next_pool = 2;
  requests = [];
  next_start = some 1000000003;
}

-- A deadlock at the fifth statement, then a commit that is applied and not confirmed.
abbrev stormy : ℕ → Weather
stormy k =
    if k == 0
    then record calm { fails_at = 5; failure = transient }
    else record calm { fails_at = 8; failure = broken; applied = true }

abbrev unshuffled : Shuffle
unshuffled = record { shuffle = λ xs. xs; keeps = λ p xs. refl }

abbrev ann_db : Db
ann_db = (create plain unshuffled (λ i. stormy) ann start).1

registered : create plain unshuffled (λ i. stormy) ann start ≡ (ok (2, 1000000002), ann_db)
unfolding create once once_from settle attempt body verifies allocate assign lookup confirm explain
    find update count any bytes_eq digest payload hex to_string
registered = refl

-- Another call of the service salts the password anew.
abbrev ann_again : Input
ann_again = record ann { password_hash = codes "h"; password_salt = codes "t" }

create-again_example :
    HasAnswer plain ann (2, 1000000002) ann_db
    × (create plain unshuffled (λ i k. calm) ann_again ann_db ≡ (ok (2, 1000000002), ann_db))
create-again_example =
    create-again plain unshuffled (λ i. stormy) ann ann_again start ann_db (2, 1000000002)
      registered refl refl

-- The same phone number under another request.
abbrev bob : Input
bob = record ann { request = codes "r2"; phone = codes "13800000000" }

abbrev bob_db : Db
bob_db = (create plain unshuffled (λ i. stormy) bob start).1

refused : create plain unshuffled (λ i. stormy) bob start ≡ (err phone_exists, bob_db)
unfolding create once once_from settle attempt body verifies allocate assign lookup confirm explain
    find update count any bytes_eq digest payload hex to_string
refused = refl

create-refused_example : (bob_db.users ≡ start.users) × (bob_db.requests ≡ start.requests)
create-refused_example =
    create-refused plain unshuffled (λ i. stormy) bob start bob_db phone_exists refused (λ e. cc)

start-IsConsistent : IsConsistent start
unfolding count any bytes_eq
start-IsConsistent = record {
  accounts = λ a. ground arith;
  phones = λ t. ground arith;
  pooled = λ a. ground arith;
  unused = ((λ e. refl), tt);
  ranged = ((omega arith, omega arith), tt);
  completed = tt;
}

Reach-IsConsistent_example :
    IsConsistent (refill_attempt unshuffled calm 2 (attempt plain (stormy 1) ann start).1).1
Reach-IsConsistent_example =
    Reach-IsConsistent {sha = plain} {s = unshuffled} start-IsConsistent
      (after (after begin (attempted (stormy 1) ann)) (refilled calm 2))

extended : (refill_attempt unshuffled calm 2 start).1.next_start ≡ some 1000000005
unfolding refill_attempt refill_body generate_shuffled_batch add_accounts max_of size count
extended = refl
