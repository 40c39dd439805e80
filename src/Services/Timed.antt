-- ===== src/Services/Timed.antt =====
-- A store as src/storage/redisconnector.cpp expects of Redis: a list.
use ape_server.Services.Redis.{Redis, Lawful}
use ape_server.Prelude.{
  ℕ, ◌+◌, ◌-◌, refl, inl, inr, Bool, Option, none, some, List, [], ◌∷◌, Bytes, bytes_eq,
  bytes_eq_refl, find, ltb, ltb→lt, lt→ltb, if◌then◌else◌, Bool-cases,
}

-- A store with each key's latest value first, and the time at which it ends.
pub record Timed : Type 0 where
  pub key : Bytes
  pub value : Bytes
  pub until : ℕ

abbrev pub is_timed : Bytes → Timed → Bool
is_timed key e = bytes_eq e.key key

abbrev pub value_at : ℕ → Option Timed → Option Bytes
value_at at none = none
value_at at (some e) = if ltb at e.until then some e.value else none

abbrev pub left_at : ℕ → Option Timed → Option ℕ
left_at at none = none
left_at at (some e) = if ltb at e.until then some (e.until - at) else none

abbrev pub timed : Redis
timed = record {
  Store = List Timed;
  empty = [];
  setex = λ at key seconds value s. record { key = key; value = value; until = at + seconds } ∷ s;
  get = λ at key s. value_at at (find (is_timed key) s);
  ttl = λ at key s. left_at at (find (is_timed key) s);
}

-- The store keeps what it is asked to keep.
pub timed-Lawful : Lawful timed
unfolding find
timed-Lawful = record {
  get-empty = λ at key. refl;
  get-setex = λ at later seconds key value s a b.
      rw (bytes_eq_refl key, lt→ltb later (at + seconds) b) refl;
  ttl-setex = λ at later seconds key value s a b.
      rw (bytes_eq_refl key, lt→ltb later (at + seconds) b) refl;
  get_only = λ at later seconds key value found s e. elim (Bool-cases (ltb later (at + seconds))) [
    | inl t ↦ (cc (rw (bytes_eq_refl key, t) at e), ltb→lt later (at + seconds) t)
    | inr t ↦ cc (rw (bytes_eq_refl key, t) at e)
  ];
  get_other = λ at later seconds key value other s n. rw n refl;
  ttl_other = λ at later seconds key value other s n. rw n refl;
}
