-- ===== src/Gateway/Sessions.antt =====
-- `WSSessionManager`: the session of each account that is online, and the gauge of open connections.
-- A session is a number, as its address is. Each operation holds the lock while it reads and writes
-- the map, so that they run one after the other.
use ape_server.Prelude.{
  ℕ, ◌+◌, Bool, true, false, none, some, List, [], ◌∷◌, ◌++◌, map, Bytes, ◌==◌, if◌then◌else◌, find,
  update, delete, any,
}

-- An entry of `sessions_`.
pub record Entry : Type 0 where
  pub account : ℕ
  pub session : ℕ

-- What was sent to a session.
pub record Sent : Type 0 where
  pub session : ℕ
  pub payload : Bytes

-- The gauge is what was added less what was taken off.
pub record Manager : Type 0 where
  pub sessions : List Entry
  pub added : ℕ
  pub removed : ℕ
  pub sent : List Sent

abbrev pub is_of_account : ℕ → Entry → Bool
is_of_account account e = e.account == account

unfoldable pub online_accounts : Manager → List ℕ
online_accounts m = map (λ (e : Entry). e.account) m.sessions

unfoldable pub has_session : ℕ → Manager → Bool
has_session account m = any (is_of_account account) m.sessions

-- A session takes the place of the account's earlier one.
unfoldable pub register_session : ℕ → ℕ → Manager → Manager
register_session account session m =
    if any (is_of_account account) m.sessions
    then record m {
      sessions =
          update (is_of_account account) (λ (e : Entry). record e { session = session }) m.sessions;
    }
    else record m {
      sessions = m.sessions ++ record { account = account; session = session } ∷ [];
      added = m.added + 1;
    }

-- Only the session that is registered is taken out.
unfoldable pub unregister_session : ℕ → ℕ → Manager → Bool × Manager
unregister_session account session m = elim (find (is_of_account account) m.sessions) [
  | none ↦ (false, m)
  | some e ↦
      if e.session == session
      then (
        true,
        record m { sessions = delete (is_of_account account) m.sessions; removed = m.removed + 1 },
      )
      else (false, m)
]

unfoldable pub push_to_user : ℕ → Bytes → Manager → Bool × Manager
push_to_user account payload m = elim (find (is_of_account account) m.sessions) [
  | none ↦ (false, m)
  | some e ↦
      (true, record m { sent = m.sent ++ record { session = e.session; payload = payload } ∷ [] })
]
