-- ===== src/Gateway/Gauge.antt =====
-- The gauge counts the accounts that are online; an old session does not take out a new one.
use ape_server.Prelude.{
  ℕ, suc, ◌+◌, ◌≤◌, ◌≡◌, ◌≢◌, refl, ap, inl, inr, Bool, true, false, some, List, [], ◌∷◌, ◌++◌, map,
  Bytes, Bool-cases, Option-cases, ◌==◌, ==_iff, ==_refl, arith, length, length-append, find,
  update, delete, count, any, count-append, count-update, count_none,
}
use ape_server.Gateway.Sessions.{
  Entry, Manager, is_of_account, online_accounts, register_session, unregister_session,
  push_to_user,
}

-- No account has two entries, and the gauge is their number.
pub record IsSound (m : Manager) : Type 0 where
  pub gauged : m.added ≡ m.removed + length (online_accounts m)
  pub once : (account : ℕ) → count (is_of_account account) m.sessions ≤ 1

length-update :
    (p : Entry → Bool) (f : Entry → Entry) (es : List Entry) → length (update p f es) ≡ length es
unfolding update
length-update p f [] = refl
length-update p f (e ∷ es) = ap suc (length-update p f es)

length-delete : (p : Entry → Bool) (es : List Entry) → length (delete p es) + count p es ≡ length es
unfolding delete count
length-delete p [] = omega arith
length-delete p (e ∷ es) = ground (arith, length-delete p es)

length-online : (es : List Entry) → length (map (λ (e : Entry). e.account) es) ≡ length es
length-online [] = refl
length-online (e ∷ es) = ap suc (length-online es)

found_counted :
    (p : Entry → Bool) (es : List Entry) (e : Entry) → find p es ≡ some e → 1 ≤ count p es
unfolding find count
found_counted p [] e h = cc
found_counted p (x ∷ es) e h = ground (arith, found_counted p es e)

delete_at_most : (q p : Entry → Bool) (es : List Entry) → count q (delete p es) ≤ count q es
unfolding delete count
delete_at_most q p [] = omega arith
delete_at_most q p (e ∷ es) = ground (arith, delete_at_most q p es)

pub register_session-IsSound :
    (account session : ℕ) (m : Manager) → IsSound m → IsSound (register_session account session m)
unfolding register_session online_accounts count
register_session-IsSound account session m s =
    elim (Bool-cases (any (is_of_account account) m.sessions)) [
      | inl e ↦ rw e (record {
        gauged = omega (
          arith,
          s.gauged,
          length-online m.sessions,
          length-online (
              update (is_of_account account) (λ (x : Entry). record x { session = session })
                m.sessions),
          length-update (is_of_account account) (λ (x : Entry). record x { session = session })
              m.sessions,
        );
        once = λ a. omega (
          arith,
          s.once a,
          count-update (is_of_account a) (is_of_account account)
              (λ (x : Entry). record x { session = session }) m.sessions (λ x _. refl),
        );
      })
      | inr e ↦ rw e (record {
        gauged = omega (
          arith,
          s.gauged,
          length-online m.sessions,
          length-online (m.sessions ++ record { account = account; session = session } ∷ []),
          length-append m.sessions (record { account = account; session = session } ∷ []),
        );
        once = λ a. ground (
          arith,
          s.once a,
          count-append (is_of_account a) m.sessions
              (record { account = account; session = session } ∷ []),
          count_none (is_of_account a) (is_of_account account) m.sessions,
        );
      })
    ]

pub unregister_session-IsSound :
    (account session : ℕ) (m : Manager)
    → IsSound m
    → IsSound (unregister_session account session m).1
unfolding unregister_session online_accounts
unregister_session-IsSound account session m s =
    elim (Option-cases (find (is_of_account account) m.sessions)) [
      | inl e ↦ rw (unregister_session, e) s
      | inr (x, e) ↦ elim (Bool-cases (x.session == session)) [
        | inr n ↦ rw (unregister_session, e, n) s
        | inl n ↦
            rw (unregister_session, e, n)
              (record {
                gauged = omega (
                  arith,
                  s.gauged,
                  s.once account,
                  found_counted (is_of_account account) m.sessions x e,
                  length-online m.sessions,
                  length-online (delete (is_of_account account) m.sessions),
                  length-delete (is_of_account account) m.sessions,
                );
                once = λ a. omega (
                  arith,
                  s.once a,
                  delete_at_most (is_of_account a) (is_of_account account) m.sessions,
                );
              })
      ]
    ]

pub push_to_user-IsSound :
    (account : ℕ) (payload : Bytes) (m : Manager)
    → IsSound m
    → IsSound (push_to_user account payload m).1
unfolding push_to_user online_accounts
push_to_user-IsSound account payload m s =
    elim (Option-cases (find (is_of_account account) m.sessions)) [
      | inl e ↦ rw (push_to_user, e) s
      | inr (x, e) ↦ rw (push_to_user, e) (record { gauged = s.gauged; once = s.once })
    ]

-- What happens to the sessions, in the order of the lock.
pub data Step : Manager → Manager → Type 0 where
  registered : (account session : ℕ) (m : Manager) → Step m (register_session account session m)
  unregistered :
      (account session : ℕ) (m : Manager) → Step m (unregister_session account session m).1
  pushed : (account : ℕ) (payload : Bytes) (m : Manager) → Step m (push_to_user account payload m).1

abbrev pub idle : Manager
idle = record { sessions = []; added = 0; removed = 0; sent = [] }

pub data Reach : Manager → Type 0 where
  begin : Reach idle
  after : {m m' : Manager} → Reach m → Step m m' → Reach m'

Step-IsSound : {m m' : Manager} → Step m m' → IsSound m → IsSound m'
Step-IsSound (registered account session m) s = register_session-IsSound account session m s
Step-IsSound (unregistered account session m) s = unregister_session-IsSound account session m s
Step-IsSound (pushed account payload m) s = push_to_user-IsSound account payload m s

-- Whatever sessions were registered, unregistered and pushed to, the gauge of connections is the
-- number of accounts that are online, and no account is online twice.
pub reached-IsSound : {m : Manager} → Reach m → IsSound m
unfolding online_accounts count
reached-IsSound begin = record { gauged = omega arith; once = λ a. omega arith }
reached-IsSound (after r s) = Step-IsSound s (reached-IsSound r)

find_replaced :
    (account session : ℕ) (es : List Entry)
    → any (is_of_account account) es ≡ true
    → find
        (is_of_account account)
        (update (is_of_account account) (λ (e : Entry). record e { session = session }) es)
      ≡ some (record { account = account; session = session })
unfolding find any update
find_replaced account session [] h = cc
find_replaced account session (e ∷ es) h = elim (Bool-cases (e.account == account)) [
  | inl k ↦
      let same : e.account ≡ account = (==_iff e.account account).0 k in
      rw (k, k) (ap (λ a. some (record { account = a; session = session })) same)
  | inr k ↦ rw (k, k) (find_replaced account session es (rw k at h))
]

find_added :
    (account session : ℕ) (es : List Entry)
    → any (is_of_account account) es ≡ false
    → find (is_of_account account) (es ++ record { account = account; session = session } ∷ [])
      ≡ some (record { account = account; session = session })
unfolding find any
find_added account session [] h = rw (==_refl account) refl
find_added account session (e ∷ es) h = ground (arith, find_added account session es)

pub register_session-find :
    (account session : ℕ) (m : Manager)
    → find (is_of_account account) (register_session account session m).sessions
      ≡ some (record { account = account; session = session })
unfolding register_session
register_session-find account session m =
    elim (Bool-cases (any (is_of_account account) m.sessions)) [
      | inl e ↦ rw (register_session, e) (find_replaced account session m.sessions e)
      | inr e ↦ rw (register_session, e) (find_added account session m.sessions e)
    ]

-- After a session is registered, the end of another session of the same account leaves it in place.
pub unregister_stale :
    (account session old : ℕ) (m : Manager)
    → old ≢ session
    → unregister_session account old (register_session account session m)
      ≡ (false, register_session account session m)
unfolding unregister_session
unregister_stale account session old m n =
    rw (unregister_session, register_session-find account session m) (ground arith)

-- What is pushed to an account goes to the session that it registered last.
pub push_to_registered :
    (account session : ℕ) (payload : Bytes) (m : Manager)
    → push_to_user account payload (register_session account session m) ≡ (
      true,
      record (register_session account session m) {
        sent =
            (register_session account session m).sent
            ++ record { session = session; payload = payload } ∷ [];
      },
    )
unfolding push_to_user
push_to_registered account session payload m =
    rw (push_to_user, register_session-find account session m) refl
