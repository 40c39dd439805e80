-- ===== src/Gateway/Refine.antt =====
-- `WSSessionManager` of src/gateway/ws_session_manager.cpp, seen as a function from an account to its
-- session.
use ape_server.Gateway.Sessions.{
  Entry, Sent, Manager, is_of_account, has_session, register_session, unregister_session,
  push_to_user,
}
use ape_server.Gateway.Gauge.{register_session-find}
use ape_server.Prelude.{
  ℕ, ◌≡◌, refl, sym, ap, ◌∙◌, subst, inl, inr, Bool, true, false, Option, none, some, List, [], ◌∷◌,
  ◌++◌, Bytes, ◌==◌, ==_iff, arith, if◌then◌else◌, find, find-delete, find-delete_all, update,
  delete, any, none→any, find→any, Bool-cases, Option-cases,
}

-- A call of the manager.
pub data Op : Type 0 where
  register unregister : ℕ → ℕ → Op
  push : ℕ → Bytes → Op
  query : ℕ → Op

-- The session of each account, and what was sent.
pub record Directory : Type 0 where
  pub online : ℕ → Option ℕ
  pub sent : List Sent

-- Its answer, true for a registration, and the manager afterwards.
abbrev pub called_on : Op → Manager → Bool × Manager
called_on (register account session) m = (true, register_session account session m)
called_on (unregister account session) m = unregister_session account session m
called_on (push account payload) m = push_to_user account payload m
called_on (query account) m = (has_session account m, m)

abbrev pub has_one : Option ℕ → Bool
has_one none = false
has_one (some s) = true

abbrev set : ℕ → Option ℕ → Directory → Directory
set account o d = record d { online = λ a. if a == account then o else d.online a }

-- The same calls on the function.
abbrev pub specified : Op → Directory → Bool × Directory
specified (register account session) d = (true, set account (some session) d)
specified (unregister account session) d = elim (d.online account) [
  | none ↦ (false, d)
  | some s ↦ if s == session then (true, set account none d) else (false, d)
]
specified (push account payload) d = elim (d.online account) [
  | none ↦ (false, d)
  | some s ↦ (true, record d { sent = d.sent ++ record { session = s; payload = payload } ∷ [] })
]
specified (query account) d = (has_one (d.online account), d)

pub run_all {ℓ} : {A : Type ℓ} → (Op → A → Bool × A) → List Op → A → List Bool × A
run_all step [] a = ([], a)
run_all step (op ∷ ops) a =
    let (answer, a') = step op a in
    let (answers, a'') = run_all step ops a' in (answer ∷ answers, a'')

abbrev session_of : Option Entry → Option ℕ
session_of none = none
session_of (some e) = some e.session

-- The function says what the manager holds.
pub record Tells (m : Manager) (d : Directory) : Type 0 where
  pub online :
      (account : ℕ) → session_of (find (is_of_account account) m.sessions) ≡ d.online account
  pub sent : m.sent ≡ d.sent

module _ (account session a : ℕ) (other : (a == account) ≡ false) where
  updated_other :
      (es : List Entry)
      → session_of (
          find
            (is_of_account a)
            (update (is_of_account account) (λ (e : Entry). record e { session = session }) es))
        ≡ session_of (find (is_of_account a) es)
  unfolding find update
  updated_other [] = refl
  updated_other (e ∷ es) = elim (Bool-cases (e.account == account)) [
    | inl t ↦
        let apart : (e.account == a) ≡ false = ground arith in rw (t, apart) (updated_other es)
    | inr t ↦ elim (Bool-cases (e.account == a)) [
      | inl u ↦ rw (t, u) refl
      | inr u ↦ rw (t, u) (updated_other es)
    ]
  ]

  added_other :
      (es : List Entry)
      → session_of
          (find (is_of_account a) (es ++ record { account = account; session = session } ∷ []))
        ≡ session_of (find (is_of_account a) es)
  unfolding find
  added_other [] = let apart : (account == a) ≡ false = ground arith in rw apart refl
  added_other (e ∷ es) = elim (Bool-cases (e.account == a)) [
    | inl u ↦ rw u refl
    | inr u ↦ rw u (added_other es)
  ]

register-online :
    (account session a : ℕ) (m : Manager)
    → session_of (find (is_of_account a) (register_session account session m).sessions)
      ≡ (if a == account then some session else session_of (find (is_of_account a) m.sessions))
unfolding register_session
register-online account session a m = elim (Bool-cases (a == account)) [
  | inl t ↦ rw t (
      ap (λ x. session_of (find (is_of_account x) (register_session account session m).sessions))
        ((==_iff a account).0 t)
      ∙ ap session_of (register_session-find account session m))
  | inr t ↦ elim (Bool-cases (any (is_of_account account) m.sessions)) [
    | inl e ↦ rw (t, register_session, e) (updated_other account session a t m.sessions)
    | inr e ↦ rw (t, register_session, e) (added_other account session a t m.sessions)
  ]
]

unregister-online :
    (account a : ℕ) (es : List Entry)
    → session_of (find (is_of_account a) (delete (is_of_account account) es))
      ≡ (if a == account then none else session_of (find (is_of_account a) es))
unregister-online account a es = elim (Bool-cases (a == account)) [
  | inl t ↦
      let same : a ≡ account = (==_iff a account).0 t in
      rw t (
        ap session_of (
          find-delete_all (is_of_account a) (is_of_account account) es
            (λ (e : Entry) h. subst (λ x. (e.account == x) ≡ true) same h)))
  | inr t ↦ rw t (
      ap session_of (
        find-delete (is_of_account a) (is_of_account account) es (λ (e : Entry) h. ground (arith))))
]

has_session-online :
    (account : ℕ) (m : Manager)
    → has_session account m ≡ has_one (session_of (find (is_of_account account) m.sessions))
unfolding has_session
has_session-online account m = elim (Option-cases (find (is_of_account account) m.sessions)) [
  | inl e ↦ rw (e, none→any (is_of_account account) m.sessions e) refl
  | inr (x, e) ↦ rw (e, find→any (is_of_account account) m.sessions x e) refl
]

called_on-Tells :
    (op : Op) (m : Manager) (d : Directory)
    → Tells m d
    → ((called_on op m).0 ≡ (specified op d).0) × Tells (called_on op m).1 (specified op d).1
unfolding register_session unregister_session push_to_user
called_on-Tells (register account session) m d t = (
  refl,
  record {
    online = λ a.
        register-online account session a m
        ∙ ap (λ o. if a == account then some session else o) (t.online a);
    sent = elim (Bool-cases (any (is_of_account account) m.sessions)) [
      | inl e ↦ rw (register_session, e) t.sent
      | inr e ↦ rw (register_session, e) t.sent
    ];
  },
)
called_on-Tells (query account) m d t =
    (has_session-online account m ∙ ap has_one (t.online account), t)
called_on-Tells (push account payload) m d t =
    elim (Option-cases (find (is_of_account account) m.sessions)) [
      | inl e ↦
          let o : d.online account ≡ none = sym (t.online account) ∙ ap session_of e in
          rw (push_to_user, e, specified, o) (refl, t)
      | inr (x, e) ↦
          let o : d.online account ≡ some x.session = sym (t.online account) ∙ ap session_of e in
          rw (push_to_user, e, specified, o)
            (
              refl,
              record {
                online = t.online;
                sent = ap (λ l. l ++ record { session = x.session; payload = payload } ∷ []) t.sent;
              },
            )
    ]
called_on-Tells (unregister account session) m d t =
    elim (Option-cases (find (is_of_account account) m.sessions)) [
      | inl e ↦
          let o : d.online account ≡ none = sym (t.online account) ∙ ap session_of e in
          rw (unregister_session, e, specified, o) (refl, t)
      | inr (x, e) ↦
          let o : d.online account ≡ some x.session = sym (t.online account) ∙ ap session_of e in
          elim (Bool-cases (x.session == session)) [
            | inr n ↦ rw (unregister_session, e, specified, o, n) (refl, t)
            | inl n ↦
                rw (unregister_session, e, specified, o, n)
                  (
                    refl,
                    record {
                      online = λ a.
                          unregister-online account a m.sessions
                          ∙ ap (λ o. if a == account then none else o) (t.online a);
                      sent = t.sent;
                    },
                  )
          ]
    ]

-- Whatever calls are made one after the other, the manager gives the answers that the function from
-- accounts to sessions gives, and ends as that function says: a registration replaces the account's
-- session, the end of a session takes it out only if it is the account's, a push goes to the
-- account's session if it has one.
pub run_all-refines :
    (ops : List Op) (m : Manager) (d : Directory)
    → Tells m d
    → ((run_all called_on ops m).0 ≡ (run_all specified ops d).0)
      × Tells (run_all called_on ops m).1 (run_all specified ops d).1
unfolding run_all
run_all-refines [] m d t = (refl, t)
run_all-refines (op ∷ ops) m d t =
    let (a, after) = called_on-Tells op m d t in
    let (rest, end) = run_all-refines ops (called_on op m).1 (specified op d).1 after in
    (
      ap (λ x. x ∷ (run_all called_on ops (called_on op m).1).0) a
          ∙ ap (λ l. (specified op d).0 ∷ l) rest,
      end,
    )
