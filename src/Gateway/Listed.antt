-- ===== src/Gateway/Listed.antt =====
-- Which sessions of src/gateway/ws_session.cpp WSSessionManager holds.
use ape_server.Gateway.Sessions.{
  Entry, Manager, is_of_account, register_session, unregister_session, push_to_user,
}
use ape_server.Gateway.Gauge.{
  IsSound, register_session-IsSound, unregister_session-IsSound, push_to_user-IsSound,
}
use ape_server.Prelude.{
  ℕ, ◌≡◌, refl, ap, ◌∙◌, inl, inr, Bool, true, false, some, List, [], ◌∷◌, Bytes, ◌==◌, ==_iff,
  Bool-cases, Option-cases, arith, All, All-mono, All-append, All-delete, All-update_to, delete,
  find, any, none→any, unmatched, find-true, count_unique,
}

abbrev pub is_session : ℕ → Entry → Bool
is_session id e = e.session == id

-- The session is registered for its own account only, once; after its end it is not registered.
pub record IsListed (id account : ℕ) (over : Bool) (m : Manager) : Type 0 where
  pub sound : IsSound m
  pub named : All (λ (e : Entry). is_session id e ≡ true → e.account ≡ account) m.sessions
  pub gone : over ≡ true → All (λ (e : Entry). is_session id e ≡ false) m.sessions

All-and {ℓ κ} :
    {A : Type ℓ} (P Q : A → Type κ) (xs : List A) → All P xs → All Q xs → All (λ x. P x × Q x) xs
All-and P Q [] a b = tt
All-and P Q (x ∷ xs) a b = ((a.0, b.0), All-and P Q xs a.1 b.1)

module _ {ℓ} (P : Entry → Type ℓ) where
  kept-unregister :
      (a s : ℕ) (m : Manager) → All P m.sessions → All P (unregister_session a s m).1.sessions
  unfolding unregister_session
  kept-unregister a s m h = elim (Option-cases (find (is_of_account a) m.sessions)) [
    | inl f ↦ rw (unregister_session, f) h
    | inr (x, f) ↦ elim (Bool-cases (x.session == s)) [
      | inl t ↦
          rw (unregister_session, f, t)
            (All-mono _ P (delete (is_of_account a) m.sessions) (λ e k. k.0)
              (All-delete P (is_of_account a) m.sessions h))
      | inr t ↦ rw (unregister_session, f, t) h
    ]
  ]

  kept-register :
      (a s : ℕ) (m : Manager)
      → ((b : ℕ) → P (record { account = b; session = s }))
      → All P m.sessions
      → All P (register_session a s m).sessions
  unfolding register_session
  kept-register a s m new h = elim (Bool-cases (any (is_of_account a) m.sessions)) [
    | inl t ↦
        rw (register_session, t)
          (All-update_to P P (is_of_account a) (λ (e : Entry). record e { session = s }) m.sessions
            (λ e _ _. new e.account) (λ e _ k. k) h)
    | inr t ↦
        rw (register_session, t)
          (All-append P m.sessions (record { account = a; session = s } ∷ []) h (new a, tt))
  ]

  kept-push :
      (a : ℕ) (payload : Bytes) (m : Manager)
      → All P m.sessions
      → All P (push_to_user a payload m).1.sessions
  unfolding push_to_user
  kept-push a payload m h = elim (Option-cases (find (is_of_account a) m.sessions)) [
    | inl f ↦ rw (push_to_user, f) h
    | inr (x, f) ↦ rw (push_to_user, f) h
  ]

module _ (id account : ℕ) (over : Bool) (m : Manager) (l : IsListed id account over m) where
  -- The end of the session takes it out, if it is there.
  unregister-gone :
      All (λ (e : Entry). is_session id e ≡ false) (unregister_session account id m).1.sessions
  unfolding unregister_session
  unregister-gone = elim (Option-cases (find (is_of_account account) m.sessions)) [
    | inl f ↦
        rw (unregister_session, f)
          (All-mono _ _ m.sessions
            (λ (e : Entry)
                (h : (is_session id e ≡ true → e.account ≡ account)
                  × (is_of_account account e ≡ false)).
              other e h.0 h.1)
            (All-and _ _ m.sessions l.named (
              unmatched (is_of_account account) m.sessions
                (none→any (is_of_account account) m.sessions f))))
    | inr (x, f) ↦ elim (Bool-cases (x.session == id)) [
      | inl t ↦
          rw (unregister_session, f, t)
            (All-mono _ _ (delete (is_of_account account) m.sessions)
              (λ (e : Entry)
                  (h : (is_session id e ≡ true → e.account ≡ account)
                    × (is_of_account account e ≡ false)).
                other e h.0 h.1)
              (All-delete _ (is_of_account account) m.sessions l.named))
      | inr t ↦
          rw (unregister_session, f, t)
            (All-mono _ _ m.sessions
              (λ (e : Entry)
                  (h : (is_session id e ≡ true → e.account ≡ account)
                    × (is_of_account account e ≡ true → e ≡ x)).
                only x t e h.0 h.1)
              (All-and _ _ m.sessions l.named (
                count_unique (is_of_account account) (is_of_account account) m.sessions x f
                  (found x f) (l.sound.once account))))
    ]
  ]
    where
      other :
          (e : Entry)
          → (is_session id e ≡ true → e.account ≡ account)
          → is_of_account account e ≡ false
          → is_session id e ≡ false
      other e h k = ground (arith, h)

      only :
          (x : Entry)
          → (x.session == id) ≡ false
          → (e : Entry) → (is_session id e ≡ true → e.account ≡ account)
          → (is_of_account account e ≡ true → e ≡ x)
          → is_session id e ≡ false
      only x t e h k = elim (Bool-cases (is_session id e)) [
        | inr u ↦ u
        | inl u ↦
            let same : e ≡ x = k ((==_iff e.account account).1 (h u)) in ap (is_session id) same ∙ t
      ]

      found :
          (x : Entry)
          → find (is_of_account account) m.sessions ≡ some x
          → is_of_account account x ≡ true
      found x f = find-true (is_of_account account) m.sessions f

  pub others_register :
      (a s : ℕ) → (s == id) ≡ false → IsListed id account over (register_session a s m)
  others_register a s n = record {
    sound = register_session-IsSound a s m l.sound;
    named =
        kept-register (λ (e : Entry). is_session id e ≡ true → e.account ≡ account) a s m
          (λ b e. cc) l.named;
    gone = λ o. kept-register (λ (e : Entry). is_session id e ≡ false) a s m (λ b. n) (l.gone o);
  }

  pub others_unregister : (a s : ℕ) → IsListed id account over (unregister_session a s m).1
  others_unregister a s = record {
    sound = unregister_session-IsSound a s m l.sound;
    named =
        kept-unregister (λ (e : Entry). is_session id e ≡ true → e.account ≡ account) a s m l.named;
    gone = λ o. kept-unregister (λ (e : Entry). is_session id e ≡ false) a s m (l.gone o);
  }

  pub others_push :
      (a : ℕ) (payload : Bytes) → IsListed id account over (push_to_user a payload m).1
  others_push a payload = record {
    sound = push_to_user-IsSound a payload m l.sound;
    named =
        kept-push (λ (e : Entry). is_session id e ≡ true → e.account ≡ account) a payload m l.named;
    gone = λ o. kept-push (λ (e : Entry). is_session id e ≡ false) a payload m (l.gone o);
  }

  pub unregister-over : IsListed id account true (unregister_session account id m).1
  unregister-over = record {
    sound = unregister_session-IsSound account id m l.sound;
    named =
        kept-unregister (λ (e : Entry). is_session id e ≡ true → e.account ≡ account) account id m
          l.named;
    gone = λ _. unregister-gone;
  }

-- A session that is new, registered.
pub register-IsListed :
    (id account : ℕ) (m : Manager)
    → IsSound m
    → All (λ (e : Entry). is_session id e ≡ false) m.sessions
    → IsListed id account false (register_session account id m)
unfolding register_session
register-IsListed id account m sound new = record {
  sound = register_session-IsSound account id m sound;
  named = elim (Bool-cases (any (is_of_account account) m.sessions)) [
    | inl t ↦
        rw (register_session, t)
          (All-update_to (λ (e : Entry). is_session id e ≡ false) _ (is_of_account account)
            (λ (e : Entry). record e { session = id }) m.sessions
            (λ e t _ _. (==_iff e.account account).0 t) (λ e _ n t. cc) new)
    | inr t ↦
        rw (register_session, t)
          (All-append _ m.sessions (record { account = account; session = id } ∷ [])
            (All-mono _ _ m.sessions (λ e n t. cc) new) ((λ _. refl), tt))
  ];
  gone = λ o. cc;
}
