-- ===== src/Services/Backbon/Online.antt =====
-- The answers of `check_user_online`.
use ape_server.Prelude.{
  ℕ, ◌≡◌, refl, sym, ap, ◌∙◌, inl, inr, true, false, ◌&&◌, List, [], ◌∷◌, bytes_eq, bytes_eq→eq,
  codes, if◌then◌else◌, map, All, Bool-cases, subst,
}
use ape_server.Services.Backbon.Stores.{get-put_self, get-put_other}
use ape_server.Services.Backbon.{
  Entry, get, put, online_key, online, is_online, Status, Answers, check_user, check_user_online,
}

-- Marking a user offline whom the store does not have online changes nobody's answer.
is_online-put :
    (user other : ℕ) (redis : List Entry)
    → is_online user redis ≡ false
    → is_online other (put (online_key user) (codes "0") redis) ≡ is_online other redis
unfolding bytes_eq
is_online-put user other redis h =
    elim (Bool-cases (bytes_eq (online_key user) (online_key other))) [
      | inr e ↦ ap online (get-put_other (online_key user) (codes "0") (online_key other) e redis)
      | inl e ↦
          let same : online_key user ≡ online_key other =
            bytes_eq→eq (online_key user) (online_key other) e in
          subst
            (λ k. online (get k (put (online_key user) (codes "0") redis)) ≡ online (get k redis))
            same (ap online (get-put_self (online_key user) (codes "0") redis) ∙ sym h)
    ]

check_user-online :
    (w : Answers) (user other : ℕ) (redis : List Entry)
    → w.reads user ≡ true
    → is_online other (check_user w user redis).1 ≡ is_online other redis
unfolding check_user
check_user-online w user other redis r = elim (Bool-cases (is_online user redis)) [
  | inl e ↦ rw (check_user, r, e) refl
  | inr e ↦ elim (Bool-cases (w.found user && w.writes user)) [
    | inl f ↦ rw (check_user, r, e, f) (is_online-put user other redis e)
    | inr f ↦ rw (check_user, r, e, f) refl
  ]
]

-- What a status says of a user, as the store was when the check began.
abbrev pub status : List Entry → ℕ → Status
status redis user = record {
  user = user;
  connected = is_online user redis;
  connections = if is_online user redis then 1 else 0;
}

check_user-status :
    (w : Answers) (user : ℕ) (redis : List Entry)
    → w.reads user ≡ true
    → (check_user w user redis).0 ≡ status redis user
unfolding check_user
check_user-status w user redis r = elim (Bool-cases (is_online user redis)) [
  | inl e ↦ rw (check_user, r, e) refl
  | inr e ↦ rw (check_user, r, e) refl
]

status_same :
    (redis redis' : List Entry) (users : List ℕ)
    → ((u : ℕ) → is_online u redis' ≡ is_online u redis)
    → map (status redis') users ≡ map (status redis) users
status_same redis redis' [] h = refl
status_same redis redis' (u ∷ users) h =
    ap (λ xs. status redis' u ∷ xs) (status_same redis redis' users h)
    ∙ ap
        (λ b.
          record { user = u; connected = b; connections = if b then 1 else 0 }
          ∷ map (status redis) users)
        (h u)

-- When Redis answers for every user asked about, each is reported online exactly if Redis had them
-- so when the check began, in the order asked, and afterwards the same users are online, though
-- others are marked offline on the way.
pub check_user_online-statuses :
    (w : Answers) (users : List ℕ) (redis : List Entry) (other : ℕ)
    → All (λ u. w.reads u ≡ true) users
    → ((check_user_online w users redis).0 ≡ map (status redis) users)
      × (is_online other (check_user_online w users redis).1 ≡ is_online other redis)
unfolding check_user_online
check_user_online-statuses w [] redis other h = (refl, refl)
check_user_online-statuses w (u ∷ users) redis other h =
    let next = (check_user w u redis).1 in
    let (a, b) = check_user_online-statuses w users next other h.1 in
    (
      ap (λ s. s ∷ (check_user_online w users next).0) (check_user-status w u redis h.0)
          ∙ ap (λ xs. status redis u ∷ xs)
              (a ∙ status_same redis next users (λ v. check_user-online w u v redis h.0)),
      b ∙ check_user-online w u other redis h.0,
    )
