-- ===== src/Register/Keeps.antt =====
-- What the tables of registration keep true when a registration commits.
use ape_server.Prelude.{
  ℕ, ◌≤◌, ◌≡◌, refl, sym, ap, ◌∙◌, subst, inl, inr, Bool, true, false, not, ◌&&◌, ◌||◌, some, List,
  [], ◌∷◌, ◌++◌, Bytes, bytes_eq→eq, bytes_eq_refl, Bool-cases, ◌==◌, ==_refl, ==_iff, arith, All,
  All-append, All-mono, count, any, count-append, count-update, none→zero, count_unique, All-both,
  All-update, All-update_to, any-append_last, find-true, any-append_left, any-append_right, subst,
}
use ape_server.Register.Data.{
  User, PoolRow, RequestRow, Db, Input, Weather, min_account, max_account, is_request, digest,
  has_account, has_phone, is_pooled, result_of,
}
use ape_server.Register.Once.{is_free, is_free_row, new_user, new_request, with_request, assigned}
use ape_server.Register.Claims.{Claim, opened}

abbrev pub is_user : ℕ → ℕ → User → Bool
is_user id account u = u.id == id && u.account == account

-- A request's row names its user, whom the table has with that account.
abbrev pub IsDone : List User → RequestRow → Type 0
IsDone us r =
    (given : ℕ × ℕ) × (result_of r ≡ some given) × (any (is_user given.0 given.1) us ≡ true)

abbrev pub IsRanged : PoolRow → Type 0
IsRanged p = (min_account ≤ p.account) × (p.account ≤ max_account)

pub record IsConsistent (db : Db) : Type 0 where
  pub accounts : (a : ℕ) → count (has_account a) db.users ≤ 1
  pub phones : (t : Bytes) → count (has_phone t) db.users ≤ 1
  pub pooled : (a : ℕ) → count (is_pooled a) db.pool ≤ 1
  pub unused :
      All (λ (p : PoolRow). p.taken ≡ false → any (has_account p.account) db.users ≡ false) db.pool
  pub ranged : All IsRanged db.pool
  pub completed : All (IsDone db.users) db.requests

-- A row that is new under a key leaves the key unique.
new_row {ℓ} :
    {R : Type ℓ} (q : R → Bool) (rs : List R) (r : R)
    → count q rs ≤ 1
    → (q r ≡ true → any q rs ≡ false)
    → count q (rs ++ r ∷ []) ≤ 1
unfolding count
new_row q rs r h k = elim (Bool-cases (q r)) [
  | inl e ↦ ground (arith, count-append q rs (r ∷ []), none→zero q rs (k e))
  | inr e ↦ ground (arith, count-append q rs (r ∷ []))
]

IsDone-append : (us : List User) (u : User) (r : RequestRow) → IsDone us r → IsDone (us ++ u ∷ []) r
IsDone-append us u r (given, e, a) =
    (given, e, any-append_left (is_user given.0 given.1) us (u ∷ []) a)

-- Neither side of a disjunction that is refused holds.
neither : (a b : Bool) → not (a || b) ≡ true → (a ≡ false) × (b ≡ false)
neither a b h = ground arith

module _ (sha : Bytes → Bytes) (input : Input) (p : PoolRow) (db : Db) (s : IsConsistent db)
    (w : Weather) (c : Claim w input (opened sha input db) p) where
  abbrev fresh : User
  fresh = new_user input db.next_user p.account

  no_account : any (has_account p.account) db.users ≡ false
  no_account =
      (neither (any (has_account p.account) db.users) (any (has_phone input.phone) db.users)
        c.unused).0

  no_phone : any (has_phone input.phone) db.users ≡ false
  no_phone =
      (neither (any (has_account p.account) db.users) (any (has_phone input.phone) db.users)
        c.unused).1

  -- No other row of the pool has the account.
  only_row : All (λ r. is_pooled p.account r ≡ true → r ≡ p) db.pool
  only_row =
      count_unique (is_pooled p.account) is_free db.pool p c.free (==_refl p.account)
        (s.pooled p.account)

  is_taken : is_free_row p.id p ≡ true
  is_taken = rw (==_refl p.id, find-true is_free db.pool c.free) refl

  another :
      (x : PoolRow)
      → is_free_row p.id x ≡ false
      → (is_pooled p.account x ≡ true → x ≡ p)
      → has_account x.account fresh ≡ false
  another x e h = elim (Bool-cases (p.account == x.account)) [
    | inr n ↦ n
    | inl t ↦
        let same : x ≡ p =
          h ((==_iff x.account p.account).1 (sym ((==_iff p.account x.account).0 t))) in
        let met : is_free_row p.id x ≡ true = ap (is_free_row p.id) same ∙ is_taken in cc
  ]

  unused-assigned :
      All
        (λ (r : PoolRow).
          r.taken ≡ false → any (has_account r.account) (db.users ++ fresh ∷ []) ≡ false)
        (assigned input p (opened sha input db)).pool
  unused-assigned =
      All-update_to
        (λ (r : PoolRow).
          (r.taken ≡ false → any (has_account r.account) db.users ≡ false)
          × (is_pooled p.account r ≡ true → r ≡ p))
        (λ (r : PoolRow).
          r.taken ≡ false → any (has_account r.account) (db.users ++ fresh ∷ []) ≡ false)
        (is_free_row p.id) (λ (x : PoolRow). record x { taken = true }) db.pool (λ x e h n. cc)
        (λ x e h n.
          any-append_last (has_account x.account) db.users fresh (h.0 n) (another x e h.1))
        (All-both _ _ db.pool s.unused only_row)

  pub assigned-IsConsistent : IsConsistent (assigned input p (opened sha input db))
  unfolding any digest
  assigned-IsConsistent = record {
    accounts = λ a. new_row (has_account a) db.users fresh (s.accounts a) (λ e.
        subst (λ b. any (has_account b) db.users ≡ false) ((==_iff p.account a).0 e) no_account);
    phones = λ t. new_row (has_phone t) db.users fresh (s.phones t) (λ e.
        subst (λ b. any (has_phone b) db.users ≡ false) (bytes_eq→eq input.phone t e) no_phone);
    pooled = λ a. omega (
      arith,
      s.pooled a,
      count-update (is_pooled a) (is_free_row p.id) (λ (x : PoolRow). record x { taken = true })
          db.pool (λ x _. refl),
    );
    unused = unused-assigned;
    ranged =
        All-update IsRanged (is_free_row p.id) (λ (x : PoolRow). record x { taken = true }) db.pool
          (λ x e r. r) s.ranged;
    completed =
        All-update_to (λ r. is_request input.request r ≡ false → IsDone db.users r)
          (IsDone (db.users ++ fresh ∷ [])) (is_request input.request)
          (λ (r : RequestRow). record r { user = some db.next_user; account = some p.account })
          (with_request sha input db.requests)
          (λ r e h. ((db.next_user, p.account), refl, is_there))
          (λ r e h. IsDone-append db.users fresh r (h e)) requests_open;
  }
    where
      is_there : any (is_user db.next_user p.account) (db.users ++ fresh ∷ []) ≡ true
      is_there =
          any-append_right (is_user db.next_user p.account) db.users (fresh ∷ [])
            (rw (==_refl db.next_user, ==_refl p.account) refl)

      done : All (λ r. is_request input.request r ≡ false → IsDone db.users r) db.requests
      done =
          All-mono (IsDone db.users) (λ r. is_request input.request r ≡ false → IsDone db.users r)
            db.requests (λ r h e. h) s.completed

      different : is_request input.request (new_request sha input) ≡ false → ⊥
      different n =
          let same : is_request input.request (new_request sha input) ≡ true =
            bytes_eq_refl input.request in
          cc

      requests_open :
          All
            (λ r. is_request input.request r ≡ false → IsDone db.users r)
            (with_request sha input db.requests)
      requests_open = elim (Bool-cases (any (is_request input.request) db.requests)) [
        | inl e ↦ rw e done
        | inr e ↦ rw e (
            All-append (λ r. is_request input.request r ≡ false → IsDone db.users r) db.requests
              (new_request sha input ∷ []) done ((λ n. absurd (different n)), tt))
      ]
