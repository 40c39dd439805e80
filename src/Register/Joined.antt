-- ===== src/Register/Joined.antt =====
-- The user that a registration leads to, from tables that have not seen its request.
use mathlib.Core.Option
use ape_server.Register.Data.{
  User, PoolRow, RequestRow, Db, Input, Code, Failure, thrown, Weather, is_request, has_account,
  result_of,
}
use ape_server.Register.Claims.{
  Claim, Opened, body-Opened, Came, emptied, claimed, allocate-Came, opened,
}
use ape_server.Register.Once.{
  Outcome, verifies, new_request, with_request, assigned, End, answered, failed, body, leave,
  commit, finish, settle, attempt, lookup, confirm, is_transient, once_from, new_user,
}
use ape_server.Prelude.{
  if-any, ℕ, zero, suc, ◌+◌, ◌≡◌, refl, sym, ap, ◌∙◌, subst, inl, inr, Bool, true, false, ◌&&◌,
  Option, none, some, List, [], ◌∷◌, ◌++◌, Bytes, bytes_eq_refl, Bool-cases, Option-cases, ltb,
  ◌==◌, ==_refl, find, any, Result, ok, err, find-update_self, find-append, find→any, arith,
}

unseen {ℓ} : {R : Type ℓ} (q : R → Bool) (xs : List R) → any q xs ≡ false → find q xs ≡ none
unseen q xs e = elim (Option-cases (find q xs)) [ inl n ↦ n | inr (x, f) ↦ cc (find→any q xs x f) ]

module _ (sha : Bytes → Bytes) (input : Input) where
  -- The request has its answer, and the answer's user has the password of the input.
  pub record Done (given : ℕ × ℕ) (db : Db) : Type 0 where
    pub row : RequestRow
    pub there : find (is_request input.request) db.requests ≡ some row
    pub result : result_of row ≡ some given
    pub user : User
    pub found : find (has_account given.1) db.users ≡ some user
    pub is : user.id ≡ given.0
    pub hash : user.password_hash ≡ input.password_hash
    pub salt : user.password_salt ≡ input.password_salt
    pub real : (given.1 == 0) ≡ false

  -- Tables that have not seen the request, or have its answer.
  pub data Kept (db : Db) : Type 0 where
    fresh : any (is_request input.request) db.requests ≡ false → Kept db
    done_for : (given : ℕ × ℕ) → Done given db → Kept db

  pub Kept-same : (a b : Db) → b.users ≡ a.users → b.requests ≡ a.requests → Kept a → Kept b
  Kept-same a b u q (fresh e) = fresh (ap (any (is_request input.request)) q ∙ e)
  Kept-same a b u q (done_for given d) = done_for given (record {
    row = d.row;
    there = ap (find (is_request input.request)) q ∙ d.there;
    result = d.result;
    user = d.user;
    found = ap (find (has_account given.1)) u ∙ d.found;
    is = d.is;
    hash = d.hash;
    salt = d.salt;
    real = d.real;
  })

  -- The row that a transaction opens has the answer, if there is one.
  Opened-Done :
      (w : Weather) (db : Db) (o : Outcome) (given : ℕ × ℕ) (s : Opened sha input w db o)
      → result_of s.row ≡ some given
      → Kept db
      → Done given db
  unfolding find
  Opened-Done w db o given s g (fresh e) = absurd (Option.none-ne-some given (ap result_of row ∙ g))
    where
      grown : with_request sha input db.requests ≡ db.requests ++ new_request sha input ∷ []
      grown = rw e refl

      row : new_request sha input ≡ s.row
      row = Option.some-injective (new_request sha input) s.row (
          sym (
            ap (find (is_request input.request)) grown
            ∙ find-append (is_request input.request) db.requests (new_request sha input ∷ [])
                (unseen (is_request input.request) db.requests e)
            ∙ rw (bytes_eq_refl input.request) refl)
          ∙ s.there)
  Opened-Done w db o given s g (done_for other d) =
      let kept : with_request sha input db.requests ≡ db.requests =
        rw (find→any (is_request input.request) db.requests d.row d.there) refl in
      let same : d.row ≡ s.row =
        Option.some-injective d.row s.row
          (sym d.there ∙ sym (ap (find (is_request input.request)) kept) ∙ s.there) in
      let equal : other ≡ given =
        Option.some-injective other given (sym d.result ∙ ap result_of same ∙ g) in
      subst (λ x. Done x db) equal d

  -- An account that was free has the new user.
  claimed-Done :
      (w : Weather) (db : Db) (o : Outcome) (p : PoolRow) (s : Opened sha input w db o)
      → result_of s.row ≡ none
      → Claim w input (opened sha input db) p
      → Done (db.next_user, p.account) (assigned input p (opened sha input db))
  unfolding find
  claimed-Done w db o p s g c =
      let f = λ (r : RequestRow). record r { user = some db.next_user; account = some p.account } in
      record {
        row = f s.row;
        there =
            find-update_self (is_request input.request) f (with_request sha input db.requests)
              (λ x e. e)
            ∙ ap (Option.map f) s.there;
        result = refl;
        user = new_user input db.next_user p.account;
        found =
            find-append (has_account p.account) db.users
              (new_user input db.next_user p.account ∷ [])
              (unseen (has_account p.account) db.users (ground (arith, c.unused)))
            ∙ rw (==_refl p.account) refl;
        is = refl;
        hash = refl;
        salt = refl;
        real = ground (arith, c.ranged);
      }

  -- How an attempt ends.
  data Tried (p : End × Db) : Type 0 where
    gave : (given : ℕ × ℕ) → Done given p.1 → p.0 ≡ answered (some given) → Tried p
    gave_none : Kept p.1 → p.0 ≡ answered none → Tried p
    missed : (f : Failure) (b c : Bool) → Kept p.1 → p.0 ≡ failed f b c → Tried p

  attempt-Tried : (w : Weather) (db : Db) → Kept db → Tried (attempt sha w input db)
  unfolding attempt
  attempt-Tried w db k =
      if-any Tried w.begins _ _ (ends (body sha w input db) refl)
        (missed Failure.broken false false k refl)
    where
      leaves : (answer : Option (ℕ × ℕ)) → Tried (answered answer, db) → Tried (leave w answer db)
      leaves answer t =
          if-any Tried w.rolls_back _ _ t (missed (thrown Code.db_error) false false k refl)

      commits : (given : ℕ × ℕ) (after : Db) → Done given after → Tried (commit w given db after)
      commits given after d =
          if-any Tried (w.fails_at == 8) _ _
            (missed w.failure true w.rolls_back
              (if-any Kept w.applied after db (done_for given d) k) refl)
            (gave given d refl)

      came :
          (o : Outcome) (s : Opened sha input w db o)
          → result_of s.row ≡ none
          → Came w input (opened sha input db) o
          → Tried (finish w db (ok o))
      came o s n (emptied e q) =
          subst (λ x. Tried (finish w db (ok x))) (sym q) (leaves none (gave_none k refl))
      came o s n (claimed p c q) =
          subst (λ x. Tried (finish w db (ok x))) (sym q)
            (commits (db.next_user, p.account) (assigned input p (opened sha input db))
              (claimed-Done w db o p s n c))

      opens : (o : Outcome) → Opened sha input w db o → Tried (finish w db (ok o))
      opens o s = elim s.rest [
        | inl (given, g, q) ↦
            subst (λ x. Tried (finish w db (ok x))) (sym q)
              (leaves (some given) (gave given (Opened-Done w db o given s g k) refl))
        | inr (n, q) ↦ came o s n (allocate-Came w input (opened sha input db) o q).0
      ]

      ends : (r : Result Failure Outcome) → body sha w input db ≡ r → Tried (finish w db r)
      ends (err f) e = missed f false w.rolls_back k refl
      ends (ok o) e = opens o (body-Opened sha input w db o e)

  -- What a call of `once` comes to.
  abbrev pub Once : Result Code (Option (ℕ × ℕ)) × Db → Type 0
  Once (ok (some given), after) = Done given after
  Once (ok none, after) = Kept after
  Once (err c, after) = Kept after

  confirm-Once : (w : Weather) (after : Db) → Kept after → Once (confirm sha w input after, after)
  unfolding confirm lookup
  confirm-Once w after k = elim (Bool-cases w.confirms) [
    | inr t ↦ rw (confirm, t) k
    | inl t ↦ elim (Option-cases (find (is_request input.request) after.requests)) [
      | inl e ↦ rw (confirm, t, e) k
      | inr (r, e) ↦ elim (Bool-cases (verifies sha input r)) [
        | inr v ↦ rw (confirm, t, e, v) k
        | inl v ↦ elim (Option-cases (result_of r)) [
          | inl g ↦ rw (confirm, t, e, v, g) k
          | inr (given, g) ↦ rw (confirm, t, e, v, g) (told r given e g k)
        ]
      ]
    ]
  ]
    where
      told :
          (r : RequestRow) (given : ℕ × ℕ)
          → find (is_request input.request) after.requests ≡ some r
          → result_of r ≡ some given
          → Kept after
          → Done given after
      told r given e g (fresh n) =
          absurd
            (Option.none-ne-some r (sym (unseen (is_request input.request) after.requests n) ∙ e))
      told r given e g (done_for other d) =
          let same : d.row ≡ r = Option.some-injective d.row r (sym d.there ∙ e) in
          subst (λ x. Done x after)
            (Option.some-injective other given (sym d.result ∙ ap result_of same ∙ g)) d

  settle-Once :
      (w : Weather) (k : ℕ) (p : End × Db) (again : Result Code (Option (ℕ × ℕ)) × Db)
      → Tried p
      → Once again
      → Once (settle sha w input k p.1 again p.0)
  unfolding settle
  settle-Once w k p again (gave given d q) a =
      subst (λ x. Once (settle sha w input k p.1 again x)) (sym q) d
  settle-Once w k p again (gave_none h q) a =
      subst (λ x. Once (settle sha w input k p.1 again x)) (sym q) h
  settle-Once w k p again (missed f b c h q) a =
      subst (λ x. Once (settle sha w input k p.1 again x)) (sym q)
        (if-any Once b _ _ (confirm-Once w p.1 h)
          (if-any Once (is_transient f && c) _ _ (if-any Once (ltb k 2) _ _ a h) h))

  pub once_from-Once :
      (ws : ℕ → Weather) (left k : ℕ) (db : Db) → Kept db → Once (once_from sha ws input left k db)
  unfolding once_from
  once_from-Once ws zero k db h = h
  once_from-Once ws (suc left) k db h =
      let t = attempt-Tried (ws k) db h in
      settle-Once (ws k) k (attempt sha (ws k) input db)
        (once_from sha ws input left (k + 1) (attempt sha (ws k) input db).1) t
        (once_from-Once ws left (k + 1) (attempt sha (ws k) input db).1 (kept t))
    where
      kept : {p : End × Db} → Tried p → Kept p.1
      kept (gave given d q) = done_for given d
      kept (gave_none k q) = k
      kept (missed f b c k q) = k
