-- ===== src/Register/Answers.antt =====
-- The answers of `once`, and of a call of it that is repeated.
use ape_server.Prelude.{
  if-any, ℕ, zero, suc, ◌+◌, ◌≡◌, refl, sym, ap, ◌∙◌, subst, ◌⊎◌, inl, inr, Bool, true, false, ◌&&◌,
  Option, none, some, [], ◌∷◌, ◌++◌, Bytes, bytes_eq_refl, Bool-cases, Option-cases, ltb, ◌==◌,
  find, any, Result, ok, err, find-update_self, find-append, find→any, none→any,
}
use ape_server.Register.Data.{
  PoolRow, RequestRow, Db, Input, Code, registration_uncertain, db_error, Failure, thrown, Weather,
  calm, digest, is_request, result_of,
}
use mathlib.Core.Option
use ape_server.Register.Claims.{Opened, body-Opened, Came, emptied, claimed, allocate-Came, opened}
use ape_server.Register.Once.{
  Outcome, verifies, new_request, with_request, assigned, End, answered, failed, body, leave,
  commit, finish, settle, attempt, lookup, confirm, is_transient, once_from, once,
}

module _ (sha : Bytes → Bytes) (input : Input) where
  -- The tables hold the answer to the request, with its payload.
  pub record HasAnswer (given : ℕ × ℕ) (db : Db) : Type 0 where
    pub row : RequestRow
    pub there : find (is_request input.request) db.requests ≡ some row
    pub verified : verifies sha input row ≡ true
    pub given_there : result_of row ≡ some given

  -- A row that was there before is the one found; a row that was added has no answer.
  replayed-HasAnswer :
      (w : Weather) (db : Db) (o : Outcome) (given : ℕ × ℕ) (s : Opened sha input w db o)
      → result_of s.row ≡ some given
      → HasAnswer given db
  unfolding find digest
  replayed-HasAnswer w db o given s g =
      elim (Option-cases (find (is_request input.request) db.requests)) [
        | inr (r, e) ↦
            let same : r ≡ s.row = Option.some-injective r s.row (
              sym e
              ∙ sym (
                  ap (find (is_request input.request))
                    (kept (find→any (is_request input.request) db.requests r e)))
              ∙ s.there) in
            record { row = s.row; there = e ∙ ap some same; verified = s.verified; given_there = g }
        | inl e ↦
            let new : new_request sha input ≡ s.row =
              Option.some-injective (new_request sha input) s.row (
                sym (
                  ap (find (is_request input.request))
                    (grown (none→any (is_request input.request) db.requests e))
                  ∙ find-append (is_request input.request) db.requests (new_request sha input ∷ [])
                      e
                  ∙ found_new)
                ∙ s.there) in
            absurd (Option.none-ne-some given (ap result_of new ∙ g))
      ]
    where
      kept :
          any (is_request input.request) db.requests ≡ true
          → with_request sha input db.requests ≡ db.requests
      kept e = rw e refl

      grown :
          any (is_request input.request) db.requests ≡ false
          → with_request sha input db.requests ≡ db.requests ++ new_request sha input ∷ []
      grown e = rw e refl

      found_new :
          find (is_request input.request) (new_request sha input ∷ [])
          ≡ some (new_request sha input)
      found_new = rw (bytes_eq_refl input.request) refl

  allocated-HasAnswer :
      (w : Weather) (db : Db) (o : Outcome) (p : PoolRow) (s : Opened sha input w db o)
      → HasAnswer (db.next_user, p.account) (assigned input p (opened sha input db))
  unfolding verifies
  allocated-HasAnswer w db o p s =
      let f = λ (r : RequestRow). record r { user = some db.next_user; account = some p.account } in
      record {
        row = f s.row;
        there =
            find-update_self (is_request input.request) f (with_request sha input db.requests)
              (λ x e. e)
            ∙ ap (Option.map f) s.there;
        verified = s.verified;
        given_there = refl;
      }

  -- How an attempt ends, and with which tables.
  data Ended (db : Db) (p : End × Db) : Type 0 where
    same_answer :
        (given : ℕ × ℕ) → HasAnswer given db → p ≡ (answered (some given), db) → Ended db p
    new_answer : (given : ℕ × ℕ) → HasAnswer given p.1 → p.0 ≡ answered (some given) → Ended db p
    no_account : p ≡ (answered none, db) → Ended db p
    no_change : (f : Failure) (b : Bool) → p ≡ (failed f false b, db) → Ended db p
    in_doubt : (f : Failure) (b : Bool) → p.0 ≡ failed f true b → Ended db p

  attempt-Ended : (w : Weather) (db : Db) → Ended db (attempt sha w input db)
  unfolding attempt
  attempt-Ended w db =
      if-any (Ended db) w.begins _ _ (ends (body sha w input db) refl)
        (no_change Failure.broken false refl)
    where
      leaves :
          (answer : Option (ℕ × ℕ)) → Ended db (answered answer, db) → Ended db (leave w answer db)
      leaves answer e = elim (Bool-cases w.rolls_back) [
        | inl t ↦ rw t e
        | inr t ↦ rw t (no_change (thrown db_error) false refl)
      ]

      commits :
          (given : ℕ × ℕ) (after : Db) → HasAnswer given after → Ended db (commit w given db after)
      commits given after h = elim (Bool-cases (w.fails_at == 8)) [
        | inl t ↦ rw t (in_doubt w.failure w.rolls_back refl)
        | inr t ↦ rw t (new_answer given h refl)
      ]

      came :
          (o : Outcome)
          → Opened sha input w db o
          → Came w input (opened sha input db) o
          → Ended db (finish w db (ok o))
      came o s (emptied e q) =
          subst (λ x. Ended db (finish w db (ok x))) (sym q) (leaves none (no_account refl))
      came o s (claimed p c q) =
          subst (λ x. Ended db (finish w db (ok x))) (sym q)
            (commits (db.next_user, p.account) (assigned input p (opened sha input db))
              (allocated-HasAnswer w db o p s))

      opens : (o : Outcome) → Opened sha input w db o → Ended db (finish w db (ok o))
      opens o s = elim s.rest [
        | inl (given, g, q) ↦
            subst (λ x. Ended db (finish w db (ok x))) (sym q)
              (leaves (some given) (same_answer given (replayed-HasAnswer w db o given s g) refl))
        | inr (g, q) ↦ came o s (allocate-Came w input (opened sha input db) o q).0
      ]

      ends : (r : Result Failure Outcome) → body sha w input db ≡ r → Ended db (finish w db r)
      ends (err f) e = no_change f w.rolls_back refl
      ends (ok o) e = opens o (body-Opened sha input w db o e)

  -- What a call of `once` comes to.
  abbrev pub Answer : Db → Result Code (Option (ℕ × ℕ)) × Db → Type 0
  Answer db (ok (some given), after) = HasAnswer given after
  Answer db (ok none, after) = after ≡ db
  Answer db (err c, after) = (c ≡ registration_uncertain) ⊎ (after ≡ db)

  confirm-Answer : (w : Weather) (db after : Db) → Answer db (confirm sha w input after, after)
  unfolding confirm lookup
  confirm-Answer w db after = elim (Bool-cases w.confirms) [
    | inr t ↦ rw (confirm, t) (inl refl)
    | inl t ↦ elim (Option-cases (find (is_request input.request) after.requests)) [
      | inl e ↦ rw (confirm, t, e) (inl refl)
      | inr (r, e) ↦ elim (Bool-cases (verifies sha input r)) [
        | inr v ↦ rw (confirm, t, e, v) (inl refl)
        | inl v ↦ elim (Option-cases (result_of r)) [
          | inl g ↦ rw (confirm, t, e, v, g) (inl refl)
          | inr (given, g) ↦
              rw (confirm, t, e, v, g)
                (record { row = r; there = e; verified = v; given_there = g })
        ]
      ]
    ]
  ]

  settle-Answer :
      (w : Weather) (k : ℕ) (db : Db) (p : End × Db) (again : Result Code (Option (ℕ × ℕ)) × Db)
      → Ended db p
      → Answer p.1 again
      → Answer db (settle sha w input k p.1 again p.0)
  unfolding settle
  settle-Answer w k db p again (same_answer given h q) a =
      subst (λ x. Answer db (settle sha w input k x.1 again x.0)) (sym q) h
  settle-Answer w k db p again (new_answer given h q) a =
      subst (λ x. Answer db (settle sha w input k p.1 again x)) (sym q) h
  settle-Answer w k db p again (no_account q) a =
      subst (λ x. Answer db (settle sha w input k x.1 again x.0)) (sym q) refl
  settle-Answer w k db p again (in_doubt f b q) a =
      subst (λ x. Answer db (settle sha w input k p.1 again x)) (sym q) (confirm-Answer w db p.1)
  settle-Answer w k db p again (no_change f b q) a =
      subst (λ x. Answer db (settle sha w input k x.1 again x.0)) (sym q)
        (elim (Bool-cases (is_transient f && b)) [
          | inr t ↦ rw t (inr refl)
          | inl t ↦ elim (Bool-cases (ltb k 2)) [
            | inl n ↦ rw (t, n) (subst (λ x. Answer x again) (ap (λ (x : End × Db). x.1) q) a)
            | inr n ↦ rw (t, n) (inr refl)
          ]
        ])

  once_from-Answer :
      (ws : ℕ → Weather) (left k : ℕ) (db : Db) → Answer db (once_from sha ws input left k db)
  unfolding once_from
  once_from-Answer ws zero k db = inr refl
  once_from-Answer ws (suc left) k db =
      settle-Answer (ws k) k db (attempt sha (ws k) input db)
        (once_from sha ws input left (k + 1) (attempt sha (ws k) input db).1)
        (attempt-Ended (ws k) db) (once_from-Answer ws left (k + 1) (attempt sha (ws k) input db).1)

attempt-replays :
    (sha : Bytes → Bytes) (input : Input) (db : Db) (given : ℕ × ℕ)
    → HasAnswer sha input given db
    → attempt sha calm input db ≡ (answered (some given), db)
unfolding attempt body
attempt-replays sha input db given h =
    let kept : with_request sha input db.requests ≡ db.requests =
      rw (find→any (is_request input.request) db.requests h.row h.there) refl in
    let found : find (is_request input.request) (with_request sha input db.requests) ≡ some h.row =
      ap (find (is_request input.request)) kept ∙ h.there in
    rw (found, h.verified, h.given_there) refl

-- A call whose answer is there, when nothing fails, gives it and changes nothing.
pub once_again :
    (sha : Bytes → Bytes) (input : Input) (db : Db) (given : ℕ × ℕ)
    → HasAnswer sha input given db
    → once sha (λ k. calm) input db ≡ (ok (some given), db)
unfolding once once_from settle
once_again sha input db given has = rw (attempt-replays sha input db given has) refl

pub once-Answer :
    (sha : Bytes → Bytes) (input : Input) (ws : ℕ → Weather) (db : Db)
    → Answer sha input db (once sha ws input db)
unfolding once
once-Answer sha input ws db = once_from-Answer sha input ws 3 0 db
