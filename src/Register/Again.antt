-- ===== src/Register/Again.antt =====
-- A registration that is repeated, and one that fails: `create` of src/storage/mysqlhandler.cpp.
use ape_server.Prelude.{
  ℕ, ◌≡◌, ◌≢◌, ap, ◌∙◌, subst, ◌⊎◌, inl, inr, Option, none, some, Bytes, find, Result, ok, err,
}
use ape_server.Register.Data.{
  Db, Input, Code, registration_uncertain, Weather, calm, is_request, refill_batch,
}
use ape_server.Register.Once.{verifies, once}
use ape_server.Register.Refill.{Shuffle, refill, create, answer_twice, then_once, then_refill}
use ape_server.Register.Answers.{HasAnswer, Answer, once-Answer, once_again}
use ape_server.Register.Given.{refill_keeps}

-- The same users and the same requests.
abbrev pub Same : Db → Db → Type 0
Same db after = (after.users ≡ db.users) × (after.requests ≡ db.requests)

Same-follows : (db a b : Db) → b.users ≡ a.users → b.requests ≡ a.requests → Same db a → Same db b
Same-follows db a b u q s = (u ∙ s.0, q ∙ s.1)

Same-eq : {db after : Db} → after ≡ db → Same db after
Same-eq e = (ap (λ (d : Db). d.users) e, ap (λ (d : Db). d.requests) e)

module _ (sha : Bytes → Bytes) (input : Input) where
  -- What a registration comes to, from the tables.
  abbrev Created : Db → Result Code (ℕ × ℕ) × Db → Type 0
  Created db (ok given, after) = HasAnswer sha input given after
  Created db (err c, after) = (c ≡ registration_uncertain) ⊎ Same db after

  answer_twice-Created :
      (db db' : Db) (p : Result Code (Option (ℕ × ℕ)) × Db)
      → Same db db'
      → Answer sha input db' p
      → Created db (answer_twice p)
  answer_twice-Created db db' (ok (some given), after) s a = a
  answer_twice-Created db db' (ok none, after) s a =
      inr (Same-follows db db' after (Same-eq a).0 (Same-eq a).1 s)
  answer_twice-Created db db' (err c, after) s (inl e) = inl e
  answer_twice-Created db db' (err c, after) s (inr e) =
      inr (Same-follows db db' after (Same-eq e).0 (Same-eq e).1 s)

  then_once-Created :
      (db : Db) (again : Db → Result Code (Option (ℕ × ℕ)) × Db) (p : Result Code (Unit {0}) × Db)
      → Same db p.1
      → ((d : Db) → Answer sha input d (again d))
      → Created db (then_once again p)
  then_once-Created db again (err c, after) s h = inr s
  then_once-Created db again (ok u, after) s h =
      answer_twice-Created db after (again after) s (h after)

  then_refill-Created :
      (db : Db) (fill : Db → Result Code (Unit {0}) × Db)
      (again : Db → Result Code (Option (ℕ × ℕ)) × Db) (p : Result Code (Option (ℕ × ℕ)) × Db)
      → ((d : Db) → Same db d → Same db (fill d).1)
      → ((d : Db) → Answer sha input d (again d))
      → Answer sha input db p
      → Created db (then_refill fill again p)
  then_refill-Created db fill again (err c, after) f h (inl e) = inl e
  then_refill-Created db fill again (err c, after) f h (inr e) = inr (Same-eq e)
  then_refill-Created db fill again (ok (some given), after) f h a = a
  then_refill-Created db fill again (ok none, after) f h a =
      then_once-Created db again (fill after) (f after (Same-eq a)) h

  create-Created :
      (s : Shuffle) (ws : ℕ → ℕ → Weather) (db : Db) → Created db (create sha s ws input db)
  unfolding create
  create-Created s ws db =
      then_refill-Created db (refill s (ws 1) refill_batch) (once sha (ws 2) input)
        (once sha (ws 0) input db)
        (λ d k. refill_keeps (Same db) (Same-follows db) s (ws 1) refill_batch d k)
        (λ d. once-Answer sha input (ws 2) d) (once-Answer sha input (ws 0) db)

-- The answer is there under any salt that a later call makes.
HasAnswer-input :
    (sha : Bytes → Bytes) (input again : Input) (given : ℕ × ℕ) (db : Db)
    → again.request ≡ input.request
    → again.payload ≡ input.payload
    → HasAnswer sha input given db
    → HasAnswer sha again given db
unfolding verifies
HasAnswer-input sha input again given db r p h = record {
  row = h.row;
  there = ap (λ x. find (is_request x) db.requests) r ∙ h.there;
  verified = rw p h.verified;
  given_there = h.given_there;
}

-- However the statements, commits and rollbacks of a registration fail, its refill of the pool
-- included: if it answers, the tables have its answer under its request, and the same request with the
-- same payload, but with any salt and password hash, repeated with nothing between and with nothing
-- that fails, gives the same user and account and changes nothing.
pub create-again :
    (sha : Bytes → Bytes) (s : Shuffle) (ws : ℕ → ℕ → Weather) (input again : Input) (db after : Db)
    (given : ℕ × ℕ)
    → create sha s ws input db ≡ (ok given, after)
    → again.request ≡ input.request
    → again.payload ≡ input.payload
    → HasAnswer sha input given after × (create sha s (λ i k. calm) again after ≡ (ok given, after))
unfolding create
create-again sha s ws input again db after given h r p =
    let has : HasAnswer sha input given after =
      subst (Created sha input db) h (create-Created sha input s ws db) in
    (
      has,
      ap (then_refill (refill s (λ k. calm) refill_batch) (once sha (λ k. calm) again))
          (once_again sha again after given (HasAnswer-input sha input again given after r p has)),
    )

-- A registration that fails, whatever fails, leaves the users and the requests as they were, unless it
-- says that the outcome of the registration is uncertain; the pool may have been refilled.
pub create-refused :
    (sha : Bytes → Bytes) (s : Shuffle) (ws : ℕ → ℕ → Weather) (input : Input) (db after : Db)
    (c : Code)
    → create sha s ws input db ≡ (err c, after)
    → c ≢ registration_uncertain
    → (after.users ≡ db.users) × (after.requests ≡ db.requests)
create-refused sha s ws input db after c h n =
    elim (subst (Created sha input db) h (create-Created sha input s ws db)) [
      | inl e ↦ absurd (n e)
      | inr k ↦ k
    ]
