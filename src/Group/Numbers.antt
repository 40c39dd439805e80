-- ===== src/Group/Numbers.antt =====
-- The numbers of groups: `ensure_group_numbers`.
use ape_server.Prelude.{
  ℕ, suc, ◌+◌, ◌≤◌, ◌<◌, ◌≡◌, ◌≢◌, refl, sym, ◌∙◌, Bool, true, false, not, ◌||◌, List, [], ◌∷◌,
  ◌++◌, map, arith, leb, ◌==◌, ==_refl, length, select, any, insert_by, insert_by-All, order_by,
  order_by-All, All, All-mono, All-append, Bool-cases, inl, inr, any-append_left, any-append_right,
  All-both, Result, ok,
}
use mathlib.Core.List.{append_assoc, append-nil}
use ape_server.Group.Data.{Db, Code, GroupRow, NumberRow}
use ape_server.Group.Store.{allocate_group_number, max_number}
use ape_server.Group.Delivery.{is_numbered, unnumbered, number_all, ensure_group_numbers}

abbrev Apart : List ℕ → Type 0
Apart [] = Unit
Apart (x ∷ xs) = All (λ y. y ≢ x) xs × Apart xs

-- The identifiers with consecutive numbers.
abbrev numbers_from : ℕ → List ℕ → List NumberRow
numbers_from n [] = []
numbers_from n (id ∷ ids) = record { group_id = id; number = n } ∷ numbers_from (n + 1) ids

abbrev pub numbered : List ℕ → Db → Db
numbered ids db = record db {
  numbers = db.numbers ++ numbers_from db.next_number ids;
  next_number = db.next_number + length ids;
}

abbrev IsBelow : ℕ → NumberRow → Type 0
IsBelow bound n = n.number < bound

abbrev IsNew : List NumberRow → ℕ → Type 0
IsNew ns id = any (is_numbered id) ns ≡ false

unused_number :
    (id value : ℕ) (ns : List NumberRow)
    → IsNew ns id
    → All (IsBelow value) ns
    → any (λ (n : NumberRow). n.group_id == id || n.number == value) ns ≡ false
unfolding any
unused_number id value [] f b = refl
unused_number id value (n ∷ ns) f b = ground (arith, unused_number id value ns)

still-IsNew :
    (x id value : ℕ) (ns : List NumberRow)
    → x ≢ id
    → IsNew ns x
    → IsNew (ns ++ record { group_id = id; number = value } ∷ []) x
unfolding any
still-IsNew x id value [] d f = ground arith
still-IsNew x id value (n ∷ ns) d f = ground (arith, still-IsNew x id value ns d)

allocate-numbered :
    (id : ℕ) (db : Db)
    → IsNew db.numbers id
    → All (IsBelow db.next_number) db.numbers
    → db.next_number ≤ max_number
    → allocate_group_number db id ≡ ok (numbered (id ∷ []) db)
unfolding allocate_group_number
allocate-numbered id db f b h =
    let fits : leb db.next_number max_number ≡ true = ground arith in
    rw (fits, unused_number id db.next_number db.numbers f b) refl

number_all-numbered :
    (ids : List ℕ) (db : Db)
    → Apart ids
    → All (IsNew db.numbers) ids
    → All (IsBelow db.next_number) db.numbers
    → db.next_number + length ids ≤ max_number + 1
    → number_all ids db ≡ (ok tt, numbered ids db)
unfolding number_all
number_all-numbered [] db d f b h =
    let same : db.next_number + 0 ≡ db.next_number = omega arith in
    rw (append-nil db.numbers, same) refl
number_all-numbered (id ∷ ids) db d f b h =
    let next = numbered (id ∷ []) db in
    let once_more : ◌≡◌ {A = Result Code (Unit {0}) × Db} (ok tt, numbered ids next)
        (ok tt, numbered (id ∷ ids) db) =
      let rows =
        append_assoc db.numbers (record { group_id = id; number = db.next_number } ∷ [])
          (numbers_from (db.next_number + 1) ids) in
      let count : db.next_number + 1 + length ids ≡ db.next_number + suc (length ids) =
        omega arith in
      rw (rows, count) refl in
    rw (f.0, allocate-numbered id db f.0 b (omega arith))
      (number_all-numbered ids next d.1
          (All-mono _ _ ids
            (λ x (a : (x ≢ id) × IsNew db.numbers x).
              still-IsNew x id db.next_number db.numbers a.0 a.1)
            (All-both _ _ ids d.0 f.1))
          (All-append (IsBelow next.next_number) db.numbers _
            (All-mono _ _ db.numbers (λ n (k : IsBelow db.next_number n). omega arith) b)
            (omega arith, tt))
          (omega arith)
        ∙ once_more)

-- What holds of all rows' keys holds of those of the rows that are selected.
All-keys :
    (P : ℕ → Type 0) (p : GroupRow → Bool) (gs : List GroupRow)
    → All P (map (λ g. g.id) gs)
    → All P (map (λ g. g.id) (select p gs))
unfolding select
All-keys P p [] a = tt
All-keys P p (g ∷ gs) a = elim (Bool-cases (p g)) [
  | inl e ↦ rw e (a.0, All-keys P p gs a.1)
  | inr e ↦ rw e (All-keys P p gs a.1)
]

Apart-select :
    (p : GroupRow → Bool) (gs : List GroupRow)
    → Apart (map (λ g. g.id) gs)
    → Apart (map (λ g. g.id) (select p gs))
unfolding select
Apart-select p [] a = tt
Apart-select p (g ∷ gs) a = elim (Bool-cases (p g)) [
  | inl e ↦ rw e (All-keys _ p gs a.0, Apart-select p gs a.1)
  | inr e ↦ rw e (Apart-select p gs a.1)
]

insert-Apart :
    (x : ℕ) (xs : List ℕ) → All (λ y. y ≢ x) xs → Apart xs → Apart (insert_by (λ n. n) x xs)
unfolding insert_by
insert-Apart x [] h a = (tt, tt)
insert-Apart x (y ∷ ys) h a = elim (Bool-cases (leb x y)) [
  | inl e ↦ rw e (h, a)
  | inr e ↦
      rw e
        (insert_by-All (λ z. z ≢ y) (λ n. n) x ys (λ q. h.0 (sym q)) a.0, insert-Apart x ys h.1 a.1)
]

order-Apart : (xs : List ℕ) → Apart xs → Apart (order_by (λ n. n) xs)
unfolding order_by
order-Apart [] a = tt
order-Apart (x ∷ xs) a =
    insert-Apart x _ (order_by-All (λ y. y ≢ x) (λ n. n) xs a.0) (order-Apart xs a.1)

unnumbered-IsNew :
    (ns : List NumberRow) (gs : List GroupRow)
    → All (IsNew ns) (map (λ g. g.id) (select (λ g. not (any (is_numbered g.id) ns)) gs))
unfolding select
unnumbered-IsNew ns [] = tt
unnumbered-IsNew ns (g ∷ gs) = elim (Bool-cases (any (is_numbered g.id) ns)) [
  | inl e ↦ rw e (unnumbered-IsNew ns gs)
  | inr e ↦ rw e (e, unnumbered-IsNew ns gs)
]

-- Each of the identifiers has a number then.
numbers_from-any :
    (n : ℕ) (ids : List ℕ) → All (λ id. any (is_numbered id) (numbers_from n ids) ≡ true) ids
unfolding any
numbers_from-any n [] = tt
numbers_from-any n (id ∷ ids) =
    (rw (==_refl id) refl, All-mono _ _ ids (λ x h. ground arith) (numbers_from-any (n + 1) ids))

module _ (P : ℕ → Type 0) where
  insert-parts : (x : ℕ) (ys : List ℕ) → All P (insert_by (λ n. n) x ys) → P x × All P ys
  unfolding insert_by
  insert-parts x [] a = (a.0, tt)
  insert-parts x (y ∷ ys) a = elim (Bool-cases (leb x y)) [
    | inl e ↦ rw e at a
    | inr e ↦
        let b : All P (y ∷ insert_by (λ n. n) x ys) = rw e at a in
        let (c, d) = insert-parts x ys b.1 in (c, (b.0, d))
  ]

  order-parts : (xs : List ℕ) → All P (order_by (λ n. n) xs) → All P xs
  unfolding order_by
  order-parts [] a = tt
  order-parts (x ∷ xs) a = let (b, c) = insert-parts x _ a in (b, order-parts xs c)

  -- What holds of the selected keys, and of the others, holds of all.
  either-All :
      (p : GroupRow → Bool) (gs : List GroupRow)
      → ((g : GroupRow) → p g ≡ false → P g.id)
      → All P (map (λ g. g.id) (select p gs))
      → All (λ (g : GroupRow). P g.id) gs
  unfolding select
  either-All p [] h a = tt
  either-All p (g ∷ gs) h a = elim (Bool-cases (p g)) [
    | inl e ↦
        let b : All P (map (λ k. k.id) (g ∷ select p gs)) = rw e at a in
        (b.0, either-All p gs h b.1)
    | inr e ↦ (h g e, either-All p gs h (rw e at a))
  ]

-- When the cursor is past every number given, no two groups share an identifier, and there are
-- numbers left for all, the groups that lack a number get one, in the order of their identifiers and
-- counted on from the cursor; nothing else changes, and then every group has a number.
pub ensure_group_numbers-numbered :
    (db : Db)
    → Apart (map (λ g. g.id) db.groups)
    → All (λ (n : NumberRow). n.number < db.next_number) db.numbers
    → db.next_number + length (unnumbered db) ≤ max_number + 1
    → (ensure_group_numbers db ≡ (ok tt, numbered (unnumbered db) db))
      × All
          (λ (g : GroupRow). any (is_numbered g.id) (numbered (unnumbered db) db).numbers ≡ true)
          db.groups
unfolding ensure_group_numbers
ensure_group_numbers-numbered db a b h =
    let rows = numbers_from db.next_number (unnumbered db) in
    let HasNumber : ℕ → Type 0 = λ id. any (is_numbered id) (db.numbers ++ rows) ≡ true in
    (
      number_all-numbered (unnumbered db) db (order-Apart _ (Apart-select _ db.groups a))
          (order_by-All (IsNew db.numbers) (λ n. n) _ (unnumbered-IsNew db.numbers db.groups)) b h,
      either-All HasNumber (λ g. not (any (is_numbered g.id) db.numbers)) db.groups
          (λ g e. any-append_left (is_numbered g.id) db.numbers rows (ground arith))
          (order-parts HasNumber _ (
            All-mono _ HasNumber (unnumbered db)
              (λ id e. any-append_right (is_numbered id) db.numbers rows e)
              (numbers_from-any db.next_number (unnumbered db)))),
    )
