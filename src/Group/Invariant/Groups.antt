-- ===== src/Group/Invariant/Groups.antt =====
-- A statement that updates the row of one group.
use ape_server.Prelude.{
  ℕ, ◌≡◌, ◌≢◌, refl, subst, sym, ◌∙◌, ◌⊎◌, inl, inr, true, Option, none, some, List, Bool-cases,
  ◌==◌, ==_iff, arith, find, update, any, find-update_self, find-update_other, find-true,
  any-update, All, All-mono,
}
use mathlib.Core.Option
use ape_server.Group.Data.{GroupRow, MemberRow, MessageRow}
use ape_server.Group.Store.{is_group}
use ape_server.Group.Sound.{GroupOk, IsConsistent}

pub found_id :
    (j : ℕ) (gs : List GroupRow) (g : GroupRow) → find (is_group j) gs ≡ some g → g.id ≡ j
found_id j gs g h = (==_iff g.id j).0 (find-true (is_group j) gs h)

module _ (i : ℕ) (f : GroupRow → GroupRow) (same_id : (g : GroupRow) → (f g).id ≡ g.id) where
  same_group : (j : ℕ) (g : GroupRow) → is_group j g ≡ true → is_group j (f g) ≡ true
  same_group j g h = ground (arith, same_id g)

  find_updated :
      (gs : List GroupRow) (o : Option GroupRow) (g' : GroupRow)
      → find (is_group i) gs ≡ o
      → Option.map f o ≡ some g'
      → (g : GroupRow) × (find (is_group i) gs ≡ some g) × (g' ≡ f g)
  find_updated gs none g' e h = cc
  find_updated gs (some g) g' e h = (g, e, sym (Option.some-injective (f g) g' h))

  -- The row found afterwards is the old row, changed if it is the group's own.
  pub find-update_group :
      (j : ℕ) (gs : List GroupRow) (g' : GroupRow)
      → find (is_group j) (update (is_group i) f gs) ≡ some g'
      → (g : GroupRow) × (find (is_group j) gs ≡ some g)
        × (((j ≡ i) × (g' ≡ f g)) ⊎ ((j ≢ i) × (g' ≡ g)))
  find-update_group j gs g' h = elim (Bool-cases (j == i)) [
    | inl e ↦
        let j≡i : j ≡ i = (==_iff j i).0 e in
        let (g, found, changed) =
          find_updated gs (find (is_group i) gs) g' refl
            (sym (find-update_self (is_group i) f gs (same_group i)) ∙ (rw j≡i at h)) in
        (g, rw j≡i found, inl (j≡i, changed))
    | inr e ↦ (
      g',
      sym (find-update_other (is_group j) (is_group i) f gs (λ g p. ground (arith, same_id g))) ∙ h,
      inr (ground arith, refl),
    )
  ]

  pub any-update_group :
      (j : ℕ) (gs : List GroupRow)
      → any (is_group j) gs ≡ true
      → any (is_group j) (update (is_group i) f gs) ≡ true
  any-update_group j gs h = any-update (is_group j) (is_group i) f gs (λ g _. same_group j g) h

  -- One group's row is updated while its members or its messages change.
  pub update-IsConsistent :
      (gs : List GroupRow) (ms ms' : List MemberRow) (ts ts' : List MessageRow)
      → IsConsistent gs ms ts
      → ((g : GroupRow) → find (is_group i) gs ≡ some g → GroupOk ms ts g → GroupOk ms' ts' (f g))
      → ((g : GroupRow) → g.id ≢ i → GroupOk ms ts g → GroupOk ms' ts' g)
      → All (λ (m : MemberRow). any (is_group m.group_id) gs ≡ true) ms'
      → All (λ (m : MessageRow). any (is_group m.group_id) gs ≡ true) ts'
      → IsConsistent (update (is_group i) f gs) ms' ts'
  update-IsConsistent gs ms ms' ts ts' s own other lm lt = record {
    groups = λ j g' h.
        let (g, found, cases) = find-update_group j gs g' h in
        elim cases [
          | inl p ↦
              subst (GroupOk ms' ts') (sym p.1)
                (own g (subst (λ k. find (is_group k) gs ≡ some g) p.0 found) (s.groups j g found))
          | inr p ↦
              subst (GroupOk ms' ts') (sym p.1)
                (other g (λ e. p.0 (sym (found_id j gs g found) ∙ e)) (s.groups j g found))
        ];
    members_linked = All-mono _ _ ms' (λ (m : MemberRow) h. any-update_group m.group_id gs h) lm;
    messages_linked = All-mono _ _ ts' (λ (m : MessageRow) h. any-update_group m.group_id gs h) lt;
  }
