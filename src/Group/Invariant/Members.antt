-- ===== src/Group/Invariant/Members.antt =====
-- Joining and leaving: the members of one group change, and its count is taken again.
use mathlib.Core.Option
use ape_server.Prelude.{
  ℕ, ◌+◌, ◌≡◌, ◌≢◌, refl, sym, ap, ◌∙◌, inl, inr, true, false, some, List, [], ◌∷◌, Bool-cases,
  arith, find, update, count, any, All, All-append, All-update, count-update, count-append,
  find→any, any-update, any-append_left,
}
use ape_server.Group.Data.{Db, GroupRow, MemberRow}
use ape_server.Group.Store.{is_group, is_member, is_active_in, recount}
use ape_server.Group.Manage.{new_member}
use ape_server.Group.Manage.Change.{join_member, rejoin}
use ape_server.Group.Sound.{IsSound, Within, is_active_member}
use ape_server.Group.Invariant.Groups.{update-IsConsistent, found_id}

group_of : (i target : ℕ) (m : MemberRow) → is_member i target m ≡ true → m.group_id ≡ i
group_of i target m h = ground arith

-- What a change of the members of group `i` has to keep, found in `gs`.
pub record IsLocal (i : ℕ) (gs : List GroupRow) (ms ms' : List MemberRow) : Type 0 where
  pub others : (j : ℕ) → j ≢ i → count (is_active_in j) ms' ≡ count (is_active_in j) ms
  pub owners :
      (g : GroupRow)
      → (g.id ≡ i → find (is_group i) gs ≡ some g)
      → any (is_active_member g.id g.owner) ms ≡ true
      → any (is_active_member g.id g.owner) ms' ≡ true
  pub within :
      (g : GroupRow)
      → (g.id ≡ i → find (is_group i) gs ≡ some g)
      → All (Within g) ms
      → All (Within g) ms'
  pub linked :
      All (λ (m : MemberRow). any (is_group m.group_id) gs ≡ true) ms
      → All (λ (m : MemberRow). any (is_group m.group_id) gs ≡ true) ms'

module _ (i : ℕ) (db : Db) (ms' : List MemberRow) (c : IsLocal i db.groups db.members ms') where
  pub recount-IsSound : IsSound db → IsSound (recount i (record db { members = ms' }))
  unfolding recount
  recount-IsSound s =
      update-IsConsistent i _ (λ g. refl) db.groups db.members ms' db.messages db.messages s
        (λ g found ok. record {
          counted = ap (λ k. count (is_active_in k) ms') (sym (found_id i db.groups g found));
          numbered = ok.numbered;
          owned = c.owners g (λ _. found) ok.owned;
          within = c.within g (λ _. found) ok.within;
        })
        (λ g away ok. record {
          counted = ok.counted ∙ sym (c.others g.id away);
          numbered = ok.numbered;
          owned = c.owners g (λ e. absurd (away e)) ok.owned;
          within = c.within g (λ e. absurd (away e)) ok.within;
        })
        (c.linked s.members_linked) s.messages_linked

rejoin-group_id : (seq : ℕ) (m : MemberRow) → (rejoin seq m).group_id ≡ m.group_id
unfolding rejoin
rejoin-group_id seq m = ground arith

rejoin-Within :
    (g : GroupRow) (seq : ℕ) (m : MemberRow)
    → (m.group_id ≡ g.id → seq ≡ g.last_seq)
    → Within g m
    → Within g (rejoin seq m)
unfolding rejoin
rejoin-Within g seq m last w e =
    let same : m.group_id ≡ g.id = sym (rejoin-group_id seq m) ∙ e in
    ground (arith, last same, w same)

rejoin-active :
    (g : GroupRow) (seq : ℕ) (m : MemberRow)
    → is_active_member g.id g.owner m ≡ true
    → is_active_member g.id g.owner (rejoin seq m) ≡ true
unfolding rejoin
rejoin-active g seq m h = ground arith

module _ (i target seq : ℕ) (gs : List GroupRow) (ms : List MemberRow) (row : GroupRow)
    (found : find (is_group i) gs ≡ some row) (last : seq ≡ row.last_seq) where
  ends : (g : GroupRow) → (g.id ≡ i → find (is_group i) gs ≡ some g) → g.id ≡ i → seq ≡ g.last_seq
  ends g own e =
      last ∙ ap (λ (r : GroupRow). r.last_seq) (Option.some-injective row g (sym found ∙ own e))

  elsewhere :
      (j : ℕ)
      → j ≢ i
      → count (is_active_in j) ms + count (is_active_in j) (new_member i target seq ∷ [])
        ≡ count (is_active_in j) ms
  unfolding count
  elsewhere j away = ground arith

  pub join-IsLocal : IsLocal i gs ms (join_member i target seq ms)
  unfolding join_member
  join-IsLocal = elim (Bool-cases (any (is_member i target) ms)) [
    | inl e ↦ rw e (record {
      others = λ j away.
          count-update (is_active_in j) (is_member i target) (rejoin seq) ms
            (λ m h. ground (arith, rejoin-group_id seq m));
      owners = λ g own h.
          any-update (is_active_member g.id g.owner) (is_member i target) (rejoin seq) ms
            (λ m _ k. rejoin-active g seq m k) h;
      within = λ g own h.
          All-update (Within g) (is_member i target) (rejoin seq) ms
            (λ m k w. rejoin-Within g seq m (λ e'. ends g own (sym e' ∙ group_of i target m k)) w)
            h;
      linked = λ h.
          All-update _ (is_member i target) (rejoin seq) ms (λ m _ k. rw (rejoin-group_id seq m) k)
            h;
    })
    | inr e ↦ rw e (record {
      others = λ j away. count-append (is_active_in j) ms _ ∙ elsewhere j away;
      owners = λ g own h. any-append_left (is_active_member g.id g.owner) ms _ h;
      within =
          λ g own h. All-append (Within g) ms _ h ((λ e'. ground (arith, ends g own (sym e'))), tt);
      linked = λ h. All-append _ ms _ h (find→any (is_group i) gs row found, tt);
    })
  ]

module _ (i target : ℕ) (gs : List GroupRow) (ms : List MemberRow) (row : GroupRow)
    (found : find (is_group i) gs ≡ some row) (kept : target ≢ row.owner) where
  owner_of :
      (g : GroupRow)
      → (g.id ≡ i → find (is_group i) gs ≡ some g)
      → (m : MemberRow) → is_member i target m ≡ true
      → is_active_member g.id g.owner m ≡ true
      → target ≡ row.owner
  owner_of g own m k k' =
      let same : g.id ≡ i = ground arith in
      let row_is : row ≡ g = Option.some-injective row g (sym found ∙ own same) in
      rw row_is (ground arith)

  pub leave-IsLocal :
      IsLocal i gs ms
        (update (is_member i target) (λ (m : MemberRow). record m { active = false }) ms)
  leave-IsLocal = record {
    others =
        λ j away. count-update (is_active_in j) (is_member i target) _ ms (λ m h. ground arith);
    owners = λ g own h.
        any-update (is_active_member g.id g.owner) (is_member i target) _ ms
          (λ m k k'. absurd (kept (owner_of g own m k k'))) h;
    within = λ g own h. All-update (Within g) (is_member i target) _ ms (λ m k w. w) h;
    linked = λ h. All-update _ (is_member i target) _ ms (λ m _ k. k) h;
  }
