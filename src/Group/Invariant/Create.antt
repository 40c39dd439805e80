-- ===== src/Group/Invariant/Create.antt =====
-- A new group has one member, its owner, and no message.
use ape_server.Prelude.{
  ℕ, ◌≡◌, ◌≢◌, refl, sym, ap, ◌∙◌, subst, inl, inr, true, false, some, List, [], ◌∷◌, ◌++◌, map,
  Bool-cases, Option-cases, ◌==◌, ==_refl, ==_false, arith, find, count, any, All, All-append,
  All-mono, count-append, find→any, find-append, find-append_some, any-append_left,
  any-append_right, count_none, select_none, Ensures,
}
use mathlib.Core.Option
use ape_server.Group.Data.{Db, Env, Command, GroupRow, MemberRow, MessageRow}
use ape_server.Group.Store.{is_group, is_active_in, is_message_in, allocate_group_number}
use ape_server.Group.Manage.{create, new_group, new_member}
use ape_server.Group.Sound.{GroupOk, IsConsistent, IsSound, Within, is_active_member}
use ape_server.Group.Invariant.Groups.{found_id}
use ape_server.Group.Invariant.Messages.{Keeps}

not_linked :
    (k id : ℕ) (gs : List GroupRow)
    → any (is_group id) gs ≡ false
    → any (is_group k) gs ≡ true
    → k ≢ id
not_linked k id gs fresh h e = cc (fresh, h, ap (λ n. any (is_group n) gs) e)

find_one : (j : ℕ) (x g : GroupRow) → find (is_group j) (x ∷ []) ≡ some g → x ≡ g
unfolding find
find_one j x g h = elim (Bool-cases (x.id == j)) [
  | inl e ↦ Option.some-injective x g (rw e at h)
  | inr e ↦ cc (rw e at h)
]

-- Rows linked to groups have no group that is not there.
none_linked :
    {R : Type 0} (key : R → ℕ) (id : ℕ) (gs : List GroupRow) (rs : List R)
    → any (is_group id) gs ≡ false
    → All (λ r. any (is_group (key r)) gs ≡ true) rs
    → any (λ r. key r == id) rs ≡ false
unfolding any
none_linked key id gs [] fresh h = refl
none_linked key id gs (r ∷ rs) fresh h =
    ground (arith, not_linked (key r) id gs fresh h.0, none_linked key id gs rs fresh h.1)

module _ (id : ℕ) (cmd : Command) (gs : List GroupRow) (ms : List MemberRow) (ts : List MessageRow)
    (s : IsConsistent gs ms ts) (fresh : any (is_group id) gs ≡ false) where
  abbrev pub gs' : List GroupRow
  gs' = gs ++ new_group id cmd ∷ []

  abbrev pub ms' : List MemberRow
  ms' = ms ++ new_member id cmd.actor 0 ∷ []

  no_members : any (λ (m : MemberRow). m.group_id == id) ms ≡ false
  no_members = none_linked (λ (m : MemberRow). m.group_id) id gs ms fresh s.members_linked

  no_messages : any (is_message_in id) ts ≡ false
  no_messages = none_linked (λ (m : MessageRow). m.group_id) id gs ts fresh s.messages_linked

  none_before : count (is_active_in id) ms ≡ 0
  none_before =
      count_none (is_active_in id) (λ (m : MemberRow). m.group_id == id) ms (λ m h. ground arith)
        no_members

  new-GroupOk : GroupOk ms' ts (new_group id cmd)
  unfolding count any
  new-GroupOk = record {
    counted = sym (count-append (is_active_in id) ms _ ∙ rw (none_before, ==_refl id));
    numbered = ap (map (λ (m : MessageRow). m.seq)) (select_none (is_message_in id) ts no_messages);
    owned =
        any-append_right (is_active_member id cmd.actor) ms _ (rw (==_refl id, ==_refl cmd.actor));
    within =
        All-append (Within (new_group id cmd)) ms _
          (All-mono _ _ ms (λ m h e. absurd (not_linked m.group_id id gs fresh h e))
            s.members_linked)
          ((λ _. omega arith), tt);
  }

  old-GroupOk : (g : GroupRow) → g.id ≢ id → GroupOk ms ts g → GroupOk ms' ts g
  unfolding count
  old-GroupOk g away k = record {
    counted =
        k.counted
        ∙ sym (
            count-append (is_active_in g.id) ms _
            ∙ rw (==_false id g.id (λ e. away (sym e))) (omega arith));
    numbered = k.numbered;
    owned = any-append_left (is_active_member g.id g.owner) ms _ k.owned;
    within = All-append (Within g) ms _ k.within ((λ e. absurd (away (sym e))), tt);
  }

  pub create-IsConsistent : IsConsistent gs' ms' ts
  unfolding any find
  create-IsConsistent = record {
    groups = λ j g found. elim (Option-cases (find (is_group j) gs)) [
      | inl e ↦
          subst (GroupOk ms' ts) (find_one j _ g (sym (find-append (is_group j) gs _ e) ∙ found))
            new-GroupOk
      | inr (g₀, e) ↦
          subst (GroupOk ms' ts)
            (Option.some-injective g₀ g (sym (find-append_some (is_group j) gs _ e) ∙ found))
            (old-GroupOk g₀
              (λ same.
                not_linked j id gs fresh (find→any (is_group j) gs g₀ e)
                  (sym (found_id j gs g₀ e) ∙ same))
              (s.groups j g₀ e))
    ];
    members_linked =
        All-append _ ms _
          (All-mono _ _ ms (λ m h. any-append_left (is_group m.group_id) gs _ h) s.members_linked)
          (any-append_right (is_group id) gs _ (rw (==_refl id)), tt);
    messages_linked =
        All-mono _ _ ts (λ m h. any-append_left (is_group m.group_id) gs _ h) s.messages_linked;
  }

pub create-Keeps :
    (env : Env) (cmd : Command) (db : Db) → IsSound db → Ensures Keeps (create env cmd db)
unfolding create allocate_group_number
create-Keeps env cmd db s = elim (Bool-cases (any (is_group env.snowflake) db.groups)) [
  | inl e ↦ ground (arith, e)
  | inr e ↦
      ground (arith, e, create-IsConsistent env.snowflake cmd db.groups db.members db.messages s e)
]
