-- ===== src/Group/Invariant/Messages.antt =====
-- Sending, acknowledging and reading, in a group that was found.
use mathlib.Core.List.{map-append, append-nil}
use mathlib.Core.Option
use ape_server.Prelude.{
  up_to, ℕ, suc, ◌+◌, ◌≤◌, max, ◌≡◌, ◌≢◌, refl, sym, ap, ◌∙◌, subst, inl, inr, true, not, some,
  List, [], ◌∷◌, ◌++◌, map, Option-cases, ==_iff, ==_false, arith, ltb, find, select, update,
  All-append, All-mono, All-update, count-update, any-update, select-append, find→any, ok, Ensures,
  Ensures-guard, bytes_eq, is_empty,
}
use ape_server.Group.Data.{
  Db, GroupRow, MemberRow, MessageRow, Reply, empty_message, db_error, idempotency_conflict,
  invalid_seq,
}
use ape_server.Group.Store.{is_group, is_member, is_active_in, is_message_in}
use ape_server.Group.Manage.{Context}
use ape_server.Group.Talk
use ape_server.Group.Talk.{
  send, append_message, new_message, is_request, is_fresh, acknowledge, mark_read,
}
use ape_server.Group.Sound.{GroupOk, IsSound, Within, is_active_member, seqs}
use ape_server.Group.Invariant.Groups.{update-IsConsistent, found_id}

-- The group in hand is the one found in the tables.
pub record IsOpened (c : Context) : Type 0 where
  pub row : GroupRow
  pub found : find (is_group c.id) c.db.groups ≡ some row
  pub same_last : c.group.last_seq ≡ row.last_seq
  pub same_owner : c.group.owner ≡ row.owner
  pub joined_at : c.group.join_seq ≤ c.group.last_seq

abbrev pub Keeps : Db × Reply → Type 0
Keeps r = IsSound r.0

seqs-append_own :
    (i n : ℕ) (ts : List MessageRow) (t : MessageRow)
    → t.group_id ≡ i
    → seqs i ts ≡ up_to n
    → t.seq ≡ suc n
    → seqs i (ts ++ t ∷ []) ≡ up_to (suc n)
unfolding select
seqs-append_own i n ts t own before at =
    ap (map (λ (m : MessageRow). m.seq)) (select-append (is_message_in i) ts (t ∷ []))
    ∙ map-append (λ (m : MessageRow). m.seq) (select (is_message_in i) ts) _
    ∙ rw (before, (==_iff t.group_id i).1 own, at) refl

seqs-append_other :
    (i : ℕ) (ts : List MessageRow) (t : MessageRow)
    → i ≢ t.group_id
    → seqs i (ts ++ t ∷ []) ≡ seqs i ts
unfolding select
seqs-append_other i ts t away =
    ap (map (λ (m : MessageRow). m.seq)) (select-append (is_message_in i) ts (t ∷ []))
    ∙ map-append (λ (m : MessageRow). m.seq) (select (is_message_in i) ts) _
    ∙ rw (==_false t.group_id i (λ e. away (sym e))) (append-nil _)

Within-mono :
    (g g' : GroupRow) (m : MemberRow)
    → g'.id ≡ g.id
    → g.last_seq ≤ g'.last_seq
    → Within g m
    → Within g' m
Within-mono g g' m same h w e = ground (arith, w (e ∙ same))

module _ (c : Context) (o : IsOpened c) (s : IsSound c.db) where
  same_row :
      (g : GroupRow) → find (is_group c.id) c.db.groups ≡ some g → g.last_seq ≡ c.group.last_seq
  same_row g found =
      ap (λ (r : GroupRow). r.last_seq) (Option.some-injective g o.row (sym found ∙ o.found))
      ∙ sym o.same_last

  shorter :
      (g : GroupRow) → find (is_group c.id) c.db.groups ≡ some g → g.last_seq ≤ c.group.last_seq + 1
  shorter g found = omega (arith, same_row g found)

  one_more :
      (g : GroupRow)
      → find (is_group c.id) c.db.groups ≡ some g
      → suc g.last_seq ≡ c.group.last_seq + 1
  one_more g found = omega (arith, same_row g found)

  next :
      (g : GroupRow)
      → find (is_group c.id) c.db.groups ≡ some g
      → GroupOk c.db.members c.db.messages g
      → seqs g.id (c.db.messages ++ new_message c ∷ []) ≡ up_to (c.group.last_seq + 1)
  next g found k =
      seqs-append_own g.id g.last_seq c.db.messages (new_message c)
        (sym (found_id c.id c.db.groups g found)) k.numbered (omega (arith, same_row g found))
      ∙ ap up_to (one_more g found)

  append-IsSound : IsSound (append_message c)
  append-IsSound =
      update-IsConsistent c.id _ (λ g. refl) c.db.groups c.db.members c.db.members c.db.messages
        (c.db.messages ++ new_message c ∷ []) s
        (λ g found k. record {
          counted = k.counted;
          numbered = next g found k;
          owned = k.owned;
          within =
              All-mono (Within g) _ c.db.members
                (λ m w.
                  Within-mono g (record g { last_seq = c.group.last_seq + 1 }) m refl
                    (shorter g found) w)
                k.within;
        })
        (λ g away k. record {
          counted = k.counted;
          numbered = seqs-append_other g.id c.db.messages (new_message c) away ∙ k.numbered;
          owned = k.owned;
          within = k.within;
        })
        s.members_linked
        (All-append _ c.db.messages _ s.messages_linked
          (find→any (is_group c.id) c.db.groups o.row o.found, tt))

  sent : Db × Reply
  sent = (append_message c, record c.reply { messages = new_message c ∷ [] })

  pub send-Keeps : Ensures Keeps (send c)
  unfolding send sent
  send-Keeps = Ensures-guard Keeps (not (is_empty c.cmd.text)) empty_message _ λ _.
      elim (Option-cases (find (is_request c.id c.cmd.actor c.cmd.client_id) c.db.messages)) [
        | inl e ↦ rw e (Ensures-guard Keeps (is_fresh c) db_error (ok sent) λ _. append-IsSound)
        | inr (m, e) ↦
            rw e (Ensures-guard Keeps (bytes_eq m.text c.cmd.text) idempotency_conflict _ λ _. s)
      ]

-- A write to a member that moves only its positions, to one that is given.
record IsProgress (write : ℕ → MemberRow → MemberRow) : Type 0 where
  same_group : (n : ℕ) (m : MemberRow) → (write n m).group_id ≡ m.group_id
  same_account : (n : ℕ) (m : MemberRow) → (write n m).account ≡ m.account
  same_active : (n : ℕ) (m : MemberRow) → (write n m).active ≡ m.active
  within :
      (g : GroupRow) (n : ℕ) (m : MemberRow) → n ≤ g.last_seq → Within g m → Within g (write n m)

module _ (c : Context) (o : IsOpened c) (s : IsSound c.db) (write : ℕ → MemberRow → MemberRow)
    (w : IsProgress write) where
  target : ℕ
  target = max c.cmd.after c.group.join_seq

  moved : Db
  unfolding target
  moved = record c.db { members = update (is_member c.id c.cmd.actor) (write target) c.db.members }

  moved_one :
      (g : GroupRow)
      → (g.id ≡ c.id → target ≤ g.last_seq)
      → (m : MemberRow) → is_member c.id c.cmd.actor m ≡ true
      → Within g m
      → Within g (write target m)
  moved_one g fits m own h e =
      let here : g.id ≡ c.id = ground (arith, w.same_group target m) in
      w.within g target m (fits here) h e

  moved-GroupOk :
      (g : GroupRow)
      → (g.id ≡ c.id → target ≤ g.last_seq)
      → GroupOk c.db.members c.db.messages g
      → GroupOk moved.members c.db.messages g
  unfolding moved
  moved-GroupOk g fits k = record {
    counted =
        k.counted
        ∙ sym (
            count-update (is_active_in g.id) (is_member c.id c.cmd.actor) (write target)
              c.db.members (λ m _. rw (w.same_group target m, w.same_active target m)));
    numbered = k.numbered;
    owned =
        any-update (is_active_member g.id g.owner) (is_member c.id c.cmd.actor) (write target)
          c.db.members
          (λ m _ h. rw (w.same_group target m, w.same_account target m, w.same_active target m) h)
          k.owned;
    within =
        All-update (Within g) (is_member c.id c.cmd.actor) (write target) c.db.members
          (λ m own h. moved_one g fits m own h) k.within;
  }

  in_reach :
      not (ltb c.group.last_seq c.cmd.after) ≡ true
      → (id : ℕ) (g : GroupRow) → find (is_group id) c.db.groups ≡ some g
      → g.id ≡ c.id
      → target ≤ g.last_seq
  unfolding target
  in_reach fits id g found here =
      let at : id ≡ c.id = sym (found_id id c.db.groups g found) ∙ here in
      let end : g.last_seq ≡ c.group.last_seq =
        same_row c o s g (subst (λ k. find (is_group k) c.db.groups ≡ some g) at found) in
      rw end (ground (arith, o.joined_at))

  advance-Keeps : Ensures Keeps (Talk.advance c write)
  unfolding Talk.advance moved
  advance-Keeps =
      Ensures-guard Keeps (not (ltb c.group.last_seq c.cmd.after)) invalid_seq (ok (moved, c.reply))
        λ fits. record {
          groups = λ id g found.
              moved-GroupOk g (λ here. in_reach fits id g found here) (s.groups id g found);
          members_linked =
              All-update _ (is_member c.id c.cmd.actor) (write target) c.db.members
                (λ m _ h. rw (w.same_group target m) h) s.members_linked;
          messages_linked = s.messages_linked;
        }

pub acknowledge-Keeps : (c : Context) → IsOpened c → IsSound c.db → Ensures Keeps (acknowledge c)
unfolding acknowledge
acknowledge-Keeps c o s = advance-Keeps c o s _ (record {
  same_group = λ n m. refl;
  same_account = λ n m. refl;
  same_active = λ n m. refl;
  within = λ g n m h w e. ground (arith, w e);
})

pub mark_read-Keeps : (c : Context) → IsOpened c → IsSound c.db → Ensures Keeps (mark_read c)
unfolding mark_read
mark_read-Keeps c o s = advance-Keeps c o s _ (record {
  same_group = λ n m. refl;
  same_account = λ n m. refl;
  same_active = λ n m. refl;
  within = λ g n m h w e. ground (arith, w e);
})
