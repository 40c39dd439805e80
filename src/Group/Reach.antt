-- ===== src/Group/Reach.antt =====
-- How `perform` reaches the group that a command names.
use ape_server.Prelude.{
  ◌≡◌, refl, inl, inr, Bool, true, false, some, Bytes, Option-cases, ◌==◌, arith, find, ok, Ensures,
  ℕ,
}
use ape_server.Text.Decimal.{group_id}
use ape_server.Group.Data.{Db, Env, Command, Operation, GroupRow, UserRow, Reply}
use ape_server.Group.Store.{is_group}
use ape_server.Group.Perform.{on_group, resolve, in_group, context, dispatch, perform}

-- The operations on a group that is named by its identifier.
abbrev pub is_on_group : Operation → Bool
is_on_group Operation.list = false
is_on_group Operation.create = false
is_on_group Operation.search = false
is_on_group Operation.my_applications = false
is_on_group _ = true

-- The command names a group that exists.
pub record Names (cmd : Command) (db : Db) (row : GroupRow) : Type 0 where
  pub id : ℕ
  pub written : group_id cmd.group_id ≡ some id
  pub found : find (is_group id) db.groups ≡ some row
  pub grouped : is_on_group cmd.operation ≡ true

dispatch-in_group :
    (op : Operation) (env : Env) (cmd : Command) (nickname : Bytes) (db : Db)
    → is_on_group op ≡ true
    → dispatch op env cmd nickname db ≡ in_group env cmd nickname db
unfolding dispatch
dispatch-in_group Operation.list env cmd nickname db h = cc
dispatch-in_group Operation.create env cmd nickname db h = cc
dispatch-in_group Operation.my_applications env cmd nickname db h = cc
dispatch-in_group _ env cmd nickname db h = refl

resolve_named :
    (op : Operation) (cmd : Command) (id : ℕ) (db : Db)
    → is_on_group op ≡ true
    → resolve op cmd id db ≡ ok id
unfolding resolve
resolve_named Operation.search cmd id db h = cc
resolve_named _ cmd id db h = refl

module _ (env : Env) (cmd : Command) (db : Db) (row : GroupRow) (n : Names cmd db row) where
  in_group-on_group :
      (nickname : Bytes)
      → in_group env cmd nickname db ≡ on_group cmd.operation (context env cmd nickname db row)
  unfolding in_group
  in_group-on_group nickname =
      rw n.written (rw (resolve_named cmd.operation cmd n.id db n.grouped) (rw n.found refl))

  -- What the group's operation ensures, whoever the actor is, the command ensures.
  pub perform-on_group {ℓ} :
      (P : Db × Reply → Type ℓ)
      → ((nickname : Bytes) → Ensures P (on_group cmd.operation (context env cmd nickname db row)))
      → Ensures P (perform env cmd db)
  unfolding perform
  perform-on_group P h =
      elim (Option-cases (find (λ (u : UserRow). u.account == cmd.actor) db.users)) [
        | inl e ↦ rw e (ground arith)
        | inr (u, e) ↦
            rw
              (
                e,
                dispatch-in_group cmd.operation env cmd u.nickname db n.grouped,
                in_group-on_group u.nickname,
              )
              (ground (arith, h u.nickname))
      ]
