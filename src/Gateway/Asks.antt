-- ===== src/Gateway/Asks.antt =====
-- The calls that a request to `doReadLoop` of src/gateway/ws_session.cpp leads to.
use mathlib.Core.Option
use ape_server.Outbox.Data.{Message}
use ape_server.Gateway.Session.{
  Ask, send_messages, group_execute, chat_history, list_conversations, mark_read, update_settings,
  delete_conversation, friend_execute, ack_message,
}
use ape_server.Gateway.Enter.{Request}
use ape_server.Gateway.Answers.{
  Clients, Codec, Answer, answer, send, group, history, conversations, conversation_ask,
  own_conversation, friends,
}
use ape_server.Prelude.{
  ℕ, ◌-◌, ◌≡◌, refl, subst, inl, inr, Bool, true, false, ◌&&◌, some, List, [], ◌∷◌, ◌==◌, leb,
  is_empty, if◌then◌else◌, map, All, Bool-cases, Option-cases,
}

-- A call in the name of an account.
abbrev pub IsFor : ℕ → Ask → Type 0
IsFor account (send_messages ms) = All (λ (m : Message). m.sender ≡ account) ms
IsFor account (group_execute c) = c.actor ≡ account
IsFor account (chat_history h) = h.owner ≡ account
IsFor account (list_conversations owner) = owner ≡ account
IsFor account (mark_read c) = c.owner ≡ account
IsFor account (update_settings c) = c.owner ≡ account
IsFor account (delete_conversation c) = c.owner ≡ account
IsFor account (friend_execute c) = c.actor ≡ account
IsFor account (ack_message owner id type) = owner ≡ account

own_messages :
    (account : ℕ) (ms : List Message)
    → All
        (λ (m : Message). m.sender ≡ account)
        (map (λ (m : Message). record m { sender = account }) ms)
own_messages account [] = tt
own_messages account (m ∷ ms) = (refl, own_messages account ms)

module _ (s : Clients) (codec : Codec) (account : ℕ) (q : Request) where
  abbrev Asks : Answer → Type 0
  Asks a = All (IsFor account) a.asks

  send-Asks : Asks (send s codec account q)
  unfolding send
  send-Asks = elim (Option-cases (codec.parse_send q.payload)) [
    | inl e ↦ rw (send, e) tt
    | inr (ms, e) ↦
        let own = map (λ (m : Message). record m { sender = account }) ms in
        elim (Option-cases (s.send own)) [
          | inl f ↦ rw (send, e, f) (own_messages account ms, tt)
          | inr (bytes, f) ↦ rw (send, e, f) (own_messages account ms, tt)
        ]
  ]

  group-Asks : Asks (group s codec account q)
  unfolding group
  group-Asks = elim (Option-cases (codec.parse_group q.payload)) [
    | inl e ↦ rw (group, e) tt
    | inr (c, e) ↦ elim (Option-cases s.group) [
      | inl f ↦ rw (group, e, f) tt
      | inr (execute, f) ↦ rw (group, e, f) (refl, tt)
    ]
  ]

  history-Asks : Asks (history s codec account q)
  unfolding history
  history-Asks = elim (Option-cases (codec.parse_history q.payload)) [
    | inl e ↦ rw (history, e) tt
    | inr (h, e) ↦ elim (Bool-cases (h.peer == 0)) [
      | inl z ↦ rw (history, e, z) tt
      | inr z ↦ elim (Option-cases (s.history (record h { owner = account }))) [
        | inl f ↦ rw (history, e, z, f) (refl, tt)
        | inr (bytes, f) ↦ rw (history, e, z, f) (refl, tt)
      ]
    ]
  ]

  conversation_ask-IsFor : (a : Ask) → conversation_ask codec account q ≡ some a → IsFor account a
  unfolding conversation_ask
  conversation_ask-IsFor a h = elim (Bool-cases (q.type == 240)) [
    | inl t ↦ is (list_conversations account) (rw (conversation_ask, t) at h) refl
    | inr t ↦ elim (Option-cases (codec.parse_conversation q.type q.payload)) [
      | inl e ↦ cc (rw (conversation_ask, t, e) at h)
      | inr (c, e) ↦ elim (Bool-cases (is_empty c.id)) [
        | inl n ↦ cc (rw (conversation_ask, t, e, n) at h)
        | inr n ↦ elim (Bool-cases (q.type == 241)) [
          | inl u ↦
              is (mark_read (own_conversation account c)) (rw (conversation_ask, t, e, n, u) at h)
                refl
          | inr u ↦ elim (Bool-cases (q.type == 242)) [
            | inl v ↦
                is (update_settings (own_conversation account c))
                  (rw (conversation_ask, t, e, n, u, v) at h) refl
            | inr v ↦
                is (delete_conversation (own_conversation account c))
                  (rw (conversation_ask, t, e, n, u, v) at h) refl
          ]
        ]
      ]
    ]
  ]
    where
      is : (b : Ask) → some b ≡ some a → IsFor account b → IsFor account a
      is b e o = subst (IsFor account) (Option.some-injective b a e) o

  conversations-Asks : Asks (conversations s codec account q)
  unfolding conversations
  conversations-Asks = elim (Option-cases s.conversations) [
    | inl e ↦ rw (conversations, e) tt
    | inr (execute, e) ↦ elim (Option-cases (conversation_ask codec account q)) [
      | inl f ↦ rw (conversations, e, f) tt
      | inr (a, f) ↦ elim (Option-cases (execute a)) [
        | inl g ↦ rw (conversations, e, f, g) (conversation_ask-IsFor a f, tt)
        | inr (bytes, g) ↦ rw (conversations, e, f, g) (conversation_ask-IsFor a f, tt)
      ]
    ]
  ]

  friends-Asks : Asks (friends s codec account q)
  unfolding friends
  friends-Asks = elim (Option-cases (codec.parse_friend q.payload)) [
    | inl e ↦ rw (friends, e) tt
    | inr (c, e) ↦ elim (Option-cases s.friends) [
      | inl f ↦ rw (friends, e, f) tt
      | inr (execute, f) ↦
          elim (Option-cases (execute (record c { actor = account; operation = q.type - 220 }))) [
            | inl g ↦ rw (friends, e, f, g) (refl, tt)
            | inr (a, g) ↦ rw (friends, e, f, g) (refl, tt)
          ]
    ]
  ]

  All-if : (b : Bool) (x y : Answer) → Asks x → Asks y → Asks (if b then x else y)
  All-if true x y h k = h
  All-if false x y h k = k

  pub answer-Asks : Asks (answer s codec account q)
  unfolding answer
  answer-Asks = All-if (q.type == 101) _ _ send-Asks (
      All-if (q.type == 250) _ _ group-Asks (
        All-if (q.type == 244) _ _ history-Asks (
          All-if (leb 240 q.type && leb q.type 243) _ _ conversations-Asks
            (All-if (leb 220 q.type && leb q.type 225) _ _ friends-Asks tt))))
