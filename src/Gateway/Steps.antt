-- ===== src/Gateway/Steps.antt =====
-- A session of src/gateway/ws_session.cpp from its registration on, in any order of its steps and of
-- those of other sessions.
use mathlib.Core.Option
use ape_server.Services.Redis.{Redis}
use ape_server.Outbox.Data.{Message}
use ape_server.Gateway.Sessions.{Entry, register_session, unregister_session, push_to_user}
use ape_server.Gateway.Gauge
use ape_server.Gateway.Session.{
  Frame, Session, World, Moment, Ask, try_send, leave, on_disconnect, queued_write, async_send,
  taken, take_frame, put_down, write_ended, finish_write, flying, acknowledged, close_socket,
  accept, start_write_queue,
}
use ape_server.Gateway.Deliver.{expect, queue_offline}
use ape_server.Gateway.Flow.{
  if-any, IsFlowing, on_disconnect-IsFlowing, queued_write-IsFlowing, take_frame-IsFlowing,
  finish_write-IsFlowing, expect-IsFlowing, acknowledged-IsFlowing,
}
use ape_server.Gateway.Listed.{
  is_session, IsListed, others_register, others_unregister, others_push, unregister-over,
  register-IsListed,
}
use ape_server.Prelude.{
  ℕ, ◌≡◌, refl, sym, ap, ◌∙◌, subst, inl, inr, Bool, true, false, not, ◌||◌, Option, none, some,
  List, [], ◌∷◌, ◌++◌, Bytes, ◌==◌, ltb, length, Bool-cases, Option-cases, arith, All,
}

module _ (r : Redis) where
  pub record IsOrderly (w : World r) : Type 0 where
    pub flow : IsFlowing r w.session
    pub listed : IsListed w.session.id w.session.account w.session.disconnected w.manager
    pub real : (w.session.account == 0) ≡ false

  -- What can happen next. The store and the calls may change in any way.
  pub data Step (w : World r) : World r → Type 0 where
    queued : (m : Moment) (f : Frame) → Step w (queued_write r m f w).1
    sent : (m : Moment) (f : Frame) → Step w (async_send r m f w)
    took : Step w (take_frame r w)
    wrote : (m : Moment) (succeeds : Bool) → Step w (finish_write r m succeeds w)
    offered :
        (m : Moment) (serialize : Message → Bytes) (msg : Message)
        → Step w (queue_offline r m serialize msg w).1
    confirmed : (id : Bytes) → Step w (acknowledged r id w)
    shut : Step w (close_socket r w)
    disconnected : (m : Moment) → Step w (on_disconnect r m w)
    changed :
        (store : r.Store) (calls : List Ask) → Step w (record w { store = store; calls = calls })
    other_registered :
        (account session : ℕ)
        → (session == w.session.id) ≡ false
        → Step w (record w { manager = register_session account session w.manager })
    other_ended :
        (account session : ℕ)
        → Step w (record w { manager = (unregister_session account session w.manager).1 })
    pushed :
        (account : ℕ) (payload : Bytes)
        → Step w (record w { manager = (push_to_user account payload w.manager).1 })

  -- A connection that is new: nothing was queued, and no session is registered under its address.
  pub record IsNew (w : World r) : Type 0 where
    pub sound : Gauge.IsSound w.manager
    pub unknown : All (λ (e : Entry). is_session w.session.id e ≡ false) w.manager.sessions
    pub fresh : w.session.disconnected ≡ false
    pub idle : w.session.accepted ≡ []
    pub silent : w.session.written ≡ []
    pub quiet : w.session.writing ≡ none

  pub data Reach : World r → Type 0 where
    begin :
        (account : ℕ) (w : World r) → IsNew w → (account == 0) ≡ false → Reach (accept r account w)
    after : {w w' : World r} → Reach w → Step w w' → Reach w'

  over {ℓ} : {A : Type ℓ} {b : Bool} → b ≡ true → b ≡ false → A
  over t f = cc

  accept-IsOrderly :
      (account : ℕ) (w : World r)
      → IsNew w
      → (account == 0) ≡ false
      → IsOrderly (accept r account w)
  unfolding accept start_write_queue
  accept-IsOrderly account w n z = record {
    flow = record {
      rest = [];
      order =
          ap (λ l. l ++ (flying w.session.writing ++ [])) n.silent
          ∙ ap (λ x. flying x ++ []) n.quiet
          ∙ sym n.idle;
      live = λ _. refl;
      short = omega arith;
      released = λ e. over e n.fresh;
      shut = λ e. over e n.fresh;
    };
    listed =
        subst
          (λ d. IsListed w.session.id account d (register_session account w.session.id w.manager))
          (sym n.fresh) (register-IsListed w.session.id account w.manager n.sound n.unknown);
    real = z;
  }

  -- The part of it that is about the manager.
  abbrev IsRegistered : World r → Type 0
  IsRegistered w =
      IsListed w.session.id w.session.account w.session.disconnected w.manager
      × ((w.session.account == 0) ≡ false)

  on_disconnect-IsRegistered :
      (m : Moment) (w : World r) → IsRegistered w → IsRegistered (on_disconnect r m w)
  unfolding on_disconnect leave
  on_disconnect-IsRegistered m w l =
      if-any IsRegistered w.session.disconnected _ _ (λ _. l)
        (λ _.
          if-any IsRegistered (w.session.account == 0) _ _ (λ t. over t l.1)
            (λ _. (
              unregister-over w.session.id w.session.account w.session.disconnected w.manager l.0,
              l.1,
            )))

  try_send-IsRegistered :
      (f : Frame) (t : Session) (w : World r)
      → try_send f w.session ≡ some t
      → IsRegistered w
      → IsRegistered (record w { session = t })
  unfolding try_send
  try_send-IsRegistered f t w h l = elim (Option-cases w.session.queue) [
    | inl e ↦ cc (rw (try_send, e) at h)
    | inr (q, e) ↦ elim (Bool-cases (w.session.disconnected || not (ltb (length q) 256))) [
      | inl b ↦ cc (rw (try_send, e, b) at h)
      | inr b ↦
          subst (λ (x : Session). IsRegistered (record w { session = x }))
            (Option.some-injective _ t (rw (try_send, e, b) at h)) l
    ]
  ]

  queued_write-IsRegistered :
      (m : Moment) (f : Frame) (w : World r)
      → IsRegistered w
      → IsRegistered (queued_write r m f w).1
  unfolding queued_write
  queued_write-IsRegistered m f w l = elim (Option-cases (try_send f w.session)) [
    | inl e ↦ rw (queued_write, e) (on_disconnect-IsRegistered m w l)
    | inr (t, e) ↦ rw (queued_write, e) (try_send-IsRegistered f t w e l)
  ]

  take_frame-IsRegistered : (w : World r) → IsRegistered w → IsRegistered (take_frame r w)
  unfolding take_frame
  take_frame-IsRegistered w l =
      if-any IsRegistered w.session.disconnected _ _ (λ _. l)
        (λ _. turn w.session.writing w.session.queue)
    where
      turn : (g : Option Frame) (o : Option (List Frame)) → IsRegistered (taken r w g o)
      turn none none = l
      turn none (some []) = l
      turn none (some (f ∷ q)) = l
      turn (some g) o = l

  finish_write-IsRegistered :
      (m : Moment) (succeeds : Bool) (w : World r)
      → IsRegistered w
      → IsRegistered (finish_write r m succeeds w)
  unfolding finish_write
  finish_write-IsRegistered m succeeds w l = turn w.session.writing
    where
      turn : (g : Option Frame) → IsRegistered (write_ended r m succeeds w g)
      turn none = l
      turn (some f) =
          if-any IsRegistered succeeds _ _ (λ _. l)
            (λ _. on_disconnect-IsRegistered m (put_down r w) l)

  sound : (w : World r) → IsFlowing r w.session → IsRegistered w → IsOrderly w
  sound w f l = record { flow = f; listed = l.0; real = l.1 }

  queued_write-IsOrderly :
      (m : Moment) (f : Frame) (w : World r) → IsOrderly w → IsOrderly (queued_write r m f w).1
  queued_write-IsOrderly m f w s =
      sound _ (queued_write-IsFlowing r m f w s.flow)
        (queued_write-IsRegistered m f w (s.listed, s.real))

  Step-IsOrderly : {w w' : World r} → Step w w' → IsOrderly w → IsOrderly w'
  unfolding async_send queue_offline expect acknowledged close_socket
  Step-IsOrderly (queued m f) s = queued_write-IsOrderly m f _ s
  Step-IsOrderly {w} (sent m f) s =
      if-any IsOrderly w.session.disconnected _ _ (λ _. s) (λ _. queued_write-IsOrderly m f w s)
  Step-IsOrderly {w} took s =
      sound _ (take_frame-IsFlowing r w s.flow) (take_frame-IsRegistered w (s.listed, s.real))
  Step-IsOrderly {w} (wrote m b) s =
      sound _ (finish_write-IsFlowing r m b w s.flow)
        (finish_write-IsRegistered m b w (s.listed, s.real))
  Step-IsOrderly {w} (offered m serialize msg) s =
      if-any (λ (p : Bool × World r). IsOrderly p.1) w.session.disconnected _ _ (λ _. s)
        (λ d.
          queued_write-IsOrderly m _ _
            (sound (expect r _ w) (expect-IsFlowing r _ w d s.flow) (s.listed, s.real)))
  Step-IsOrderly {w} (confirmed id) s =
      sound _ (acknowledged-IsFlowing r id w s.flow) (s.listed, s.real)
  Step-IsOrderly {w} shut s =
      let f = s.flow in
      sound _
        (record {
          rest = f.rest;
          order = f.order;
          live = f.live;
          short = f.short;
          released = f.released;
          shut = λ _. refl;
        })
        (s.listed, s.real)
  Step-IsOrderly {w} (disconnected m) s =
      sound _ (on_disconnect-IsFlowing r m w s.flow)
        (on_disconnect-IsRegistered m w (s.listed, s.real))
  Step-IsOrderly (changed store calls) s = record {
    flow = s.flow;
    listed = s.listed;
    real = s.real;
  }
  Step-IsOrderly {w} (other_registered account session n) s = record {
    flow = s.flow;
    listed = others_register _ _ _ w.manager s.listed account session n;
    real = s.real;
  }
  Step-IsOrderly {w} (other_ended account session) s = record {
    flow = s.flow;
    listed = others_unregister _ _ _ w.manager s.listed account session;
    real = s.real;
  }
  Step-IsOrderly {w} (pushed account payload) s = record {
    flow = s.flow;
    listed = others_push _ _ _ w.manager s.listed account payload;
    real = s.real;
  }

  -- From the registration of a new session on, in whatever order its coroutines and other sessions
  -- take their steps: what was written from the queue is, in order, the beginning of what the queue
  -- took, and all of it but the frame that is being written and what waits there while the session
  -- lasts; the queue holds at most 256 frames; the manager holds the session only under its own account; and once it ended, its socket
  -- is closed, nothing is pending and the manager does not hold it.
  pub Reach-IsOrderly : {w : World r} → Reach w → IsOrderly w
  Reach-IsOrderly (begin account w n z) = accept-IsOrderly account w n z
  Reach-IsOrderly (after reached step) = Step-IsOrderly step (Reach-IsOrderly reached)
