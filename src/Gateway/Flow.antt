-- ===== src/Gateway/Flow.antt =====
-- The steps of a session of src/gateway/ws_session.cpp between which others run: what is queued,
-- what is written, what is waited for, and the end.
use mathlib.Core.Option
use ape_server.Services.Redis.{Redis}
use ape_server.Gateway.Session.{
  Frame, Pending, Session, World, Moment, waiting, try_send, ended, leave, on_disconnect,
  queued_write, flying, taken, take_frame, put_down, write_ended, finish_write, is_pending,
  acknowledged,
}
use ape_server.Gateway.Deliver.{expect}
use ape_server.Prelude.{
  ◌≤◌, ◌≡◌, refl, sym, ap, ◌∙◌, subst, inl, inr, Bool, true, false, not, ◌||◌, Option, none, some,
  List, [], ◌∷◌, ◌++◌, Bytes, ◌==◌, ltb, length, length-append, if◌then◌else◌, Bool-cases,
  Option-cases, arith, delete,
}

pub if-any {ℓ κ} :
    {A : Type ℓ} (P : A → Type κ) (b : Bool) (x y : A)
    → (b ≡ true → P x)
    → (b ≡ false → P y)
    → P (if b then x else y)
if-any P true x y h k = h refl
if-any P false x y h k = k refl

module _ (r : Redis) where
  -- What was written is the beginning of what the queue took: all of it but what is being written and
  -- what still waits, up to the end of the session, after which nothing is pending and the socket is
  -- closed.
  pub record IsFlowing (s : Session) : Type 0 where
    pub rest : List Frame
    pub order : s.written ++ (flying s.writing ++ rest) ≡ s.accepted
    pub live : s.disconnected ≡ false → rest ≡ waiting s.queue
    pub short : length (waiting s.queue) ≤ 256
    pub released : s.disconnected ≡ true → s.pending ≡ []
    pub shut : s.disconnected ≡ true → s.closed ≡ true

  append_assoc : (xs ys zs : List Frame) → (xs ++ ys) ++ zs ≡ xs ++ (ys ++ zs)
  append_assoc [] ys zs = refl
  append_assoc (x ∷ xs) ys zs = ap (λ l. x ∷ l) (append_assoc xs ys zs)

  ended-IsFlowing : (s : Session) → IsFlowing s → IsFlowing (ended s)
  ended-IsFlowing s f = record {
    rest = f.rest;
    order = f.order;
    live = λ e. cc;
    short = f.short;
    released = λ e. refl;
    shut = λ e. refl;
  }

  pub on_disconnect-IsFlowing :
      (m : Moment) (w : World r) → IsFlowing w.session → IsFlowing (on_disconnect r m w).session
  unfolding on_disconnect leave
  on_disconnect-IsFlowing m w f =
      let e = ended-IsFlowing w.session f in
      if-any (λ (v : World r). IsFlowing v.session) w.session.disconnected _ _ (λ _. f)
        (λ _.
          if-any (λ (v : World r). IsFlowing v.session) (w.session.account == 0) _ _ (λ _. e)
            (λ _. e))

  try_send-IsFlowing :
      (f : Frame) (s t : Session) → try_send f s ≡ some t → IsFlowing s → IsFlowing t
  unfolding try_send
  try_send-IsFlowing f s t h i = elim (Option-cases s.queue) [
    | inl e ↦ cc (rw (try_send, e) at h)
    | inr (q, e) ↦ elim (Bool-cases (s.disconnected || not (ltb (length q) 256))) [
      | inl b ↦ cc (rw (try_send, e, b) at h)
      | inr b ↦ subst IsFlowing (Option.some-injective _ t (rw (try_send, e, b) at h)) (record {
        rest = i.rest ++ f ∷ [];
        order =
            ap (λ l. s.written ++ l) (sym (append_assoc (flying s.writing) i.rest (f ∷ [])))
            ∙ sym (append_assoc s.written (flying s.writing ++ i.rest) (f ∷ []))
            ∙ ap (λ l. l ++ f ∷ []) i.order;
        live = λ d. ap (λ l. l ++ f ∷ []) (i.live d ∙ ap waiting e);
        short = ground (arith, length-append q (f ∷ []));
        released = i.released;
        shut = i.shut;
      })
    ]
  ]

  pub queued_write-IsFlowing :
      (m : Moment) (f : Frame) (w : World r)
      → IsFlowing w.session
      → IsFlowing (queued_write r m f w).1.session
  unfolding queued_write
  queued_write-IsFlowing m f w i = elim (Option-cases (try_send f w.session)) [
    | inl e ↦ rw (queued_write, e) (on_disconnect-IsFlowing m w i)
    | inr (s, e) ↦ rw (queued_write, e) (try_send-IsFlowing f w.session s e i)
  ]

  taken-IsFlowing :
      (w : World r) (g : Option Frame) (o : Option (List Frame))
      → w.session.disconnected ≡ false
      → w.session.writing ≡ g
      → w.session.queue ≡ o
      → IsFlowing w.session
      → IsFlowing (taken r w g o).session
  taken-IsFlowing w (some g) o d e k i = i
  taken-IsFlowing w none none d e k i = i
  taken-IsFlowing w none (some []) d e k i = i
  taken-IsFlowing w none (some (f ∷ q)) d e k i =
      let all : i.rest ≡ f ∷ q = i.live d ∙ ap waiting k in
      record {
        rest = q;
        order =
            ap (λ l. w.session.written ++ l) (sym (ap (λ x. flying x ++ i.rest) e ∙ all)) ∙ i.order;
        live = λ _. refl;
        short = omega (arith, i.short, ap (λ o. length (waiting o)) k);
        released = i.released;
        shut = i.shut;
      }

  pub take_frame-IsFlowing :
      (w : World r) → IsFlowing w.session → IsFlowing (take_frame r w).session
  unfolding take_frame
  take_frame-IsFlowing w i =
      if-any (λ (v : World r). IsFlowing v.session) w.session.disconnected _ _ (λ _. i)
        (λ d. taken-IsFlowing w w.session.writing w.session.queue d refl refl i)

  -- A frame whose write fails is the first that is lost.
  put_down-IsFlowing :
      (m : Moment) (w : World r) (f : Frame)
      → w.session.writing ≡ some f
      → IsFlowing w.session
      → IsFlowing (on_disconnect r m (put_down r w)).session
  unfolding on_disconnect leave
  put_down-IsFlowing m w f e i =
      if-any (λ (v : World r). IsFlowing v.session) w.session.disconnected _ _
        (λ t. record {
          rest = f ∷ i.rest;
          order = order;
          live = λ x. cc;
          short = i.short;
          released = i.released;
          shut = i.shut;
        })
        (λ _.
          if-any (λ (v : World r). IsFlowing v.session) (w.session.account == 0) _ _ (λ _. over)
            (λ _. over))
    where
      order : w.session.written ++ (f ∷ i.rest) ≡ w.session.accepted
      order = ap (λ x. w.session.written ++ (flying x ++ i.rest)) (sym e) ∙ i.order

      over : IsFlowing (ended (put_down r w).session)
      over = record {
        rest = f ∷ i.rest;
        order = order;
        live = λ x. cc;
        short = i.short;
        released = λ _. refl;
        shut = λ _. refl;
      }

  write_ended-IsFlowing :
      (m : Moment) (ok : Bool) (w : World r) (g : Option Frame)
      → w.session.writing ≡ g
      → IsFlowing w.session
      → IsFlowing (write_ended r m ok w g).session
  write_ended-IsFlowing m ok w none e i = i
  write_ended-IsFlowing m false w (some f) e i = put_down-IsFlowing m w f e i
  write_ended-IsFlowing m true w (some f) e i = record {
    rest = i.rest;
    order =
        append_assoc w.session.written (f ∷ []) i.rest
        ∙ ap (λ x. w.session.written ++ (flying x ++ i.rest)) (sym e)
        ∙ i.order;
    live = i.live;
    short = i.short;
    released = i.released;
    shut = i.shut;
  }

  pub finish_write-IsFlowing :
      (m : Moment) (ok : Bool) (w : World r)
      → IsFlowing w.session
      → IsFlowing (finish_write r m ok w).session
  unfolding finish_write
  finish_write-IsFlowing m ok w i = write_ended-IsFlowing m ok w w.session.writing refl i

  pub expect-IsFlowing :
      (p : Pending) (w : World r)
      → w.session.disconnected ≡ false
      → IsFlowing w.session
      → IsFlowing (expect r p w).session
  unfolding expect
  expect-IsFlowing p w d i = record {
    rest = i.rest;
    order = i.order;
    live = i.live;
    short = i.short;
    released = λ e. cc;
    shut = i.shut;
  }

  pub acknowledged-IsFlowing :
      (id : Bytes) (w : World r) → IsFlowing w.session → IsFlowing (acknowledged r id w).session
  unfolding acknowledged delete
  acknowledged-IsFlowing id w i = record {
    rest = i.rest;
    order = i.order;
    live = i.live;
    short = i.short;
    released = λ e. ap (delete (is_pending r id)) (i.released e);
    shut = i.shut;
  }
