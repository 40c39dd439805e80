-- ===== src/Queue/Ordered.antt =====
-- The order of the jobs of one lane, of the consumer of src/messagequeue/kafkaconsumer.cpp.
use ape_server.Prelude.{
  ℕ, ◌+◌, ◌≤◌, ◌<◌, ◌≡◌, refl, sym, ap, ◌∙◌, subst, ◌⊎◌, inl, inr, Bool, true, false, not, ◌&&◌,
  ◌||◌, List, [], ◌∷◌, ◌++◌, Bool-cases, ◌==◌, ==_iff, arith, All, All-append, All-mono, In,
  In-append, In-last,
}
use mathlib.Core.List.{append_assoc}
use ape_server.Queue.Consumer.{
  Job, Worker, idle, ended, taken, handling, handled, committing, delayed, Lane, leave, take_job,
  advance,
}

-- The job that a worker holds.
abbrev pub held : Worker → List Job
held idle = []
held ended = []
held (taken j) = j ∷ []
held (handling j) = j ∷ []
held (handled j) = j ∷ []
held (committing j) = j ∷ []
held (delayed j) = j ∷ []

-- Why a worker is through with a job: it is handled, of an earlier assignment, or all stops.
abbrev pub IsLeft : Bool → ℕ → List Job → Job → Type 0
IsLeft running generation completed e =
    In e completed ⊎ ((e.generation < generation) ⊎ (running ≡ false))

-- What is known of the jobs before the one whose generation was tested.
abbrev pub Passed : Worker → List Job → List Job → Type 0
Passed (handling j) left completed = All (IsLeft true j.generation completed) left
Passed (handled j) left completed = All (IsLeft true j.generation completed) left × In j completed
Passed (committing j) left completed =
    All (IsLeft true j.generation completed) left × In j completed
Passed w left completed = Unit

abbrev pub IsCommit : List Job → ℕ → Type 0
IsCommit completed o = (j : Job) × In j completed × (o ≡ j.offset + 1)

pub record IsOrdered (running : Bool) (generation : ℕ) (l : Lane) : Type 0 where
  pub order : l.arrived ≡ l.left ++ (held l.worker ++ l.jobs)
  pub known : All (λ (e : Job). e.generation ≤ generation) l.arrived
  pub through : All (IsLeft running generation l.completed) l.left
  pub passed : Passed l.worker l.left l.completed
  pub committed : All (IsCommit l.completed) l.commits

module _ (running : Bool) (generation : ℕ) (completed : List Job) (j : Job) where
  IsLeft-completed :
      (e : Job)
      → IsLeft running generation completed e
      → IsLeft running generation (completed ++ j ∷ []) e
  IsLeft-completed e (inl h) = inl (In-append e completed (j ∷ []) h)
  IsLeft-completed e (inr h) = inr h

IsCommit-completed :
    (completed : List Job) (j : Job) (o : ℕ)
    → IsCommit completed o
    → IsCommit (completed ++ j ∷ []) o
IsCommit-completed completed j o h = (h.0, In-append h.0 completed (j ∷ []) h.1, h.2)

All-right {κ} : {A : Type 0} (P : A → Type κ) (xs ys : List A) → All P (xs ++ ys) → All P ys
All-right P [] ys h = h
All-right P (x ∷ xs) ys h = All-right P xs ys h.1

abbrev IsKnown : ℕ → List Job → Type 0
IsKnown generation = All (λ (e : Job). e.generation ≤ generation)

module _ (running : Bool) (generation : ℕ) (l : Lane) (s : IsOrdered running generation l) where
  pub order_at : (w : Worker) → l.worker ≡ w → l.arrived ≡ l.left ++ (held w ++ l.jobs)
  order_at w e = subst (λ v. l.arrived ≡ l.left ++ (held v ++ l.jobs)) e s.order

  pub Passed-at : (w : Worker) → l.worker ≡ w → Passed w l.left l.completed
  Passed-at w e = subst (λ v. Passed v l.left l.completed) e s.passed

  generation_of : (j : Job) → l.arrived ≡ l.left ++ (j ∷ l.jobs) → j.generation ≤ generation
  generation_of j e =
      (All-right (λ (x : Job). x.generation ≤ generation) l.left (j ∷ l.jobs)
        (subst (IsKnown generation) e s.known)).0

  -- The worker is through with a job.
  leave-IsOrdered :
      (j : Job)
      → l.arrived ≡ l.left ++ (j ∷ l.jobs)
      → IsLeft running generation l.completed j
      → IsOrdered running generation (leave j l)
  leave-IsOrdered j e h = record {
    order = e ∙ sym (append_assoc l.left (j ∷ []) l.jobs);
    known = s.known;
    through = All-append (IsLeft running generation l.completed) l.left (j ∷ []) s.through (h, tt);
    passed = tt;
    committed = s.committed;
  }

  take_job-IsOrdered :
      (js : List Job) → l.jobs ≡ js → l.worker ≡ idle → IsOrdered running generation (take_job js l)
  take_job-IsOrdered [] e w = s
  take_job-IsOrdered (j ∷ js) e w = record {
    order = order_at idle w ∙ ap (λ ks. l.left ++ ks) e;
    known = s.known;
    through = s.through;
    passed = tt;
    committed = s.committed;
  }

  -- A worker that holds the same job at another point.
  hold-IsOrdered :
      (w v : Worker)
      → l.worker ≡ w
      → held w ≡ held v
      → Passed v l.left l.completed
      → IsOrdered running generation (record l { worker = v })
  hold-IsOrdered w v e h p = record {
    order = order_at w e ∙ ap (λ ks. l.left ++ (ks ++ l.jobs)) h;
    known = s.known;
    through = s.through;
    passed = p;
    committed = s.committed;
  }

  complete-IsOrdered :
      (j : Job)
      → l.worker ≡ handling j
      → IsOrdered running generation
          (record l { worker = handled j; completed = l.completed ++ j ∷ [] })
  complete-IsOrdered j e = record {
    order = order_at (handling j) e;
    known = s.known;
    through =
        All-mono (IsLeft running generation l.completed)
          (IsLeft running generation (l.completed ++ j ∷ [])) l.left
          (IsLeft-completed running generation l.completed j) s.through;
    passed = (
      All-mono (IsLeft true j.generation l.completed)
          (IsLeft true j.generation (l.completed ++ j ∷ [])) l.left
          (IsLeft-completed true j.generation l.completed j) (Passed-at (handling j) e),
      In-last j l.completed,
    );
    committed =
        All-mono (IsCommit l.completed) (IsCommit (l.completed ++ j ∷ [])) l.commits
          (IsCommit-completed l.completed j) s.committed;
  }

  commit-IsOrdered :
      (j : Job)
      → In j l.completed
      → IsOrdered running generation (record l { commits = l.commits ++ (j.offset + 1) ∷ [] })
  commit-IsOrdered j h = record {
    order = s.order;
    known = s.known;
    through = s.through;
    passed = s.passed;
    committed =
        All-append (IsCommit l.completed) l.commits ((j.offset + 1) ∷ []) s.committed
          ((j, h, refl), tt);
  }

-- A job that is not taken up belongs to an earlier assignment, or all stops.
dropped :
    (running : Bool) (generation : ℕ) (completed : List Job) (j : Job)
    → j.generation ≤ generation
    → (running && j.generation == generation) ≡ false
    → IsLeft running generation completed j
dropped false generation completed j h e = inr (inr refl)
dropped true generation completed j h e = inr (inl (ground arith))

current :
    (running : Bool) (generation : ℕ) (l : Lane) (j : Job)
    → IsOrdered running generation l
    → (running && j.generation == generation) ≡ true
    → All (IsLeft true j.generation l.completed) l.left
current false generation l j s e = cc
current true generation l j s e =
    subst (λ g. All (IsLeft true g l.completed) l.left) (sym ((==_iff j.generation generation).0 e))
      s.through

pub advance-IsOrdered :
    (running : Bool) (generation : ℕ) (answer : Bool) (w : Worker) (l : Lane)
    → l.worker ≡ w
    → IsOrdered running generation l
    → IsOrdered running generation (advance running generation answer w l)
unfolding advance
advance-IsOrdered true g answer idle l e s = take_job-IsOrdered true g l s l.jobs refl e
advance-IsOrdered false g answer idle l e s = hold-IsOrdered false g l s idle ended e refl tt
advance-IsOrdered r g answer (taken j) l e s = elim (Bool-cases (r && j.generation == g)) [
  | inl t ↦ rw t (hold-IsOrdered r g l s (taken j) (handling j) e refl (current r g l j s t))
  | inr t ↦
      let at : l.arrived ≡ l.left ++ (j ∷ l.jobs) = order_at r g l s (taken j) e in
      rw t (leave-IsOrdered r g l s j at (dropped r g l.completed j (generation_of r g l s j at) t))
]
advance-IsOrdered r g true (handling j) l e s = complete-IsOrdered r g l s j e
advance-IsOrdered r g false (handling j) l e s =
    hold-IsOrdered r g l s (handling j) (delayed j) e refl tt
advance-IsOrdered r g answer (handled j) l e s =
    elim (Bool-cases (not (j.generation == g) || not r)) [
      | inl t ↦ rw t (
          leave-IsOrdered r g l s j (order_at r g l s (handled j) e)
            (inl (Passed-at r g l s (handled j) e).1))
      | inr t ↦ rw t (
          hold-IsOrdered r g l s (handled j) (committing j) e refl
            (Passed-at r g l s (handled j) e))
    ]
advance-IsOrdered r g true (committing j) l e s =
    leave-IsOrdered r g (record l { commits = l.commits ++ (j.offset + 1) ∷ [] })
      (commit-IsOrdered r g l s j (Passed-at r g l s (committing j) e).1) j
      (order_at r g l s (committing j) e) (inl (Passed-at r g l s (committing j) e).1)
advance-IsOrdered r g false (committing j) l e s =
    hold-IsOrdered r g l s (committing j) (delayed j) e refl tt
advance-IsOrdered r g answer (delayed j) l e s =
    hold-IsOrdered r g l s (delayed j) (taken j) e refl tt
advance-IsOrdered r g answer ended l e s = s
