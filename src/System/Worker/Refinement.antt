-- ===== src/System/Worker/Refinement.antt =====
-- The model worker runs each request when the second of its two messages arrives.
use rea_lhf.System.Dict
use mathlib.Core.Option
use mathlib.Core.List.{append-nil}
use rea_lhf.Base.{
  Bool-cases, List, Option, Option-cases, [], ap, arith, inl, inr, length, none, refl, some, sym,
  true, ℕ, ◌++◌, ◌>>=◌, ◌∙◌, ◌∷◌, ◌≡◌,
}
use rea_lhf.System.Payload.{HandleName, HookName, Payload, is_reset}
use rea_lhf.System.Worker.{Worker, find_reset, run_post_hooks, run_pre_hooks, unless_exited}
use rea_lhf.System.Worker.History.{
  Run, ack_id, all_fresh, completes, execute, fresh, reply_of, run_request, serve, syn_for,
}
use rea_lhf.System.Worker.Loop.{poll, polls, run_queue, unless_reset}
use rea_lhf.System.Worker.Queue.{finished, item, run_queue_lem}
use rea_lhf.System.Worker.Receive.{
  Caches, arrived, arrived_rest, queued, receive_lem, settle, settle-Caches,
}

module _ {D H E : Type 0} (hook : HookName → H → E → Option E)
    (call : ℕ → HandleName → D → E → Option (Option D × E)) (samples : D → ℕ) where
  abbrev pub observe : Worker D H E → Run D E
  observe w = record { env = w.env; posted = w.posted; exited = w.exited }

  -- A worker that waits for its next message.
  pub record Ready (history ms : List (Payload D H)) (w : Worker D H E) : Type 0 where
    pub caches : Caches history w
    pub waiting : w.stream ≡ ms
    pub idle : w.request_queue ≡ []
    pub replied : w.reply_queue ≡ []

  -- Both raise, or both go on, and the worker shows what it should.
  abbrev Agree :
      List (Payload D H) → List (Payload D H) → Option (Worker D H E) → Option (Run D E) → Type 0
  Agree history ms none none = Unit
  Agree history ms (some w) (some s) = Ready history ms w × (observe w ≡ s)
  Agree history ms none (some s) = ⊥
  Agree history ms (some w) none = ⊥

  transfer :
      (history ms : List (Payload D H)) (v w : Worker D H E)
      → v.request_cache ≡ w.request_cache
      → v.ack_cache ≡ w.ack_cache
      → Caches history v
      → Caches history w
  transfer history ms v w e f c = record {
    requests = λ i. ap (Dict.get i) (sym e) ∙ c.requests i;
    acks = λ i. ap (Dict.has i) (sym f) ∙ c.acks i;
  }

  finished_agree :
      (history ms : List (Payload D H)) (r : Payload D H) (o : Option D) (e : E) (v : Worker D H E)
      → Caches history v
      → v.stream ≡ ms
      → Ready history ms (finished samples r o e v)
        × (observe (finished samples r o e v)
            ≡ record { env = e; posted = v.posted ++ reply_of r o; exited = v.exited })
  finished_agree history ms r none e v c s = (
    record {
      caches = record { requests = c.requests; acks = c.acks };
      waiting = s;
      idle = refl;
      replied = refl;
    },
    rw (append-nil v.posted) refl,
  )
  finished_agree history ms r (some d) e v c s = (
    record {
      caches = record { requests = c.requests; acks = c.acks };
      waiting = s;
      idle = refl;
      replied = refl;
    },
    refl,
  )

  run-Agree :
      (history ms : List (Payload D H)) (r : Payload D H) (v : Worker D H E)
      → v.request_queue ≡ item r ∷ []
      → v.reply_queue ≡ []
      → Caches history v
      → v.stream ≡ ms
      → Agree history ms (run_queue hook call samples v) (run_request hook call r (observe v))
  unfolding run_request
  run-Agree history ms r v q p c s =
      rw (run_queue_lem hook call samples r v q p)
        (elim (Option-cases (run_pre_hooks hook r.pre_hooks r.pre_hook_data v.env)) [
          | inl a ↦ rw a tt
          | inr (e, a) ↦ rw a (elim (Option-cases (call r.handler r.handle_name r.content e)) [
            | inl b ↦ rw b tt
            | inr (done, b) ↦
                rw b
                  (elim (Option-cases (run_post_hooks hook r.post_hooks r.post_hook_data done.1)) [
                    | inl k ↦ rw k tt
                    | inr (e', k) ↦ rw k (finished_agree history ms r done.0 e' v c s)
                  ])
          ])
        ])

  module _ (history ms : List (Payload D H)) (v : Worker D H E) (s : Run D E)
      (p : v.reply_queue ≡ []) (c : Caches history v) (w : v.stream ≡ ms) (o : observe v ≡ s) where
    idle-Agree :
        v.request_queue ≡ []
        → Agree history ms
            (unless_reset hook call samples (find_reset (length v.request_queue) v.request_queue) v)
            (some s)
    unfolding find_reset run_queue
    idle-Agree q =
        rw (q, p)
          (
            record {
              caches = record { requests = c.requests; acks = c.acks };
              waiting = w;
              idle = refl;
              replied = refl;
            },
            o,
          )

    busy-Agree :
        (r : Payload D H)
        → v.request_queue ≡ item r ∷ []
        → Agree history ms
            (unless_reset hook call samples (find_reset (length v.request_queue) v.request_queue) v)
            (execute hook call (some r) s)
    unfolding find_reset execute
    busy-Agree r q = elim (Bool-cases (is_reset r.handle_name)) [
      | inl e ↦
          rw (q, e)
            (
              record {
                caches = record { requests = c.requests; acks = c.acks };
                waiting = w;
                idle = refl;
                replied = p;
              },
              ap (λ (x : Run D E). record x { exited = true }) o,
            )
      | inr e ↦
          rw (q, e)
            (rw (← o) (
              run-Agree history ms r (record v { request_queue = item r ∷ [] }) refl p
                (record { requests = c.requests; acks = c.acks }) w))
    ]

  observe-arrived :
      (m : Payload D H) (ms : List (Payload D H)) (w : Worker D H E)
      → observe (arrived m ms w) ≡ record (observe w) { posted = w.posted ++ syn_for m }
  observe-arrived m ms w =
      let (q, p, s, e, x, o) = arrived_rest m ms w in
      λ i. record { env = e i; posted = o i; exited = x i }

  settled-Agree :
      (history ms : List (Payload D H)) (m : Payload D H) (o : Option (Payload D H))
      (w : Worker D H E) (c : Caches history w) (new : fresh history m ≡ true)
      → Ready history (m ∷ ms) w
      → Caches (m ∷ history) (settle history m ms w c new o)
      → Agree
          (m ∷ history)
          ms
          (unless_reset hook call samples
            (find_reset
              (length (settle history m ms w c new o).request_queue)
              (settle history m ms w c new o).request_queue)
            (settle history m ms w c new o))
          (execute hook call o (record (observe w) { posted = w.posted ++ syn_for m }))
  unfolding execute
  settled-Agree history ms m none w c new ready k =
      let (q, p, s, _, _, _) = arrived_rest m ms w in
      idle-Agree (m ∷ history) ms (arrived m ms w) _ (p ∙ ready.replied) k s
        (observe-arrived m ms w) (q ∙ ready.idle)
  settled-Agree history ms m (some r) w c new ready k =
      let (q, p, s, _, _, _) = arrived_rest m ms w in
      busy-Agree (m ∷ history) ms (queued (ack_id m) r (arrived m ms w)) _ (p ∙ ready.replied) k s
        (observe-arrived m ms w) r (ap (λ l. l ++ item r ∷ []) (q ∙ ready.idle))

  poll-Agree :
      (history ms : List (Payload D H)) (m : Payload D H) (w : Worker D H E)
      → Ready history (m ∷ ms) w
      → fresh history m ≡ true
      → Agree (m ∷ history) ms (poll hook call samples w) (
          execute hook call
            (completes history m)
            (record (observe w) { posted = w.posted ++ syn_for m }))
  unfolding poll
  poll-Agree history ms m w ready new =
      rw (receive_lem history m ms w ready.caches new ready.waiting ready.idle) (
        settled-Agree history ms m (completes history m) w ready.caches new ready
          (settle-Caches history m ms w ready.caches new))

  Agree-bind :
      (history ms : List (Payload D H)) (o : Option (Worker D H E)) (s : Option (Run D E))
      (f : Worker D H E → Option (Worker D H E)) (g : Run D E → Option (Run D E))
      → Agree history ms o s
      → ((w : Worker D H E) → Ready history ms w → Option.map observe (f w) ≡ g (observe w))
      → Option.map observe (o >>= f) ≡ (s >>= g)
  Agree-bind history ms none none f g a h = refl
  Agree-bind history ms none (some s) f g a h = absurd a
  Agree-bind history ms (some w) none f g a h = absurd a
  Agree-bind history ms (some w) (some s) f g a h = h w a.0 ∙ ap g a.1

  -- A model worker that waits for its next message, polled once for each message still to come, does what `serve`
  -- says: each request is answered by a syn when it arrives, and its pre-hooks, its call and its
  -- post-hooks are run, once and in this order, when the second of itself and its ack has arrived,
  -- before anything of a later message; the worker raises an error or exits at the same point, and no
  -- queue overflows. The condition is that no ack and no request comes twice.
  pub polls_lem :
      (ms history : List (Payload D H)) (w : Worker D H E)
      → Ready history ms w
      → all_fresh history ms ≡ true
      → Option.map observe (polls hook call samples (length ms) w)
        ≡ serve hook call history ms (observe w)
  unfolding polls serve
  polls_lem [] history w ready new = refl
  polls_lem (m ∷ ms) history w ready new =
      let go =
        λ (v : Worker D H E). poll hook call samples v >>= polls hook call samples (length ms) in
      let spec = λ (t : Run D E).
        execute hook call (completes history m) (record t { posted = t.posted ++ syn_for m })
        >>= serve hook call (m ∷ history) ms in
      elim (Bool-cases w.exited) [
        | inl x ↦
            ap (λ b. Option.map observe (unless_exited b go w)) x
            ∙ sym (ap (λ b. unless_exited b spec (observe w)) x)
        | inr x ↦
            ap (λ b. Option.map observe (unless_exited b go w)) x
            ∙ (Agree-bind (m ∷ history) ms (poll hook call samples w) _ _ _
                  (poll-Agree history ms m w ready (ground arith))
                  (λ w' r. polls_lem ms (m ∷ history) w' r (ground arith))
                ∙ sym (ap (λ b. unless_exited b spec (observe w)) x))
      ]
