-- ===== src/System/Worker/Receive.antt =====
-- The caches of a model worker hold what has arrived of a request that is not complete.
use rea_lhf.System.Dict
use mathlib.Core.List.{append-nil}
use rea_lhf.Base.{
  Bool-cases, List, Option, [], arith, false, if◌then◌else◌, inl, inr, mem, none, not, refl, some,
  sym, true, ℕ, ℕ_discrete, ◌&&◌, ◌++◌, ◌==◌, ◌||◌, ◌∙◌, ◌∷◌, ◌≡◌, ◌≢◌,
}
use rea_lhf.System.Dict.{is_some}
use rea_lhf.System.Payload.{HandleName, Payload, is_ack, syn}
use rea_lhf.System.Worker.{
  Worker, accept, enqueue, match_acks, maybe_receive_requests, receive_from, receive_one,
}
use rea_lhf.System.Worker.History.{ack_id, acked, completes, fresh, requested, syn_for}

module _ {D H E : Type 0} where
  pub record Caches (history : List (Payload D H)) (w : Worker D H E) : Type 0 where
    pub requests :
        (i : ℕ)
        → Dict.get i w.request_cache ≡ (if acked i history then none else requested i history)
    pub acks :
        (i : ℕ) → Dict.has i w.ack_cache ≡ (acked i history && not (is_some (requested i history)))

  accept_ack :
      (n : HandleName) (r : Payload D H) (w : Worker D H E)
      → is_ack n ≡ true
      → accept n r w ≡ record w { ack_cache = Dict.put r.request_id r w.ack_cache }
  accept_ack HandleName.ack r w e = refl
  accept_ack _ r w e = cc

  accept_request :
      (n : HandleName) (r : Payload D H) (w : Worker D H E)
      → is_ack n ≡ false
      → accept n r w ≡ record w {
        posted =
            w.posted
            ++ record { request_id = r.syn_reply_id; handle_name = syn; result = none } ∷ [];
        request_cache = Dict.put r.ack_reply_id r w.request_cache;
      }
  accept_request HandleName.ack r w e = cc
  accept_request _ r w e = refl

  match_acks-none :
      (is : List ℕ) (w : Worker D H E)
      → ((i : ℕ) → mem i is ≡ true → Dict.get i w.request_cache ≡ none)
      → match_acks is w ≡ some w
  unfolding match_acks
  match_acks-none [] w h = refl
  match_acks-none (i ∷ is) w h =
      rw (h i (ground arith)) (match_acks-none is w (λ j m. h j (ground arith)))

  -- The worker once request `req` was moved to its queue.
  abbrev pub queued : ℕ → Payload D H → Worker D H E → Worker D H E
  queued a req w = record w {
    ack_cache = Dict.pop a w.ack_cache;
    request_cache = Dict.pop a w.request_cache;
    request_queue =
        w.request_queue
        ++ record { request = req; input = req.content; handled = false; res = none } ∷ [];
  }

  enqueue_lem :
      (a : ℕ) (req : Payload D H) (w : Worker D H E)
      → w.request_queue ≡ []
      → enqueue a req w ≡ some (queued a req w)
  unfolding enqueue
  enqueue_lem a req w q = ground arith

  match_acks_one :
      (is : List ℕ) (w : Worker D H E) (a : ℕ) (req : Payload D H)
      → w.request_queue ≡ []
      → Dict.get a w.request_cache ≡ some req
      → ((i : ℕ) → i ≢ a → mem i is ≡ true → Dict.get i w.request_cache ≡ none)
      → mem a is ≡ true
      → match_acks is w ≡ some (queued a req w)
  unfolding match_acks
  match_acks_one [] w a req q g h m = cc
  match_acks_one (i ∷ is) w a req q g h m = elim (ℕ_discrete i a) [
    | yes e ↦
        rw (e, g)
          (rw (enqueue_lem a req w q)
            (match_acks-none is (queued a req w) (λ j k. gone j (ℕ_discrete j a) k)))
    | no n ↦
        rw (h i n (ground arith))
          (match_acks_one is w a req q g (λ j d k. h j d (ground arith)) (ground arith))
  ]
    where
      gone :
          (j : ℕ) → Dec (j ≡ a) → mem j is ≡ true → Dict.get j (Dict.pop a w.request_cache) ≡ none
      gone j (yes e) k = ground (arith, Dict.get-pop a j w.request_cache)
      gone j (no n) k = ground (arith, Dict.get-pop a j w.request_cache, h j n)

  -- The worker with one more message in its caches.
  abbrev pub arrived : Payload D H → List (Payload D H) → Worker D H E → Worker D H E
  arrived m ms w = accept m.handle_name m (record w { stream = ms })

  arrived_requests :
      (m : Payload D H) (ms : List (Payload D H)) (w : Worker D H E) (i : ℕ)
      → Dict.get i (arrived m ms w).request_cache ≡ (
          if not (is_ack m.handle_name) && m.ack_reply_id == i
          then some m
          else Dict.get i w.request_cache)
  arrived_requests m ms w i = elim (Bool-cases (is_ack m.handle_name)) [
    | inl e ↦ rw (accept_ack m.handle_name m (record w { stream = ms }) e) (ground arith)
    | inr e ↦
        rw (accept_request m.handle_name m (record w { stream = ms }) e)
          (rw e (Dict.get-put m.ack_reply_id i m w.request_cache))
  ]

  arrived_acks :
      (m : Payload D H) (ms : List (Payload D H)) (w : Worker D H E) (i : ℕ)
      → Dict.has i (arrived m ms w).ack_cache
        ≡ (is_ack m.handle_name && m.request_id == i || Dict.has i w.ack_cache)
  arrived_acks m ms w i = elim (Bool-cases (is_ack m.handle_name)) [
    | inl e ↦
        rw (accept_ack m.handle_name m (record w { stream = ms }) e)
          (rw e (Dict.has-put m.request_id i m w.ack_cache))
    | inr e ↦ rw (accept_request m.handle_name m (record w { stream = ms }) e) (ground arith)
  ]

  -- What else is there once a message has arrived.
  pub arrived_rest :
      (m : Payload D H) (ms : List (Payload D H)) (w : Worker D H E)
      → ((arrived m ms w).request_queue ≡ w.request_queue)
        × ((arrived m ms w).reply_queue ≡ w.reply_queue)
        × ((arrived m ms w).stream ≡ ms)
        × ((arrived m ms w).env ≡ w.env)
        × ((arrived m ms w).exited ≡ w.exited)
        × ((arrived m ms w).posted ≡ w.posted ++ syn_for m)
  arrived_rest m ms w = elim (Bool-cases (is_ack m.handle_name)) [
    | inl e ↦
        rw (accept_ack m.handle_name m (record w { stream = ms }) e)
          (rw e (refl, refl, refl, refl, refl, sym (append-nil w.posted)))
    | inr e ↦
        rw (accept_request m.handle_name m (record w { stream = ms }) e)
          (rw e (refl, refl, refl, refl, refl, refl))
  ]

  arrived_queue :
      (m : Payload D H) (ms : List (Payload D H)) (w : Worker D H E)
      → (arrived m ms w).request_queue ≡ w.request_queue
  arrived_queue m ms w = elim (Bool-cases (is_ack m.handle_name)) [
    | inl e ↦ rw (accept_ack m.handle_name m (record w { stream = ms }) e) refl
    | inr e ↦ rw (accept_request m.handle_name m (record w { stream = ms }) e) refl
  ]

  module _ (history : List (Payload D H)) (m : Payload D H) (ms : List (Payload D H))
      (w : Worker D H E) (c : Caches history w) (new : fresh history m ≡ true) where
    -- Nothing of an earlier request is complete.
    others_incomplete :
        (i : ℕ)
        → i ≢ ack_id m
        → Dict.has i (arrived m ms w).ack_cache ≡ true
        → Dict.get i (arrived m ms w).request_cache ≡ none
    others_incomplete i n h =
        ground
          (arith, n, h, arrived_requests m ms w i, arrived_acks m ms w i, c.requests i, c.acks i)

    completed :
        (r : Payload D H)
        → completes history m ≡ some r
        → (Dict.get (ack_id m) (arrived m ms w).request_cache ≡ some r)
          × (Dict.has (ack_id m) (arrived m ms w).ack_cache ≡ true)
    unfolding completes fresh
    completed r e =
        let a = ack_id m in
        (
          ground (arith, e, new, arrived_requests m ms w a, c.requests a, c.acks a),
          ground (arith, e, new, arrived_acks m ms w a, c.requests a, c.acks a),
        )

    incomplete :
        completes history m ≡ none
        → Dict.has (ack_id m) (arrived m ms w).ack_cache ≡ true
        → Dict.get (ack_id m) (arrived m ms w).request_cache ≡ none
    unfolding completes fresh
    incomplete e h =
        let a = ack_id m in
        ground (
          arith,
          e,
          new,
          h,
          arrived_requests m ms w a,
          arrived_acks m ms w a,
          c.requests a,
          c.acks a,
        )

    abbrev pub settle : Option (Payload D H) → Worker D H E
    settle none = arrived m ms w
    settle (some r) = queued (ack_id m) r (arrived m ms w)

    keyed_once :
        (i : ℕ)
        → i ≢ ack_id m
        → mem i (Dict.keys (arrived m ms w).ack_cache) ≡ true
        → Dict.get i (arrived m ms w).request_cache ≡ none
    keyed_once i n k = others_incomplete i n (sym (Dict.mem-keys-has i _) ∙ k)

    settles :
        (o : Option (Payload D H))
        → w.request_queue ≡ []
        → completes history m ≡ o
        → match_acks (Dict.keys (arrived m ms w).ack_cache) (arrived m ms w) ≡ some (settle o)
    settles none q e =
        match_acks-none (Dict.keys (arrived m ms w).ack_cache) (arrived m ms w) λ i k.
          elim (ℕ_discrete i (ack_id m)) [
            | yes p ↦ rw p (incomplete e (rw p at (sym (Dict.mem-keys-has i _) ∙ k)))
            | no n ↦ keyed_once i n k
          ]
    settles (some r) q e =
        match_acks_one (Dict.keys (arrived m ms w).ack_cache) (arrived m ms w) (ack_id m) r
          (arrived_queue m ms w ∙ q) (completed r e).0 keyed_once
          (Dict.mem-keys-has (ack_id m) _ ∙ (completed r e).1)

    pub receive_lem :
        w.stream ≡ m ∷ ms
        → w.request_queue ≡ []
        → maybe_receive_requests w ≡ some (settle (completes history m))
    unfolding maybe_receive_requests receive_one
    receive_lem s q = rw (s, receive_from) (settles (completes history m) q refl)

    requests_after :
        (o : Option (Payload D H))
        → completes history m ≡ o
        → (i : ℕ)
        → Dict.get i (settle o).request_cache
          ≡ (if acked i (m ∷ history) then none else requested i (m ∷ history))
    unfolding completes fresh
    requests_after none e i = ground (arith, e, new, arrived_requests m ms w i, c.requests i)
    requests_after (some r) e i = ground (
      arith,
      e,
      new,
      arrived_requests m ms w i,
      c.requests i,
      Dict.get-pop (ack_id m) i (arrived m ms w).request_cache,
    )

    acks_after :
        (o : Option (Payload D H))
        → completes history m ≡ o
        → (i : ℕ)
        → Dict.has i (settle o).ack_cache
          ≡ (acked i (m ∷ history) && not (Dict.is_some (requested i (m ∷ history))))
    unfolding completes fresh
    acks_after none e i = ground (arith, e, new, arrived_acks m ms w i, c.acks i)
    acks_after (some r) e i = ground (
      arith,
      e,
      new,
      arrived_acks m ms w i,
      c.acks i,
      Dict.has-pop (ack_id m) i (arrived m ms w).ack_cache,
    )

    pub settle-Caches : Caches (m ∷ history) (settle (completes history m))
    settle-Caches = record {
      requests = requests_after (completes history m) refl;
      acks = acks_after (completes history m) refl;
    }
