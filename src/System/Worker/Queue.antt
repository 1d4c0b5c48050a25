-- ===== src/System/Worker/Queue.antt =====
-- What `run_queue` does with one request.
use rea_lhf.System.Dict
use rea_lhf.Base.{
  ==_refl, Option, Option-cases, [], false, inl, inr, none, refl, some, ℕ, ◌++◌, ◌>>=◌, ◌∷◌, ◌≡◌,
}
use rea_lhf.System.Payload.{HandleName, HookName, Payload}
use rea_lhf.System.Worker.{Item, Worker, clear_hooks, run_post_hooks, run_pre_hooks}
use rea_lhf.System.Worker.Loop.{post_first, run_queue}

abbrev pub item : {D H : Type 0} → Payload D H → Item D H
item r = record { request = r; input = r.content; handled = false; res = none }

module _ {D H E : Type 0} where
  -- The worker once request `r` was run, with its result and the environment after it.
  abbrev pub finished : (D → ℕ) → Payload D H → Option D → E → Worker D H E → Worker D H E
  finished samples r none e v = record v {
    request_queue = [];
    reply_queue = [];
    env = e;
    request_sample_size = Dict.put r.request_id (samples r.content) v.request_sample_size;
  }
  finished samples r (some d) e v = record v {
    request_queue = [];
    reply_queue = [];
    env = e;
    request_sample_size =
        Dict.pop r.request_id (Dict.put r.request_id (samples r.content) v.request_sample_size);
    posted =
        v.posted
        ++ record { request_id = r.request_id; handle_name = r.handle_name; result = some d } ∷ [];
  }

module _ {D H E : Type 0} (hook : HookName → H → E → Option E)
    (call : ℕ → HandleName → D → E → Option (Option D × E)) (samples : D → ℕ) where
  reply_lem :
      (r : Payload D H) (o : Option D) (e : E) (v : Worker D H E)
      → post_first hook call samples (((clear_hooks (item r)).request, o) ∷ []) (record v {
        request_queue = [];
        reply_queue = ((clear_hooks (item r)).request, o) ∷ [];
        env = e;
        request_sample_size = Dict.put r.request_id (samples r.content) v.request_sample_size;
      })
        ≡ some (finished samples r o e v)
  reply_lem r none e v = refl
  reply_lem r (some d) e v =
      rw
        (
          Dict.get-put r.request_id r.request_id (samples r.content) v.request_sample_size,
          ==_refl r.request_id,
        )
        refl

  pub run_queue_lem :
      (r : Payload D H) (v : Worker D H E)
      → v.request_queue ≡ item r ∷ []
      → v.reply_queue ≡ []
      → run_queue hook call samples v ≡ (
          run_pre_hooks hook r.pre_hooks r.pre_hook_data v.env >>= λ e.
          call r.handler r.handle_name r.content e >>= λ done.
          run_post_hooks hook r.post_hooks r.post_hook_data done.1 >>= λ e'.
          some (finished samples r done.0 e' v))
  unfolding run_queue
  run_queue_lem r v q p =
      rw q (elim (Option-cases (run_pre_hooks hook r.pre_hooks r.pre_hook_data v.env)) [
        | inl a ↦ rw a refl
        | inr (e, a) ↦ rw a (elim (Option-cases (call r.handler r.handle_name r.content e)) [
          | inl b ↦ rw b refl
          | inr (done, b) ↦
              rw b (elim (Option-cases (run_post_hooks hook r.post_hooks r.post_hook_data done.1)) [
                | inl c ↦ rw c refl
                | inr (e', c) ↦
                    rw (c, p)
                      (reply_lem r done.0 e'
                        (record v { request_queue = item r ∷ []; reply_queue = [] }))
              ])
        ])
      ])
