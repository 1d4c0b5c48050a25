-- ===== src/System/Worker/Loop.antt =====
-- realhf/system/model_worker.py, `model_poll_step`, `maybe_post_responses` and `_poll`.
use rea_lhf.System.Dict
use rea_lhf.Base.{
  Bool, List, Option, [], assert, false, length, none, not, some, suc, true, zero, ℕ, ◌++◌, ◌>>=◌,
  ◌∷◌,
}
use rea_lhf.System.Payload.{HandleName, HookName, Payload}
use rea_lhf.System.Worker.{
  Item, Worker, drain, find_reset, maybe_receive_requests, run_post_hooks, unless_exited,
}

-- `call` is the handler of a request by its name; its result of none is `NoResponse`. `samples` is the
-- number of samples in the data of a request.
module _ {D H E : Type 0} (hook : HookName → H → E → Option E)
    (call : ℕ → HandleName → D → E → Option (Option D × E)) (samples : D → ℕ) where
  unfoldable pub model_poll_step : Item D H → Worker D H E → Option (Worker D H E)
  unfolding run_post_hooks
  model_poll_step x w =
      let r = x.request in
      assert (not x.handled) >>= λ _. call r.handler r.handle_name x.input w.env >>= λ done.
      run_post_hooks hook r.post_hooks r.post_hook_data done.1 >>= λ e. some (record w {
        reply_queue = w.reply_queue ++ (r, done.0) ∷ [];
        request_sample_size = Dict.put r.request_id (samples x.input) w.request_sample_size;
        env = e;
      })

  abbrev pub step_first : List (Item D H) → Worker D H E → Option (Worker D H E)
  unfolding model_poll_step
  step_first [] w = some w
  step_first (x ∷ q) w = model_poll_step x (record w { request_queue = q })

  -- `maybe_post_responses`; the sample size is popped, and a missing one is a KeyError.
  abbrev pub post_reply : Payload D H → Option D → Worker D H E → Option (Worker D H E)
  post_reply r none w = some w
  post_reply r (some d) w = Dict.get r.request_id w.request_sample_size >>= λ _. some (record w {
    request_sample_size = Dict.pop r.request_id w.request_sample_size;
    posted =
        w.posted
        ++ record { request_id = r.request_id; handle_name = r.handle_name; result = some d } ∷ [];
  })

  abbrev pub post_first : List (Payload D H × Option D) → Worker D H E → Option (Worker D H E)
  post_first [] w = some w
  post_first ((r, res) ∷ q) w = post_reply r res (record w { reply_queue = q })

  unfoldable pub run_queue : Worker D H E → Option (Worker D H E)
  unfolding drain model_poll_step
  run_queue w = drain hook w.request_queue w.env >>= λ d.
      step_first d.0 (record w { request_queue = d.0; env = d.1 }) >>= λ w'.
      post_first w'.reply_queue w'

  abbrev pub unless_reset : Bool × List (Item D H) → Worker D H E → Option (Worker D H E)
  unless_reset (true, q) w = some (record w { request_queue = q; exited = true })
  unless_reset (false, q) w = run_queue (record w { request_queue = q })

  -- `_poll`
  unfoldable pub poll : Worker D H E → Option (Worker D H E)
  unfolding maybe_receive_requests find_reset run_queue
  poll w = maybe_receive_requests w >>= λ w'.
      unless_reset (find_reset (length w'.request_queue) w'.request_queue) w'

  -- A worker that has exited polls no more.
  unfoldable pub polls : ℕ → Worker D H E → Option (Worker D H E)
  unfolding poll
  polls zero w = some w
  polls (suc n) w = unless_exited w.exited (λ v. poll v >>= polls n) w
