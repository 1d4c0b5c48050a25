-- ===== src/System/Worker.antt =====
-- realhf/system/model_worker.py, how a model worker receives requests and runs them (`_poll`).
-- A request is run when both it and its ack have arrived. The work on the GPU is a parameter: hooks
-- and calls change an environment, and none is an exception. The ids that a reply gets for a syn and
-- an ack of its own are read by nobody and left out. Loading data ahead is not modelled here.
pub mod Loop
pub mod History
pub mod Receive
pub mod Queue
pub mod Refinement
use rea_lhf.System.Dict
use rea_lhf.Base.{
  Bool, List, Option, [], assert, false, if◌then◌else◌, length, ltb, none, some, suc, true, zero, ℕ,
  ◌++◌, ◌==◌, ◌>>=◌, ◌∷◌,
}
use rea_lhf.System.Payload.{HandleName, HookName, Payload, ack, is_reset, syn}

-- An entry of the request queue.
pub record Item (D H : Type 0) : Type 0 where
  pub request : Payload D H
  pub input : D
  pub handled : Bool
  pub res : Option D

-- A reply to the master.
pub record Reply (D : Type 0) : Type 0 where
  pub request_id : ℕ
  pub handle_name : HandleName
  pub result : Option D

pub record Worker (D H E : Type 0) : Type 0 where
  pub stream : List (Payload D H)
  pub request_cache : List (ℕ × Payload D H)
  pub ack_cache : List (ℕ × Payload D H)
  pub request_queue : List (Item D H)
  -- A result of none is `NoResponse`.
  pub reply_queue : List (Payload D H × Option D)
  pub request_sample_size : List (ℕ × ℕ)
  pub posted : List (Reply D)
  pub env : E
  pub exited : Bool

-- A worker that has exited does nothing more.
abbrev pub unless_exited {ℓ} : {A : Type ℓ} → Bool → (A → Option A) → A → Option A
unless_exited true f a = some a
unless_exited false f a = f a

abbrev pub queue_size : ℕ
queue_size = 8

module _ {D H E : Type 0} where
  -- A message that is no ack is answered by a syn.
  abbrev pub accept : HandleName → Payload D H → Worker D H E → Worker D H E
  accept ack r w = record w { ack_cache = Dict.put r.request_id r w.ack_cache }
  accept _ r w = record w {
    posted =
        w.posted ++ record { request_id = r.syn_reply_id; handle_name = syn; result = none } ∷ [];
    request_cache = Dict.put r.ack_reply_id r w.request_cache;
  }

  -- `__maybe_receive_one_request`
  abbrev pub receive_from : List (Payload D H) → Worker D H E → Worker D H E
  receive_from [] w = w
  receive_from (r ∷ rs) w = accept r.handle_name r (record w { stream = rs })

  unfoldable pub receive_one : Worker D H E → Worker D H E
  receive_one w = receive_from w.stream w

  -- `put_nowait`, which raises Full.
  unfoldable pub enqueue : ℕ → Payload D H → Worker D H E → Option (Worker D H E)
  enqueue ack_id req w =
      if ltb (length w.request_queue) queue_size
      then some (record w {
        ack_cache = Dict.pop ack_id w.ack_cache;
        request_cache = Dict.pop ack_id w.request_cache;
        request_queue =
            w.request_queue
            ++ record { request = req; input = req.content; handled = false; res = none } ∷ [];
      })
      else none

  abbrev pub match_ack : ℕ → Option (Payload D H) → Worker D H E → Option (Worker D H E)
  unfolding enqueue
  match_ack ack_id none w = some w
  match_ack ack_id (some req) w = enqueue ack_id req w

  unfoldable pub match_acks : List ℕ → Worker D H E → Option (Worker D H E)
  unfolding enqueue
  match_acks [] w = some w
  match_acks (i ∷ is) w = match_ack i (Dict.get i w.request_cache) w >>= match_acks is

  unfoldable pub maybe_receive_requests : Worker D H E → Option (Worker D H E)
  unfolding receive_one match_acks
  maybe_receive_requests w = match_acks (Dict.keys (receive_one w).ack_cache) (receive_one w)

module _ {D H : Type 0} where
  -- The loop of `_poll` that looks for a reset, and turns the queue once round.
  unfoldable pub find_reset : ℕ → List (Item D H) → Bool × List (Item D H)
  find_reset zero q = (false, q)
  find_reset (suc n) [] = (false, [])
  find_reset (suc n) (x ∷ q) =
      if is_reset x.request.handle_name then (true, q) else find_reset n (q ++ x ∷ [])

module _ {H E : Type 0} (hook : HookName → H → E → Option E) where
  -- `while len(request.pre_hooks) > 0`
  unfoldable pub run_pre_hooks : List HookName → List H → E → Option E
  run_pre_hooks [] ds e = some e
  run_pre_hooks (h ∷ hs) [] e = none
  run_pre_hooks (h ∷ hs) (d ∷ ds) e =
      assert (length hs == length ds) >>= λ _. hook h d e >>= run_pre_hooks hs ds

  unfoldable pub run_zipped : List HookName → List H → E → Option E
  run_zipped [] ds e = some e
  run_zipped (h ∷ hs) [] e = some e
  run_zipped (h ∷ hs) (d ∷ ds) e = hook h d e >>= run_zipped hs ds

  unfoldable pub run_post_hooks : List HookName → List H → E → Option E
  unfolding run_zipped
  run_post_hooks [] ds e = some e
  run_post_hooks (h ∷ hs) ds e =
      assert (length (h ∷ hs) == length ds) >>= λ _. run_zipped (h ∷ hs) ds e

module _ {D H : Type 0} where
  -- The hooks of a request are gone once they were run.
  abbrev pub clear_hooks : Item D H → Item D H
  clear_hooks x = record x { request = record (x.request) { pre_hooks = []; pre_hook_data = [] } }

module _ {D H E : Type 0} (hook : HookName → H → E → Option E) where
  -- `handle_all_pre_hooks`: the drained queue, and the environment. The hooks of a request that was
  -- handled are not run.
  unfoldable pub pre_hooks_of : Item D H → E → Option (Item D H × E)
  unfolding run_pre_hooks
  pre_hooks_of x e =
      if x.handled
      then some (x, e)
      else run_pre_hooks hook x.request.pre_hooks x.request.pre_hook_data e >>= λ e'.
          some (clear_hooks x, e')

  unfoldable pub drain : List (Item D H) → E → Option (List (Item D H) × E)
  unfolding pre_hooks_of
  drain [] e = some ([], e)
  drain (x ∷ q) e = pre_hooks_of x e >>= λ r. drain q r.1 >>= λ s. some (r.0 ∷ s.0, s.1)
