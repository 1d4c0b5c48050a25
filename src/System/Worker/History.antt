-- ===== src/System/Worker/History.antt =====
-- What a model worker should do, by the messages that have arrived: `history` has the latest first.
use rea_lhf.Base.{
  Bool, List, Option, [], false, if◌then◌else◌, none, not, some, true, ℕ, ◌&&◌, ◌++◌, ◌==◌, ◌>>=◌,
  ◌||◌, ◌∷◌,
}
use rea_lhf.System.Dict.{is_some}
use rea_lhf.System.Payload.{HandleName, HookName, Payload, is_ack, is_reset, syn}
use rea_lhf.System.Worker.{Reply, run_post_hooks, run_pre_hooks, unless_exited}

module _ {D H : Type 0} where
  -- The request that awaits the ack `i`.
  abbrev pub requested : ℕ → List (Payload D H) → Option (Payload D H)
  requested i [] = none
  requested i (m ∷ history) =
      if not (is_ack m.handle_name) && m.ack_reply_id == i then some m else requested i history

  abbrev pub acked : ℕ → List (Payload D H) → Bool
  acked i [] = false
  acked i (m ∷ history) = is_ack m.handle_name && m.request_id == i || acked i history

  -- The ack that a message is, or that a request awaits.
  abbrev pub ack_id : Payload D H → ℕ
  ack_id m = if is_ack m.handle_name then m.request_id else m.ack_reply_id

  -- The request that is complete once `m` has arrived.
  unfoldable pub completes : List (Payload D H) → Payload D H → Option (Payload D H)
  completes history m =
      if is_ack m.handle_name
      then requested m.request_id history
      else if acked m.ack_reply_id history
      then some m
      else none

  -- There is one request with an ack id, and one ack for it.
  unfoldable pub fresh : List (Payload D H) → Payload D H → Bool
  fresh history m =
      if is_ack m.handle_name
      then not (acked m.request_id history)
      else not (is_some (requested m.ack_reply_id history))

  abbrev pub all_fresh : List (Payload D H) → List (Payload D H) → Bool
  all_fresh history [] = true
  all_fresh history (m ∷ ms) = fresh history m && all_fresh (m ∷ history) ms

module _ {D H : Type 0} where
  -- A request is answered by a syn at once.
  abbrev pub syn_for : Payload D H → List (Reply D)
  syn_for m =
      if is_ack m.handle_name
      then []
      else record { request_id = m.syn_reply_id; handle_name = syn; result = none } ∷ []

  abbrev pub reply_of : Payload D H → Option D → List (Reply D)
  reply_of r none = []
  reply_of r (some d) =
      record { request_id = r.request_id; handle_name = r.handle_name; result = some d } ∷ []

-- What the master and the GPUs see of a worker.
pub record Run (D E : Type 0) : Type 0 where
  pub env : E
  pub posted : List (Reply D)
  pub exited : Bool

module _ {D H E : Type 0} (hook : HookName → H → E → Option E)
    (call : ℕ → HandleName → D → E → Option (Option D × E)) where
  -- The pre-hooks, the call and the post-hooks of one request, and its reply.
  unfoldable pub run_request : Payload D H → Run D E → Option (Run D E)
  unfolding run_pre_hooks run_post_hooks
  run_request r s = run_pre_hooks hook r.pre_hooks r.pre_hook_data s.env >>= λ e.
      call r.handler r.handle_name r.content e >>= λ done.
      run_post_hooks hook r.post_hooks r.post_hook_data done.1 >>= λ e'.
      some (record s { env = e'; posted = s.posted ++ reply_of r done.0 })

  unfoldable pub execute : Option (Payload D H) → Run D E → Option (Run D E)
  unfolding run_request
  execute none s = some s
  execute (some r) s =
      if is_reset r.handle_name then some (record s { exited = true }) else run_request r s

  -- Each message in turn: a syn for a request, and then the request that is complete.
  unfoldable pub serve : List (Payload D H) → List (Payload D H) → Run D E → Option (Run D E)
  unfolding execute completes
  serve history [] s = some s
  serve history (m ∷ ms) s =
      unless_exited s.exited
        (λ t.
          execute (completes history m) (record t { posted = t.posted ++ syn_for m })
          >>= serve (m ∷ history) ms)
        s
