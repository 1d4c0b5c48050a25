-- ===== src/System/Examples.antt =====
-- Concrete runs of the streams, of a model worker and of a call, and the theorems at them.
use mathlib.Core.Option
use rea_lhf.Base.{
  List, Option, [], arith, false, if◌then◌else◌, map, none, refl, some, sum_by, true, ℕ, ◌*◌, ◌++◌,
  ◌+◌, ◌==◌, ◌∷◌, ◌≡◌,
}
use rea_lhf.System.Client.{Client, from_buffer, matching, poll_block, take_out}
use rea_lhf.System.Client.Blocking.{poll_block_lem}
use rea_lhf.System.Client.Pending.{IsValid, pending}
use rea_lhf.System.Payload.{HandleName, HookName, Payload, data_transfer, param_realloc}
use rea_lhf.System.Requests.{
  Call, Cluster, Draft, offload_hook, param_realloc_hook, realloc_data, request_payloads,
  transfer_data,
}
use rea_lhf.System.Requests.Delivery.{transfers}
use rea_lhf.System.Requests.Outcome.{data_for, is_party, names_for, request_payloads_lem}
use rea_lhf.System.Requests.Parties.{at, load}
use rea_lhf.System.Worker.{Worker}
use rea_lhf.System.Worker.History.{all_fresh, fresh, serve}
use rea_lhf.System.Worker.Loop.{polls}
use rea_lhf.System.Worker.Refinement.{Ready, observe, polls_lem}

abbrev message : HandleName → ℕ → ℕ → ℕ → List ℕ → Payload ℕ ℕ
message n request syn_id ack_id hooks = record {
  handler = 0;
  handle_name = n;
  request_id = request;
  syn_reply_id = syn_id;
  ack_reply_id = ack_id;
  content = request;
  pre_hooks = map (λ k. param_realloc) hooks;
  pre_hook_data = hooks;
  post_hooks = [];
  post_hook_data = [];
}

abbrev plain : ℕ → Payload ℕ ℕ
plain i = message HandleName.empty i (i + 100) (i + 200) []

-- Reply 3 waits in the buffer, and 5 and 7 are still to come, each after a call of `recv` that finds
-- no message.
abbrev client : Client ℕ ℕ
client = record {
  recv_socket = none ∷ some (plain 5) ∷ none ∷ some (plain 7) ∷ [];
  response_buffer = (3, plain 3) ∷ [];
  handler_routing = (0, 0) ∷ [];
  sent = [];
}

client-IsValid : IsValid client
client-IsValid = record { keyed = (refl, tt); unique = λ r. ground arith }

poll_block_test : (poll_block 5 (λ i. i == 7) client).0 ≡ some (plain 7)
unfolding poll_block matching take_out from_buffer
poll_block_test = refl

poll_block_lem_example :
    (m : Payload ℕ ℕ) × (c' : Client ℕ ℕ) × (poll_block 5 (λ i. i == 7) client ≡ (some m, c'))
    × ((m.request_id == 7) ≡ true)
    × ((w : Payload ℕ ℕ → ℕ) → w m + sum_by w (pending c') ≡ sum_by w (pending client))
    × IsValid c'
poll_block_lem_example =
    poll_block_lem 5 (λ i. i == 7) client client-IsValid (omega arith) (omega arith)

-- The environment is the list of what was done: a hook by its data, a call by its request.
abbrev log_hook : HookName → ℕ → List ℕ → Option (List ℕ)
log_hook n d e = some (e ++ d ∷ [])

abbrev log_call : ℕ → HandleName → ℕ → List ℕ → Option (Option ℕ × List ℕ)
log_call h n d e = some (some d, e ++ d ∷ [])

-- Two requests arrive before their acks, and the acks arrive in the other order.
abbrev messages : List (Payload ℕ ℕ)
messages =
    message HandleName.empty 1 11 21 (91 ∷ [])
    ∷ message HandleName.inference 2 12 22 (92 ∷ [])
    ∷ message HandleName.ack 22 0 0 []
    ∷ message HandleName.ack 21 0 0 []
    ∷ []

abbrev worker : Worker ℕ ℕ (List ℕ)
worker = record {
  stream = messages;
  request_cache = [];
  ack_cache = [];
  request_queue = [];
  reply_queue = [];
  request_sample_size = [];
  posted = [];
  env = [];
  exited = false;
}

worker-Ready : Ready log_hook log_call (λ d. d) [] messages worker
worker-Ready = record {
  caches = record { requests = λ i. refl; acks = λ i. refl };
  waiting = refl;
  idle = refl;
  replied = refl;
}

polls_test :
    Option.map (λ (w : Worker ℕ ℕ (List ℕ)). w.env) (polls log_hook log_call (λ d. d) 4 worker)
    ≡ some (92 ∷ 2 ∷ 91 ∷ 1 ∷ [])
unfolding polls
polls_test = refl

polls_lem_example :
    Option.map (observe log_hook log_call (λ d. d)) (polls log_hook log_call (λ d. d) 4 worker)
    ≡ serve log_hook log_call [] messages (observe log_hook log_call (λ d. d) worker)
unfolding fresh
polls_lem_example =
    polls_lem log_hook log_call (λ d. d) messages [] worker worker-Ready all_fresh_messages
  where
    all_fresh_messages : all_fresh [] messages ≡ true
    all_fresh_messages = refl

-- Two models of two shards each; worker 1 has a shard of both. Before a call of model 0, parameters
-- come from model 1; after it, model 0 is offloaded.
abbrev cluster : Cluster
cluster = record {
  mwid = λ h. if h == 2 then 1 else if h == 3 then 2 else h;
  shards = λ m. if m == 0 then 0 ∷ 1 ∷ [] else 2 ∷ 3 ∷ [];
  uuids = λ h. (3 * h, 3 * h + 1, 3 * h + 2);
}

abbrev call : Call
call = record {
  name = 0;
  model_name = 0;
  interface = HandleName.train_step;
  pre_hooks = param_realloc_hook (some 1) none ∷ [];
  post_hooks = offload_hook ∷ [];
  producer_names = 0 ∷ [];
}

request_payloads_test :
    Option.map (λ (d : Draft). map (λ e. e.1.pre_hook_data) d.0) (request_payloads cluster call)
    ≡ some (
        (transfer_data ∷ realloc_data 1 0 ∷ [])
        ∷ (transfer_data ∷ realloc_data 1 0 ∷ [])
        ∷ (realloc_data 1 0 ∷ [])
        ∷ [])
unfolding request_payloads
request_payloads_test = refl

request_payloads_lem_example :
    (d : Draft) × (request_payloads cluster call ≡ some d)
    × ((w : ℕ) → load cluster w d.0 ≡ (if is_party cluster call w then 1 else 0))
    × ((w : ℕ)
        → at cluster (λ p. p.pre_hook_data) w d.0
          ≡ (if transfers cluster call w then transfer_data ∷ [] else [])
            ++ data_for cluster call call.pre_hooks w)
    × ((w : ℕ)
        → at cluster (λ p. p.pre_hooks) w d.0
          ≡ (if transfers cluster call w then data_transfer ∷ [] else [])
            ++ names_for cluster call call.pre_hooks w)
    × ((w : ℕ) → at cluster (λ p. p.post_hook_data) w d.0 ≡ data_for cluster call call.post_hooks w)
    × ((w : ℕ) → at cluster (λ p. p.post_hooks) w d.0 ≡ names_for cluster call call.post_hooks w)
request_payloads_lem_example = request_payloads_lem cluster call refl refl refl
