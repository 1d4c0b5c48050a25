-- ===== src/System/Requests.antt =====
-- realhf/system/master_worker.py, the payloads of a model function call: `_request_model_function_call`
-- and `_attach_payloads_with_hooks`. A shard of a model, which is a handler, is a number, and so is a
-- model worker. Topologies, configurations and meta samples go along in the data of a hook and are
-- left out.
pub mod Parties
pub mod Extend
pub mod Attach
pub mod Payloads
pub mod Delivery
pub mod Outcome
use rea_lhf.System.Dict
use rea_lhf.Base.{
  Bool, List, Option, [], assert, if◌then◌else◌, map, mem, none, not, some, true, ℕ, ◌&&◌, ◌++◌,
  ◌==◌, ◌>>=◌, ◌∷◌,
}
use rea_lhf.System.Payload.{
  HandleName, HookName, Payload, data_transfer, empty, offload, param_realloc,
}

-- An entry of `_pre_hooks` or `_post_hooks` of a call (realhf/api/core/dfg.py).
pub data RpcHook : Type 0 where
  param_realloc_hook : (source target : Option ℕ) → RpcHook
  offload_hook : RpcHook

pub data HookData : Type 0 where
  transfer_data : HookData
  realloc_data : (from to : ℕ) → HookData
  offload_data : (model : ℕ) → HookData

-- `msid2mwid`, the shards of each model by its topology, and the three ids that the payload for a
-- handler draws.
pub record Cluster : Type 0 where
  pub mwid : ℕ → ℕ
  pub shards : ℕ → List ℕ
  pub uuids : ℕ → ℕ × ℕ × ℕ

abbrev pub Message : Type 0
Message = Payload (Option ℕ) HookData

abbrev pub Payloads : Type 0
Payloads = List (ℕ × Message)

-- The dict of payloads, and `mwids`.
abbrev pub Draft : Type 0
Draft = Payloads × List ℕ

-- `hook_type`
pub data HookType : Type 0 where
  pre : HookType
  post : HookType

-- The two appends to the lists of hooks and of their data.
abbrev pub append_hook : HookType → HookName → HookData → Message → Message
append_hook pre n x p = record p {
  pre_hooks = p.pre_hooks ++ n ∷ [];
  pre_hook_data = p.pre_hook_data ++ x ∷ [];
}
append_hook post n x p = record p {
  post_hooks = p.post_hooks ++ n ∷ [];
  post_hook_data = p.post_hook_data ++ x ∷ [];
}

abbrev pub blank_payload : Cluster → ℕ → HandleName → Option ℕ → Message
blank_payload c h n d = record {
  handler = h;
  handle_name = n;
  request_id = (c.uuids h).0;
  syn_reply_id = (c.uuids h).1;
  ack_reply_id = (c.uuids h).2;
  content = d;
  pre_hooks = [];
  pre_hook_data = [];
  post_hooks = [];
  post_hook_data = [];
}

-- `for h in main_handlers`; a handler without a payload is a KeyError.
unfoldable pub hook_mains : HookType → HookName → HookData → List ℕ → Payloads → Option Payloads
hook_mains t n x [] ps = some ps
hook_mains t n x (h ∷ hs) ps =
    assert (Dict.has h ps) >>= λ _. hook_mains t n x hs (Dict.modify h (append_hook t n x) ps)

-- `next(hh for hh in payloads if msid2mwid[hh] == …)`; none is StopIteration.
unfoldable pub handler_on : Cluster → ℕ → Payloads → Option ℕ
handler_on c w [] = none
handler_on c w ((h, p) ∷ ps) = if c.mwid h == w then some h else handler_on c w ps

-- One round of `for h in other_handlers`.
unfoldable pub hook_other :
    Cluster → HookType → HookName → HookData → List ℕ → ℕ → Draft → Option Draft
unfolding handler_on
hook_other c t n x main_mwids h (ps, mwids) =
    let hooked =
      handler_on c (c.mwid h) ps >>= λ hh. some (Dict.modify hh (append_hook t n x) ps, mwids) in
    if not (mem (c.mwid h) mwids)
    then some
        (Dict.put h (append_hook t n x (blank_payload c h empty none)) ps, mwids ++ c.mwid h ∷ [])
    else if not (mem (c.mwid h) main_mwids)
    then hooked
    else some (ps, mwids)

unfoldable pub hook_others :
    Cluster → HookType → HookName → HookData → List ℕ → List ℕ → Draft → Option Draft
unfolding hook_other
hook_others c t n x main_mwids [] d = some d
hook_others c t n x main_mwids (h ∷ hs) d =
    hook_other c t n x main_mwids h d >>= hook_others c t n x main_mwids hs

unfoldable pub hook_all :
    Cluster → HookType → HookName → HookData → List ℕ → List ℕ → Draft → Option Draft
unfolding hook_mains hook_others
hook_all c t n x mains others d =
    hook_mains t n x mains d.0 >>= λ ps. hook_others c t n x (map c.mwid mains) others (ps, d.1)

-- The assertion is that exactly one of source and target is given.
unfoldable pub attach_hook : Cluster → HookType → ℕ → List ℕ → RpcHook → Draft → Option Draft
unfolding hook_all
attach_hook c t model mains (param_realloc_hook none none) d = none
attach_hook c t model mains (param_realloc_hook none (some target)) d =
    hook_all c t param_realloc (realloc_data model target) mains (c.shards target) d
attach_hook c t model mains (param_realloc_hook (some source) none) d =
    hook_all c t param_realloc (realloc_data source model) mains (c.shards source) d
attach_hook c t model mains (param_realloc_hook (some source) (some target)) d = none
attach_hook c t model mains offload_hook d = hook_all c t offload (offload_data model) mains [] d

-- `_attach_payloads_with_hooks`
unfoldable pub attach_hooks : Cluster → HookType → ℕ → List ℕ → List RpcHook → Draft → Option Draft
unfolding attach_hook
attach_hooks c t model mains [] d = some d
attach_hooks c t model mains (k ∷ ks) d =
    attach_hook c t model mains k d >>= attach_hooks c t model mains ks

-- The call: its name, its model, the kind of its interface, its hooks, and its producers by key.
pub record Call : Type 0 where
  pub name : ℕ
  pub model_name : ℕ
  pub interface : HandleName
  pub pre_hooks : List RpcHook
  pub post_hooks : List RpcHook
  pub producer_names : List ℕ

abbrev pub main_payload : Cluster → Call → ℕ → Message
main_payload c r h =
    append_hook pre data_transfer transfer_data (blank_payload c h r.interface (some r.name))

abbrev pub main_payloads : Cluster → Call → List ℕ → Payloads → Payloads
main_payloads c r [] ps = ps
main_payloads c r (h ∷ hs) ps = main_payloads c r hs (Dict.put h (main_payload c r h) ps)

-- `len(mwids) == len(set(mwids))`
abbrev pub distinct : List ℕ → Bool
distinct [] = true
distinct (x ∷ xs) = not (mem x xs) && distinct xs

-- One round of the loops over the producers and their handlers.
abbrev pub add_producer : Cluster → ℕ → Draft → Draft
add_producer c h (ps, mwids) =
    if not (mem (c.mwid h) mwids)
    then (
      Dict.put h (append_hook pre data_transfer transfer_data (blank_payload c h empty none)) ps,
      mwids ++ c.mwid h ∷ [],
    )
    else (ps, mwids)

unfoldable pub add_producers : Cluster → List ℕ → Draft → Draft
add_producers c [] d = d
add_producers c (h ∷ hs) d = add_producers c hs (add_producer c h d)

abbrev pub producer_shards : Cluster → List ℕ → List ℕ
producer_shards c [] = []
producer_shards c (m ∷ ms) = c.shards m ++ producer_shards c ms

-- The payloads that `_request_model_function_call` posts.
unfoldable pub request_payloads : Cluster → Call → Option Draft
unfolding add_producers attach_hooks
request_payloads c r =
    let mains = c.shards r.model_name in
    assert (distinct (map c.mwid mains)) >>= λ _.
    attach_hooks c pre r.model_name mains r.pre_hooks (
      add_producers c (producer_shards c r.producer_names)
        (main_payloads c r mains [], map c.mwid mains))
    >>= attach_hooks c post r.model_name mains r.post_hooks
