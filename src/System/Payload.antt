-- ===== src/System/Payload.antt =====
-- realhf/system/request_reply_stream.py, the messages between the master and the model workers. Their
-- ids are random and are compared only, so they are numbers; so are handlers and names of models.
use rea_lhf.Base.{Bool, List, false, true, ℕ}

-- The names that `model_poll_step` knows, and those of the protocol.
pub data HandleName : Type 0 where
  ack : HandleName
  syn : HandleName
  reset : HandleName
  empty : HandleName
  initialize : HandleName
  model_config : HandleName
  fetch : HandleName
  spec : HandleName
  clear_data_cache : HandleName
  inference : HandleName
  generate : HandleName
  train_step : HandleName
  evaluate : HandleName
  save : HandleName

-- `hook == "…"`
pub data HookName : Type 0 where
  data_transfer : HookName
  param_realloc : HookName
  offload : HookName

-- `D` is the data of a message, and `H` that of a hook.
pub record Payload (D H : Type 0) : Type 0 where
  pub handler : ℕ
  pub handle_name : HandleName
  pub request_id : ℕ
  pub syn_reply_id : ℕ
  pub ack_reply_id : ℕ
  pub content : D
  pub pre_hooks : List HookName
  pub pre_hook_data : List H
  pub post_hooks : List HookName
  pub post_hook_data : List H

abbrev pub is_ack : HandleName → Bool
is_ack ack = true
is_ack _ = false

abbrev pub is_reset : HandleName → Bool
is_reset reset = true
is_reset _ = false
