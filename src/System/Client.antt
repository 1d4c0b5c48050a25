-- ===== src/System/Client.antt =====
-- realhf/system/request_reply_stream.py, `NameResolvingRequestClient`: the stream of the master worker.
-- A socket is the list of what `recv` with NOBLOCK will return, call by call: a message, or none where
-- no message has arrived yet, which is a ZMQError; so it is after the end of the list, too. A pattern is the test of
-- a request id that the regular expression makes.
pub mod Pending
pub mod Delivery
pub mod Blocking
use rea_lhf.System.Dict
use rea_lhf.Base.{Bool, List, Option, [], if◌then◌else◌, none, some, suc, zero, ℕ, ◌++◌, ◌>>=◌, ◌∷◌}
use rea_lhf.System.Payload.{Payload}

pub record Client (D H : Type 0) : Type 0 where
  pub recv_socket : List (Option (Payload D H))
  pub response_buffer : List (ℕ × Payload D H)
  pub handler_routing : List (ℕ × ℕ)
  -- What was sent, with the index of the socket.
  pub sent : List (ℕ × Payload D H)

module _ {D H : Type 0} where
  -- A handler without a route is a KeyError.
  unfoldable pub post : Payload D H → Client D H → Option (Client D H)
  post p c = Dict.get p.handler c.handler_routing >>= λ idx.
      some (record c { sent = c.sent ++ (idx, p) ∷ [] })

  unfoldable pub matching : (ℕ → Bool) → List (ℕ × Payload D H) → List (Payload D H)
  matching pattern [] = []
  matching pattern ((req_id, p) ∷ buf) =
      if pattern req_id then p ∷ matching pattern buf else matching pattern buf

  unfoldable pub take_out : List (Payload D H) → List (ℕ × Payload D H) → List (ℕ × Payload D H)
  take_out [] buf = buf
  take_out (p ∷ ps) buf = take_out ps (Dict.pop p.request_id buf)

  -- `if len(payloads) > 0: return payloads`; none is NoMessage.
  abbrev pub answer : List (Payload D H) → Option (List (Payload D H))
  answer [] = none
  answer (p ∷ ps) = some (p ∷ ps)

  unfoldable pub from_buffer :
      (ℕ → Bool) → List (ℕ × Payload D H) → Client D H → Option (List (Payload D H)) × Client D H
  unfolding matching take_out
  from_buffer pattern buf c = (
    answer (matching pattern buf),
    record c { response_buffer = take_out (matching pattern buf) buf },
  )

  abbrev pub from_socket :
      (ℕ → Bool)
      → List (Option (Payload D H))
      → Client D H
      → Option (List (Payload D H)) × Client D H
  from_socket pattern [] c = (none, c)
  from_socket pattern (none ∷ ms) c = (none, record c { recv_socket = ms })
  from_socket pattern (some m ∷ ms) c =
      from_buffer pattern (Dict.put m.request_id m c.response_buffer)
        (record c { recv_socket = ms })

  abbrev pub or_from_socket :
      (ℕ → Bool)
      → Client D H
      → Option (List (Payload D H)) × Client D H
      → Option (List (Payload D H)) × Client D H
  or_from_socket pattern c (some ps, c') = (some ps, c')
  or_from_socket pattern c (none, c') = from_socket pattern c.recv_socket c

  -- `_poll_batch_nonblock`
  unfoldable pub poll_batch_nonblock :
      (ℕ → Bool) → Client D H → Option (List (Payload D H)) × Client D H
  unfolding from_buffer
  poll_batch_nonblock pattern c = or_from_socket pattern c (from_buffer pattern c.response_buffer c)

  -- `poll_batch` that blocks, for `fuel` rounds of its loop.
  unfoldable pub poll_batch_block :
      ℕ → (ℕ → Bool) → Client D H → Option (List (Payload D H)) × Client D H
  unfolding poll_batch_nonblock
  poll_batch_block zero pattern c = (none, c)
  poll_batch_block (suc fuel) pattern c = elim (poll_batch_nonblock pattern c).0 [
    | some ps ↦ (some ps, (poll_batch_nonblock pattern c).1)
    | none ↦ poll_batch_block fuel pattern (poll_batch_nonblock pattern c).1
  ]

  abbrev pub store : List (Payload D H) → List (ℕ × Payload D H) → List (ℕ × Payload D H)
  store [] buf = buf
  store (p ∷ ps) buf = store ps (Dict.put p.request_id p buf)

  abbrev pub first : Option (List (Payload D H)) × Client D H → Option (Payload D H) × Client D H
  first (none, c) = (none, c)
  first (some [], c) = (none, c)
  first (some (p ∷ ps), c) = (some p, record c { response_buffer = store ps c.response_buffer })

  -- `poll`, with and without `block`.
  unfoldable pub poll : (ℕ → Bool) → Client D H → Option (Payload D H) × Client D H
  unfolding poll_batch_nonblock
  poll pattern c = first (poll_batch_nonblock pattern c)

  unfoldable pub poll_block : ℕ → (ℕ → Bool) → Client D H → Option (Payload D H) × Client D H
  unfolding poll_batch_block
  poll_block fuel pattern c = first (poll_batch_block fuel pattern c)
