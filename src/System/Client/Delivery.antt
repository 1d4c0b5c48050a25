-- ===== src/System/Client/Delivery.antt =====
-- What `poll_batch` and `poll` deliver.
use rea_lhf.System.Dict
use mathlib.Core.List.{append_assoc}
use rea_lhf.Base.{
  Bool, List, Option, Option-cases, [], ap, arith, false, inl, inr, none, refl, some, sum_by, ℕ,
  ◌++◌, ◌+◌, ◌∷◌, ◌≡◌, ◌≤◌,
}
use rea_lhf.System.Client.{
  Client, answer, from_buffer, from_socket, matching, poll_batch_nonblock, take_out,
}
use rea_lhf.System.Client.Pending.{
  AllMatch, AllMatch-matching, IsValid, Keyed, NoMatch, NoMatch-rest, arrivals, copies, delivered,
  has-copies, payloads, pending, rest, rest-Keyed, sum_by-append, sum_by-rest, take_out-matching,
  with_id,
}
use rea_lhf.System.Payload.{Payload}

module _ {D H : Type 0} where
  -- `ps` was delivered, and left `c`, where `before` was pending.
  pub record Polled (pattern : ℕ → Bool) (before ps : List (Payload D H)) (c : Client D H)
      : Type 0 where
    -- Whatever is summed over the messages: none is lost, and none is doubled.
    pub conserved : (w : Payload D H → ℕ) → sum_by w ps + sum_by w (pending c) ≡ sum_by w before
    pub valid : IsValid c
    pub match : AllMatch pattern ps
    pub left : NoMatch pattern (payloads c.response_buffer)

  answered : (ps : List (Payload D H)) → delivered (answer ps) ≡ ps
  answered [] = refl
  answered (p ∷ ps) = refl

  from_buffer_lem :
      (pattern : ℕ → Bool) (buf : List (ℕ × Payload D H)) (c : Client D H)
      → Keyed buf
      → ((r : ℕ) → copies r (payloads buf ++ arrivals c.recv_socket) ≤ 1)
      → Polled pattern
          (payloads buf ++ arrivals c.recv_socket)
          (delivered (from_buffer pattern buf c).0)
          (from_buffer pattern buf c).1
  unfolding from_buffer
  from_buffer_lem pattern buf c h u =
      let same : take_out (matching pattern buf) buf ≡ rest pattern buf =
        take_out-matching pattern buf h (λ r.
          omega (arith, u r, sum_by-append (with_id r) (payloads buf) (arrivals c.recv_socket))) in
      let kept : (w : Payload D H → ℕ)
          → sum_by w (matching pattern buf)
              + sum_by w (payloads (rest pattern buf) ++ arrivals c.recv_socket)
            ≡ sum_by w (payloads buf ++ arrivals c.recv_socket) =
        λ w. omega (
          arith,
          sum_by-rest w pattern buf,
          sum_by-append w (payloads buf) (arrivals c.recv_socket),
          sum_by-append w (payloads (rest pattern buf)) (arrivals c.recv_socket),
        ) in
      rw (answered (matching pattern buf), same)
        (record {
          conserved = kept;
          valid = record {
            keyed = rest-Keyed pattern buf h;
            unique = λ r. omega (arith, kept (with_id r), u r);
          };
          match = AllMatch-matching pattern buf h;
          left = NoMatch-rest pattern buf h;
        })

  payloads-append :
      (xs ys : List (ℕ × Payload D H)) → payloads (xs ++ ys) ≡ payloads xs ++ payloads ys
  payloads-append [] ys = refl
  payloads-append ((k, p) ∷ xs) ys = rw (payloads-append xs ys)

  Keyed-append :
      (buf : List (ℕ × Payload D H)) (p : Payload D H)
      → Keyed buf
      → Keyed (buf ++ (p.request_id, p) ∷ [])
  Keyed-append [] p h = (refl, tt)
  Keyed-append ((k, q) ∷ buf) p h = (h.0, Keyed-append buf p h.1)

  -- A message that arrives is filed at the end of the buffer.
  pub arrives :
      (buf : List (ℕ × Payload D H)) (m : Payload D H) (ms : List (Payload D H))
      → Keyed buf
      → ((r : ℕ) → copies r (payloads buf ++ m ∷ ms) ≤ 1)
      → Keyed (Dict.put m.request_id m buf)
        × (payloads (Dict.put m.request_id m buf) ≡ payloads buf ++ m ∷ [])
  arrives buf m ms h u =
      let new : Dict.has m.request_id buf ≡ false = has-copies m.request_id buf h (
        ground
          (arith, u m.request_id, sum_by-append (with_id m.request_id) (payloads buf) (m ∷ ms))) in
      rw (Dict.put_new m.request_id m buf new)
        (Keyed-append buf m h, payloads-append buf ((m.request_id, m) ∷ []))

  no_answer :
      (pattern : ℕ → Bool) (buf : List (ℕ × Payload D H))
      → Keyed buf
      → answer (matching pattern buf) ≡ none
      → NoMatch pattern (payloads buf)
  unfolding matching
  no_answer pattern [] h e = tt
  no_answer pattern ((k, p) ∷ buf) h e = ground (arith, no_answer pattern buf)

  from_socket_lem :
      (pattern : ℕ → Bool) (ms : List (Option (Payload D H))) (c : Client D H)
      → c.recv_socket ≡ ms
      → IsValid c
      → NoMatch pattern (payloads c.response_buffer)
      → Polled pattern
          (pending c)
          (delivered (from_socket pattern ms c).0)
          (from_socket pattern ms c).1
  from_socket_lem pattern [] c e v none_left = record {
    conserved = λ w. omega arith;
    valid = v;
    match = tt;
    left = none_left;
  }
  from_socket_lem pattern (none ∷ ms) c e v none_left =
      let same : pending c ≡ payloads c.response_buffer ++ arrivals ms = rw e refl in
      record {
        conserved = λ w. omega (arith, ap (sum_by w) same);
        valid = record { keyed = v.keyed; unique = rw same at v.unique };
        match = tt;
        left = none_left;
      }
  from_socket_lem pattern (some m ∷ ms) c e v none_left =
      let buf = c.response_buffer in
      let u : (r : ℕ) → copies r (payloads buf ++ m ∷ arrivals ms) ≤ 1 = rw e at v.unique in
      let (k, filed) = arrives buf m (arrivals ms) v.keyed u in
      let whole : payloads (Dict.put m.request_id m buf) ++ arrivals ms
          ≡ payloads buf ++ m ∷ arrivals ms =
        rw filed (append_assoc (payloads buf) (m ∷ []) (arrivals ms)) in
      rw e (
        rw whole at (
          from_buffer_lem pattern (Dict.put m.request_id m buf) (record c { recv_socket = ms }) k
            (rw whole u)))

  pub poll_batch_lem :
      (pattern : ℕ → Bool) (c : Client D H)
      → IsValid c
      → Polled pattern
          (pending c)
          (delivered (poll_batch_nonblock pattern c).0)
          (poll_batch_nonblock pattern c).1
  unfolding poll_batch_nonblock from_buffer
  poll_batch_lem pattern c v =
      let buf = c.response_buffer in
      let ps = matching pattern buf in
      let taken : Polled pattern (pending c) (delivered (answer ps))
          (record c { response_buffer = take_out ps buf }) =
        from_buffer_lem pattern buf c v.keyed v.unique in
      elim (Option-cases (answer ps)) [
        | inl e ↦
            rw e (from_socket_lem pattern c.recv_socket c refl v (no_answer pattern buf v.keyed e))
        | inr (qs, e) ↦ rw e (rw e at taken)
      ]
