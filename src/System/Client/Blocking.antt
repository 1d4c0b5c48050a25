-- ===== src/System/Client/Blocking.antt =====
-- A blocking poll ends: it delivers a message that matches, once one is pending.
use rea_lhf.System.Dict
use mathlib.Core.List.{append-nil, append_assoc}
use rea_lhf.Base.{
  Bool, List, Option, Option-cases, [], all, ap, arith, dec_lt, if◌then◌else◌, inl, inr, length,
  none, refl, some, suc, sum_by, sym, true, zero, ℕ, ◌++◌, ◌+◌, ◌-◌, ◌<◌, ◌∙◌, ◌∷◌, ◌≡◌, ◌≢◌, ◌≤◌,
}
use rea_lhf.System.Client.{
  Client, answer, first, from_buffer, from_socket, matching, poll_batch_block, poll_batch_nonblock,
  poll_block, store,
}
use rea_lhf.System.Client.Delivery.{Polled, arrives, poll_batch_lem}
use rea_lhf.System.Client.Pending.{
  IsValid, Keyed, NoMatch, arrivals, copies, delivered, payloads, pending, sum_by-append, with_id,
}
use rea_lhf.System.Payload.{Payload}

module _ {D H : Type 0} where
  -- How many messages match.
  abbrev hit : (ℕ → Bool) → Payload D H → ℕ
  hit pattern p = if pattern p.request_id then 1 else 0

  abbrev pub hits : (ℕ → Bool) → List (Payload D H) → ℕ
  hits pattern ps = sum_by (hit pattern) ps

  hits-NoMatch :
      (pattern : ℕ → Bool) (ps : List (Payload D H)) → NoMatch pattern ps → hits pattern ps ≡ 0
  hits-NoMatch pattern [] h = refl
  hits-NoMatch pattern (p ∷ ps) h = ground (arith, hits-NoMatch pattern ps)

  answer_nonempty : (ps : List (Payload D H)) → answer ps ≢ some []
  answer_nonempty [] e = cc
  answer_nonempty (p ∷ ps) e = cc

  batch_nonempty :
      (pattern : ℕ → Bool) (c : Client D H) → (poll_batch_nonblock pattern c).0 ≢ some []
  unfolding poll_batch_nonblock from_buffer
  batch_nonempty pattern c e = elim (Option-cases (answer (matching pattern c.response_buffer))) [
    | inl n ↦ from_socket_nonempty c.recv_socket (rw n at e)
    | inr (ps, y) ↦ answer_nonempty (matching pattern c.response_buffer) (y ∙ (rw y at e))
  ]
    where
      from_socket_nonempty :
          (ms : List (Option (Payload D H))) → (from_socket pattern ms c).0 ≢ some []
      from_socket_nonempty [] e = cc
      from_socket_nonempty (none ∷ ms) e = cc
      from_socket_nonempty (some m ∷ ms) e =
          answer_nonempty (matching pattern (Dict.put m.request_id m c.response_buffer)) e

  -- A poll without an answer has called `recv` once.
  socket_shrinks :
      (pattern : ℕ → Bool) (c : Client D H)
      → (poll_batch_nonblock pattern c).0 ≡ none
      → length (poll_batch_nonblock pattern c).1.recv_socket ≡ length c.recv_socket - 1
  unfolding poll_batch_nonblock from_buffer
  socket_shrinks pattern c e = elim (Option-cases (answer (matching pattern c.response_buffer))) [
    | inl n ↦ rw n (from_socket_shrinks c.recv_socket refl)
    | inr (ps, y) ↦ absurd (cc (y, rw y at e))
  ]
    where
      from_socket_shrinks :
          (ms : List (Option (Payload D H)))
          → c.recv_socket ≡ ms
          → length (from_socket pattern ms c).1.recv_socket ≡ length ms - 1
      from_socket_shrinks [] e = ap length e
      from_socket_shrinks (none ∷ ms) e = omega arith
      from_socket_shrinks (some m ∷ ms) e = omega arith

  no_hits :
      (pattern : ℕ → Bool) (c : Client D H)
      → length c.recv_socket ≡ 0
      → NoMatch pattern (payloads c.response_buffer)
      → hits pattern (pending c) ≡ 0
  no_hits pattern c e n = omega (
    arith,
    hits-NoMatch pattern (payloads c.response_buffer) n,
    none_arrive c.recv_socket e,
    sum_by-append (hit pattern) (payloads c.response_buffer) (arrivals c.recv_socket),
  )
    where
      none_arrive :
          (ms : List (Option (Payload D H))) → length ms ≡ 0 → hits pattern (arrivals ms) ≡ 0
      none_arrive [] l = refl
      none_arrive (m ∷ ms) l = absurd (omega arith)

  since :
      (pattern : ℕ → Bool) (before now ps : List (Payload D H)) (c : Client D H)
      → ((w : Payload D H → ℕ) → sum_by w now ≡ sum_by w before)
      → Polled pattern now ps c
      → Polled pattern before ps c
  since pattern before now ps c same p = record {
    conserved = λ w. p.conserved w ∙ same w;
    valid = p.valid;
    match = p.match;
    left = p.left;
  }

  abbrev pub Answered : (ℕ → Bool) → Client D H → Option (List (Payload D H)) × Client D H → Type 0
  Answered pattern c r =
      Polled pattern (pending c) (delivered r.0) r.1
      × (p : Payload D H) × (ps : List (Payload D H)) × (r.0 ≡ some (p ∷ ps))

  Answered-some :
      (pattern : ℕ → Bool) (c : Client D H) (r : Option (List (Payload D H)) × Client D H)
      (ps : List (Payload D H))
      → r.0 ≢ some []
      → r.0 ≡ some ps
      → Polled pattern (pending c) (delivered r.0) r.1
      → Answered pattern c (some ps, r.1)
  Answered-some pattern c r [] filled e p = absurd (filled e)
  Answered-some pattern c r (q ∷ qs) filled e p = (rw e at p, q, qs, refl)

  pub poll_batch_block_lem :
      (fuel : ℕ) (pattern : ℕ → Bool) (c : Client D H)
      → IsValid c
      → length c.recv_socket < fuel
      → 0 < hits pattern (pending c)
      → Answered pattern c (poll_batch_block fuel pattern c)
  unfolding poll_batch_block
  poll_batch_block_lem zero pattern c v l h = elim l [ ]
  poll_batch_block_lem (suc fuel) pattern c v l h =
      let next = poll_batch_nonblock pattern c in
      let now = poll_batch_lem pattern c v in
      elim (Option-cases next.0) [
        | inl e ↦
            let p : Polled pattern (pending c) [] next.1 = rw e at now in
            let same : (w : Payload D H → ℕ) → sum_by w (pending next.1) ≡ sum_by w (pending c) =
              λ w. omega (arith, p.conserved w) in
            let short : length next.1.recv_socket < fuel =
              elim (dec_lt (length next.1.recv_socket) fuel) [
                | yes y ↦ y
                | no n ↦ absurd (
                    omega (
                      arith,
                      n,
                      h,
                      same (hit pattern),
                      socket_shrinks pattern c e,
                      no_hits pattern next.1 (omega (arith, n, socket_shrinks pattern c e)) p.left,
                    ))
              ] in
            let (q, m, ms, s) =
              poll_batch_block_lem fuel pattern next.1 p.valid short
                (omega (arith, h, same (hit pattern))) in
            rw (e, poll_batch_block)
              (since pattern (pending c) (pending next.1) _ _ same q, m, ms, s)
        | inr (ps, e) ↦
            rw (e, poll_batch_block)
              (Answered-some pattern c next ps (batch_nonempty pattern c) e now)
      ]

  store_lem :
      (ps ms : List (Payload D H)) (buf : List (ℕ × Payload D H))
      → Keyed buf
      → ((r : ℕ) → copies r (payloads buf ++ (ps ++ ms)) ≤ 1)
      → Keyed (store ps buf) × (payloads (store ps buf) ≡ payloads buf ++ ps)
  store_lem [] ms buf k u = (k, sym (append-nil (payloads buf)))
  store_lem (p ∷ ps) ms buf k u =
      let (k', filed) = arrives buf p (ps ++ ms) k u in
      let (k'', all) =
        store_lem ps ms (Dict.put p.request_id p buf) k'
          (rw filed (rw (append_assoc (payloads buf) (p ∷ []) (ps ++ ms)) u)) in
      (k'', all ∙ rw filed (append_assoc (payloads buf) (p ∷ []) ps))

  -- A blocking poll for a pattern that a message matches which is in the buffer, or which one of the
  -- next calls of `recv` will return (whatever calls before it find no message yet), returns, after at
  -- most one round more than there are such calls, a message that matches; and it leaves all other messages
  -- pending: whatever is summed over the messages, the one that is returned and those that are pending
  -- afterwards have the same sum as those that were pending before. No two pending messages may have
  -- the same id, and this is still so.
  pub poll_block_lem :
      (fuel : ℕ) (pattern : ℕ → Bool) (c : Client D H)
      → IsValid c
      → length c.recv_socket < fuel
      → 0 < hits pattern (pending c)
      → (m : Payload D H) × (c' : Client D H) × (poll_block fuel pattern c ≡ (some m, c'))
        × (pattern m.request_id ≡ true)
        × ((w : Payload D H → ℕ) → w m + sum_by w (pending c') ≡ sum_by w (pending c))
        × IsValid c'
  unfolding poll_block
  poll_block_lem fuel pattern c v l h =
      let r = poll_batch_block fuel pattern c in
      let (p, m, ps, e) = poll_batch_block_lem fuel pattern c v l h in
      let q : Polled pattern (pending c) (m ∷ ps) r.1 = rw e at p in
      let buf = r.1.response_buffer in
      let ms = arrivals r.1.recv_socket in
      let sums : (w : Payload D H → ℕ)
          → sum_by w (payloads buf ++ (ps ++ ms)) + w m ≡ sum_by w (pending c) =
        λ w. omega (
          arith,
          q.conserved w,
          sum_by-append w (payloads buf) (ps ++ ms),
          sum_by-append w ps ms,
          sum_by-append w (payloads buf) ms,
        ) in
      let (k, filed) =
        store_lem ps ms buf q.valid.keyed (λ r. omega (arith, sums (with_id r), v.unique r)) in
      let c' : Client D H = record (r.1) { response_buffer = store ps buf } in
      let same : pending c' ≡ payloads buf ++ (ps ++ ms) =
        rw filed (append_assoc (payloads buf) ps ms) in
      (
        m,
        c',
        ap first {y = (some (m ∷ ps), r.1)} (λ i. (e i, r.1)),
        q.match.0,
        λ w. rw same (omega (arith, sums w)),
        record { keyed = k; unique = λ r. rw same (omega (arith, sums (with_id r), v.unique r)) },
      )
