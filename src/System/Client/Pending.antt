-- ===== src/System/Client/Pending.antt =====
-- Every message is delivered once: what a poll does with the messages that are pending.
use rea_lhf.System.Dict
use rea_lhf.Base.{
  Bool, List, Option, [], arith, false, if◌then◌else◌, none, refl, some, sum_by, true, ℕ, ◌++◌, ◌+◌,
  ◌==◌, ◌∷◌, ◌≡◌, ◌≤◌,
}
use rea_lhf.System.Client.{Client, matching, take_out}
use rea_lhf.System.Payload.{Payload}

module _ {D H : Type 0} where
  abbrev pub payloads : List (ℕ × Payload D H) → List (Payload D H)
  payloads [] = []
  payloads ((k, p) ∷ buf) = p ∷ payloads buf

  abbrev pub arrivals : List (Option (Payload D H)) → List (Payload D H)
  arrivals [] = []
  arrivals (none ∷ ms) = arrivals ms
  arrivals (some m ∷ ms) = m ∷ arrivals ms

  -- The messages that the master can still get: those in the buffer and those that will arrive.
  abbrev pub pending : Client D H → List (Payload D H)
  pending c = payloads c.response_buffer ++ arrivals c.recv_socket

  abbrev pub delivered : Option (List (Payload D H)) → List (Payload D H)
  delivered none = []
  delivered (some ps) = ps

  -- How many messages have the id `r`.
  abbrev pub with_id : ℕ → Payload D H → ℕ
  with_id r p = if p.request_id == r then 1 else 0

  abbrev pub copies : ℕ → List (Payload D H) → ℕ
  copies r ps = sum_by (with_id r) ps

  abbrev pub Keyed : List (ℕ × Payload D H) → Type 0
  Keyed [] = Unit
  Keyed ((k, p) ∷ buf) = (k ≡ p.request_id) × Keyed buf

  -- No two pending messages have the same id, and the buffer files each under its own.
  pub record IsValid (c : Client D H) : Type 0 where
    pub keyed : Keyed c.response_buffer
    pub unique : (r : ℕ) → copies r (pending c) ≤ 1

  abbrev pub NoMatch : (ℕ → Bool) → List (Payload D H) → Type 0
  NoMatch pattern [] = Unit
  NoMatch pattern (p ∷ ps) = (pattern p.request_id ≡ false) × NoMatch pattern ps

  abbrev pub AllMatch : (ℕ → Bool) → List (Payload D H) → Type 0
  AllMatch pattern [] = Unit
  AllMatch pattern (p ∷ ps) = (pattern p.request_id ≡ true) × AllMatch pattern ps

  pub sum_by-append :
      (w : Payload D H → ℕ) (xs ys : List (Payload D H))
      → sum_by w (xs ++ ys) ≡ sum_by w xs + sum_by w ys
  sum_by-append w [] ys = omega arith
  sum_by-append w (x ∷ xs) ys = omega (arith, sum_by-append w xs ys)

  pub has-copies :
      (k : ℕ) (buf : List (ℕ × Payload D H))
      → Keyed buf
      → copies k (payloads buf) ≡ 0
      → Dict.has k buf ≡ false
  has-copies k [] h e = refl
  has-copies k ((j, p) ∷ buf) h e = ground (arith, has-copies k buf)

  -- The buffer without what matches.
  unfoldable pub rest : (ℕ → Bool) → List (ℕ × Payload D H) → List (ℕ × Payload D H)
  rest pattern [] = []
  rest pattern ((k, p) ∷ buf) = if pattern k then rest pattern buf else (k, p) ∷ rest pattern buf

  take_out_other :
      (ps : List (Payload D H)) (k : ℕ) (v : Payload D H) (buf : List (ℕ × Payload D H))
      → copies k ps ≡ 0
      → take_out ps ((k, v) ∷ buf) ≡ (k, v) ∷ take_out ps buf
  unfolding take_out
  take_out_other [] k v buf e = refl
  take_out_other (p ∷ ps) k v buf e =
      ground (arith, take_out_other ps k v (Dict.pop p.request_id buf))

  copies-matching :
      (r : ℕ) (pattern : ℕ → Bool) (buf : List (ℕ × Payload D H))
      → copies r (matching pattern buf) ≤ copies r (payloads buf)
  unfolding matching
  copies-matching r pattern [] = omega arith
  copies-matching r pattern ((k, p) ∷ buf) = ground (arith, copies-matching r pattern buf)

  pub take_out-matching :
      (pattern : ℕ → Bool) (buf : List (ℕ × Payload D H))
      → Keyed buf
      → ((r : ℕ) → copies r (payloads buf) ≤ 1)
      → take_out (matching pattern buf) buf ≡ rest pattern buf
  unfolding take_out matching rest
  take_out-matching pattern [] h u = refl
  take_out-matching pattern ((k, p) ∷ buf) h u =
      let ih = take_out-matching pattern buf h.1 (λ r. ground (arith, u r)) in
      let other : copies k (matching pattern buf) ≡ 0 =
        ground (arith, u k, copies-matching k pattern buf) in
      let gone : Dict.pop k buf ≡ buf =
        Dict.pop_absent k buf (has-copies k buf h.1 (ground (arith, u k))) in
      ground (arith, ih, gone, h.0, take_out_other (matching pattern buf) k p buf other)

  pub sum_by-rest :
      (w : Payload D H → ℕ) (pattern : ℕ → Bool) (buf : List (ℕ × Payload D H))
      → sum_by w (matching pattern buf) + sum_by w (payloads (rest pattern buf))
        ≡ sum_by w (payloads buf)
  unfolding matching rest
  sum_by-rest w pattern [] = omega arith
  sum_by-rest w pattern ((k, p) ∷ buf) = ground (arith, sum_by-rest w pattern buf)

  pub rest-Keyed :
      (pattern : ℕ → Bool) (buf : List (ℕ × Payload D H)) → Keyed buf → Keyed (rest pattern buf)
  unfolding rest
  rest-Keyed pattern [] h = tt
  rest-Keyed pattern ((k, p) ∷ buf) h = ground (arith, rest-Keyed pattern buf)

  pub NoMatch-rest :
      (pattern : ℕ → Bool) (buf : List (ℕ × Payload D H))
      → Keyed buf
      → NoMatch pattern (payloads (rest pattern buf))
  unfolding rest
  NoMatch-rest pattern [] h = tt
  NoMatch-rest pattern ((k, p) ∷ buf) h = ground (arith, NoMatch-rest pattern buf)

  pub AllMatch-matching :
      (pattern : ℕ → Bool) (buf : List (ℕ × Payload D H))
      → Keyed buf
      → AllMatch pattern (matching pattern buf)
  unfolding matching
  AllMatch-matching pattern [] h = tt
  AllMatch-matching pattern ((k, p) ∷ buf) h = ground (arith, AllMatch-matching pattern buf)
