-- ===== src/Transfer/Cache.antt =====
-- `set.union` makes a new set, which `run_data_transfer` drops: the tables of what was sent and received
-- stay empty, and nothing is ever found to be cached.
use mathlib.Core.Option.{some-injective}
use mathlib.Core.Path.{fun_ext}
use rea_lhf.Base.{
  ==_false, ==_refl, >>=-eq-some, Bool, Bool-cases, List, Option, [], arith, assert, false,
  if◌then◌else◌, inl, inr, none, not, refl, some, suc, true, when, ℕ, ℕ_discrete, ◌&&◌, ◌++◌, ◌+◌,
  ◌==◌, ◌∷◌, ◌≡◌,
}
use rea_lhf.Transfer.{Step, receiver, sender}
use rea_lhf.Transfer.Run.{
  Event, Process, Table, World, all_cached, concat, data_of, data_received, data_sent, mark,
  metadata_received, metadata_sent, receive, receive_step, run_data_transfer, run_step, send,
  send_data, send_step, split_buffer, union_entry,
}

union_entry_same : (i key : ℕ) (d : List ℕ) (t : Table) → union_entry i key d t ≡ t
union_entry_same i key d t =
    fun_ext (λ j. fun_ext (λ k. at_entry j k (ℕ_discrete i j) (ℕ_discrete key k)))
  where
    at_entry : (j k : ℕ) → Dec (i ≡ j) → Dec (key ≡ k) → union_entry i key d t j k ≡ t j k
    at_entry j k (yes a) (yes b) = rw (a, b, ==_refl j, ==_refl k) refl
    at_entry j k (no a) b = rw (==_false i j a) refl
    at_entry j k (yes a) (no b) = rw (a, ==_refl j, ==_false key k b) refl

mark_same : (v : World) (key : ℕ) (d is : List ℕ) (t : Table) → mark v key d is t ≡ t
unfolding mark
mark_same v key d [] t = refl
mark_same v key d (i ∷ is) t =
    rw (union_entry_same i key d t, union_entry_same i v.metadata_key d t) (mark_same v key d is t)

abbrev pub Empty : Table → Type 0
Empty t = (i k : ℕ) → t i k ≡ []

-- A step that moves something.
abbrev pub busy_lists : List ℕ → List ℕ → Bool
busy_lists [] ids = false
busy_lists (w ∷ ws) [] = false
busy_lists (w ∷ ws) (i ∷ is) = true

abbrev pub busy : List Step → Bool
busy [] = true
busy (receiver rank src dst_ranks group key ids ∷ plan) = busy_lists dst_ranks ids && busy plan
busy (sender rank dst_ranks group key ids ∷ plan) = busy_lists dst_ranks ids && busy plan

not_cached :
    (t : Table) (key : ℕ) (ws is : List ℕ)
    → Empty t
    → busy_lists ws is ≡ true
    → all_cached t key ws is ≡ false
not_cached t key [] is e b = cc
not_cached t key (w ∷ ws) [] e b = cc
not_cached t key (w ∷ ws) (i ∷ is) e b = rw (e i key) refl

-- How often metadata was sent or received, and how often the plan has this process do so.
abbrev pub sends : List Event → ℕ
sends [] = 0
sends (metadata_sent ids ∷ log) = suc (sends log)
sends (data_sent key ids tokens ∷ log) = sends log
sends (data_received src key ids ∷ log) = sends log
sends (metadata_received src ids ∷ log) = sends log

abbrev pub receipts : List Event → ℕ
receipts [] = 0
receipts (metadata_received src ids ∷ log) = suc (receipts log)
receipts (data_sent key ids tokens ∷ log) = receipts log
receipts (data_received src key ids ∷ log) = receipts log
receipts (metadata_sent ids ∷ log) = receipts log

abbrev pub sender_steps : ℕ → List Step → ℕ
sender_steps me [] = 0
sender_steps me (sender rank dst_ranks group key ids ∷ plan) =
    (if rank == me then 1 else 0) + sender_steps me plan
sender_steps me (receiver rank src dst_ranks group key ids ∷ plan) = sender_steps me plan

abbrev pub remote_steps : ℕ → List Step → ℕ
remote_steps me [] = 0
remote_steps me (sender rank dst_ranks group key ids ∷ plan) = remote_steps me plan
remote_steps me (receiver rank src dst_ranks group key ids ∷ plan) =
    (if rank == me && not (src == me) then 1 else 0) + remote_steps me plan

sends-append : (a b : List Event) → sends (a ++ b) ≡ sends a + sends b
sends-append [] b = omega arith
sends-append (metadata_sent ids ∷ a) b = omega (arith, sends-append a b)
sends-append (data_sent key ids tokens ∷ a) b = sends-append a b
sends-append (data_received src key ids ∷ a) b = sends-append a b
sends-append (metadata_received src ids ∷ a) b = sends-append a b

receipts-append : (a b : List Event) → receipts (a ++ b) ≡ receipts a + receipts b
receipts-append [] b = omega arith
receipts-append (metadata_received src ids ∷ a) b = omega (arith, receipts-append a b)
receipts-append (data_sent key ids tokens ∷ a) b = receipts-append a b
receipts-append (data_received src key ids ∷ a) b = receipts-append a b
receipts-append (metadata_sent ids ∷ a) b = receipts-append a b

-- From `p` to `p'` the process has sent `m` times and received `n` times.
record Moved (p p' : Process) (m n : ℕ) : Type 0 where
  sent_empty : Empty p'.sent_table
  received_empty : Empty p'.received_table
  sent : sends p'.log ≡ sends p.log + m
  got : receipts p'.log ≡ receipts p.log + n

still : (p : Process) → Empty p.sent_table → Empty p.received_table → Moved p p 0 0
still p e f = record { sent_empty = e; received_empty = f; sent = omega arith; got = omega arith }

sends-send_data : (key : ℕ) (ids : List ℕ) (o : Option (List ℕ)) → sends (send_data key ids o) ≡ 0
sends-send_data key ids none = refl
sends-send_data key ids (some tokens) = refl

receipts-send_data :
    (key : ℕ) (ids : List ℕ) (o : Option (List ℕ)) → receipts (send_data key ids o) ≡ 0
receipts-send_data key ids none = refl
receipts-send_data key ids (some tokens) = refl

send_step-Moved :
    (v : World) (ws : List ℕ) (key : ℕ) (ids : List ℕ) (p p' : Process)
    → Empty p.sent_table
    → Empty p.received_table
    → busy_lists ws ids ≡ true
    → send_step v ws key ids p ≡ some p'
    → Moved p p' 1 0
unfolding send
send_step-Moved v ws key ids p p' e f b run =
    let fresh = not_cached p.sent_table key ws ids e b in
    let meta = not_cached p.sent_table v.metadata_key ws ids e b in
    let (ds, _, done) = >>=-eq-some (data_of p.storage key ids) _ (rw fresh at run) in
    let new = send_data key ids (concat ds) ++ metadata_sent ids ∷ [] in
    rw (← (some-injective _ _ done), meta)
      (record {
        sent_empty = rw (mark_same v key ws ids p.sent_table) e;
        received_empty = f;
        sent = omega (
          arith,
          sends-append p.log new,
          sends-append (send_data key ids (concat ds)) (metadata_sent ids ∷ []),
          sends-send_data key ids (concat ds),
        );
        got = omega (
          arith,
          receipts-append p.log new,
          receipts-append (send_data key ids (concat ds)) (metadata_sent ids ∷ []),
          receipts-send_data key ids (concat ds),
        );
      })

sends-when :
    (b : Bool) (src key : ℕ) (ids : List ℕ)
    → (sends (when b (data_received src key ids)) ≡ 0)
      × (receipts (when b (data_received src key ids)) ≡ 0)
sends-when true src key ids = (refl, refl)
sends-when false src key ids = (refl, refl)

receive-Moved :
    (v : World) (src : ℕ) (ws : List ℕ) (key : ℕ) (ids : List ℕ) (p p' : Process)
    → Empty p.sent_table
    → Empty p.received_table
    → busy_lists ws ids ≡ true
    → receive v src ws key ids p ≡ some p'
    → Moved p p' 0 1
unfolding receive
receive-Moved v src ws key ids p p' e f b run =
    let (_, _, run1) =
      >>=-eq-some (assert (not (all_cached p.received_table v.metadata_key ws ids))) _ run in
    let buf = if v.has_shape key then some (v.broadcast src key ids) else none in
    let (st, _, done) = >>=-eq-some (split_buffer v key buf ids 0 p.storage) _ run1 in
    let w = when (v.has_shape key) (data_received src key ids) in
    let new = w ++ metadata_received src ids ∷ [] in
    rw (← (some-injective _ _ done)) (record {
      sent_empty = e;
      received_empty = rw (mark_same v key ws ids p.received_table) f;
      sent = omega (
        arith,
        sends-append p.log new,
        sends-append w (metadata_received src ids ∷ []),
        (sends-when (v.has_shape key) src key ids).0,
      );
      got = omega (
        arith,
        receipts-append p.log new,
        receipts-append w (metadata_received src ids ∷ []),
        (sends-when (v.has_shape key) src key ids).1,
      );
    })

receive_step-Moved :
    (v : World) (local : Bool) (src : ℕ) (ws : List ℕ) (key : ℕ) (ids : List ℕ) (p p' : Process)
    → Empty p.sent_table
    → Empty p.received_table
    → busy_lists ws ids ≡ true
    → receive_step v local src ws key ids p ≡ some p'
    → Moved p p' 0 (if not local then 1 else 0)
unfolding receive data_of
receive_step-Moved v true src ws key ids p p' e f b run =
    let (_, _, done) = >>=-eq-some (data_of p.storage key ids) _ run in
    rw (← (some-injective _ _ done)) (still p e f)
receive_step-Moved v false src ws key ids p p' e f b run =
    receive-Moved v src ws key ids p p' e f b
      (rw (not_cached p.received_table key ws ids f b) at run)

run_step-Moved :
    (v : World) (me : ℕ) (s : Step) (plan : List Step) (p p' : Process)
    → Empty p.sent_table
    → Empty p.received_table
    → busy (s ∷ plan) ≡ true
    → run_step v me s p ≡ some p'
    → (m n : ℕ) × Moved p p' m n
      × (sender_steps me (s ∷ plan) ≡ m + sender_steps me plan)
      × (remote_steps me (s ∷ plan) ≡ n + remote_steps me plan)
      × (busy plan ≡ true)
unfolding run_step
run_step-Moved v me (receiver rank src ws group key ids) plan p p' e f b run =
    elim (Bool-cases (rank == me)) [
      | inl y ↦ (
        0,
        _,
        receive_step-Moved v (src == me) src ws key ids p p' e f (ground arith) (rw y at run),
        omega arith,
        rw y refl,
        ground arith,
      )
      | inr n ↦
          let same : p ≡ p' = some-injective _ _ (rw n at run) in
          (0, 0, rw (← same) (still p e f), omega arith, rw n refl, ground arith)
    ]
run_step-Moved v me (sender rank ws group key ids) plan p p' e f b run =
    elim (Bool-cases (rank == me)) [
      | inl y ↦ (
        1,
        0,
        send_step-Moved v ws key ids p p' e f (ground arith) (rw y at run),
        rw y refl,
        omega arith,
        ground arith,
      )
      | inr n ↦
          let same : p ≡ p' = some-injective _ _ (rw n at run) in
          (0, 0, rw (← same) (still p e f), rw n refl, omega arith, ground arith)
    ]

-- The tables that should record what a process has sent and received stay empty: in a run of a plan
-- that raises no error and whose steps have samples and receivers, from empty tables, the process
-- sends metadata in each of its sender steps and receives it in each of its receiver steps with
-- another source, and afterwards the tables are empty again, so that the next run moves
-- everything once more.
pub never_cached :
    (v : World) (me : ℕ) (plan : List Step) (p p' : Process)
    → Empty p.sent_table
    → Empty p.received_table
    → busy plan ≡ true
    → run_data_transfer v me plan p ≡ some p'
    → (sends p'.log ≡ sends p.log + sender_steps me plan)
      × (receipts p'.log ≡ receipts p.log + remote_steps me plan)
      × Empty p'.sent_table
      × Empty p'.received_table
unfolding run_data_transfer
never_cached v me [] p p' e f b run =
    rw (← (some-injective _ _ run)) (omega arith, omega arith, e, f)
never_cached v me (s ∷ plan) p p' e f b run =
    let (p1, a, rest) = >>=-eq-some (run_step v me s p) _ run in
    let (m, n, moved, h, k, more) = run_step-Moved v me s plan p p1 e f b a in
    let (c, d, x, y) =
      never_cached v me plan p1 p' moved.sent_empty moved.received_empty more rest in
    (omega (arith, c, h, moved.sent), omega (arith, d, k, moved.got), x, y)
