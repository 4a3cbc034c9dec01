-- ===== src/Remote/Pool.antt =====
-- Which executions the pool lists as running.
use task_maker.Prelude.{
  ℕ, ◌≡◌, refl, Option, none, some, List, [], ◌∷◌, arith, nat_eq, lookup, lookup-insert,
  lookup-remove, if◌then◌else◌, ◌==◌,
}
use task_maker.Remote.{
  Delivered, started, skipped, result, stdout, stderr, stdout_bytes, stderr_bytes, Tracked, deliver,
  deliver_all, on_done_internal,
}

-- The time of the last start that no result follows.
abbrev pub since : Option ℕ → List Delivered → Option ℕ
since known [] = known
since known (started now ∷ es) = since (some now) es
since known (result r ∷ es) = since none es
since known (_ ∷ es) = since known es

pool-on_done_internal : (t : Tracked) → (on_done_internal t).pool ≡ t.pool
unfolding on_done_internal
pool-on_done_internal t = ground arith

ident-deliver : (e : Delivered) (t : Tracked) → (deliver e t).execution.ident ≡ t.execution.ident
unfolding deliver
ident-deliver (started now) t = refl
ident-deliver _ t = ground arith

abbrev seen : Delivered → Option ℕ → Option ℕ
seen e known = since known (e ∷ [])

running-deliver :
    (e : Delivered) (t : Tracked) (j : ℕ)
    → lookup j (deliver e t).pool.running ≡ (
        if t.execution.ident == j
        then seen e (lookup j t.pool.running)
        else lookup j t.pool.running)
unfolding deliver
running-deliver (started now) t j = rw lookup-insert
running-deliver skipped t j = ground arith
running-deliver (result r) t j = rw pool-on_done_internal (rw lookup-remove)
running-deliver (stdout s) t j = rw pool-on_done_internal (ground arith)
running-deliver (stderr s) t j = rw pool-on_done_internal (ground arith)
running-deliver (stdout_bytes s) t j = rw pool-on_done_internal (ground arith)
running-deliver (stderr_bytes s) t j = rw pool-on_done_internal (ground arith)

since-seen :
    (e : Delivered) (es : List Delivered) (known : Option ℕ)
    → since (seen e known) es ≡ since known (e ∷ es)
since-seen (started now) es known = refl
since-seen _ es known = refl

-- After any deliveries to an execution the pool lists it exactly where a start came that no result
-- followed, with the time of the last start, and lists every other execution as before.
pub running-deliver_all :
    (es : List Delivered) (t : Tracked) (j : ℕ)
    → lookup j (deliver_all es t).pool.running ≡ (
        if t.execution.ident == j
        then since (lookup j t.pool.running) es
        else lookup j t.pool.running)
unfolding deliver_all
running-deliver_all [] t j = ground arith
running-deliver_all (e ∷ es) t j = ground (
  arith,
  running-deliver_all es (deliver e t) j,
  running-deliver e t j,
  ident-deliver e t,
  since-seen e es (lookup j t.pool.running),
)
