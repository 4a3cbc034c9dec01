-- ===== src/Remote/Delivery.antt =====
-- When the completion callback of an execution is called.
use task_maker.Prelude.{
  ℕ, ◌+◌, ◌≡◌, refl, Bool, true, false, not, ◌&&◌, Option, none, List, [], ◌∷◌, ◌++◌, arith,
  Bool-cases, inl, inr, ◌∙◌, if◌then◌else◌,
}
use task_maker.Remote.{
  Delivered, started, skipped, result, stdout, stderr, stdout_bytes, stderr_bytes, Execution,
  Tracked, Call, on_start, on_skip, on_done, is_none, waits, deliver, on_done_internal, done_call,
  keep_result, keep_stdout, keep_stderr, keep_stdout_bytes, keep_stderr_bytes, deliver_all,
}

-- How often the completion callback was called.
unfoldable pub completions : List Call → ℕ
completions [] = 0
completions (on_done r ∷ l) = 1 + completions l
completions (on_start ∷ l) = completions l
completions (on_skip ∷ l) = completions l

abbrev one_if : Bool → ℕ
one_if true = 1
one_if false = 0

-- How often each of the five kinds is delivered.
abbrev is_result : Delivered → Bool
is_result (result _) = true
is_result _ = false

abbrev is_stdout : Delivered → Bool
is_stdout (stdout _) = true
is_stdout _ = false

abbrev is_stderr : Delivered → Bool
is_stderr (stderr _) = true
is_stderr _ = false

abbrev is_stdout_bytes : Delivered → Bool
is_stdout_bytes (stdout_bytes _) = true
is_stdout_bytes _ = false

abbrev is_stderr_bytes : Delivered → Bool
is_stderr_bytes (stderr_bytes _) = true
is_stderr_bytes _ = false

abbrev is_skipped : Delivered → Bool
is_skipped skipped = true
is_skipped _ = false

abbrev pub occurrences : (Delivered → Bool) → List Delivered → ℕ
occurrences p [] = 0
occurrences p (e ∷ es) = one_if (p e) + occurrences p es

abbrev missing {ℓ} : {A : Type ℓ} → Bool → Option A → Bool
missing stored o = stored && is_none o

-- Each thing that the execution still waits for is delivered once, and nothing else but starts.
pub record Completes (x : Execution) (es : List Delivered) : Type 0 where
  pub of_result : occurrences is_result es ≡ one_if (is_none x.result)
  pub of_stdout : occurrences is_stdout es ≡ one_if (missing x.store_stdout x.stdout)
  pub of_stderr : occurrences is_stderr es ≡ one_if (missing x.store_stderr x.stderr)
  pub of_stdout_bytes :
      occurrences is_stdout_bytes es ≡ one_if (missing x.store_stdout_bytes x.stdout_bytes)
  pub of_stderr_bytes :
      occurrences is_stderr_bytes es ≡ one_if (missing x.store_stderr_bytes x.stderr_bytes)
  pub of_skipped : occurrences is_skipped es ≡ 0

-- The result and all that is to be stored have come.
abbrev pub is_complete : Execution → Bool
is_complete x =
    not (is_none x.result)
    && (not (missing x.store_stdout x.stdout)
        && (not (missing x.store_stderr x.stderr)
            && (not (missing x.store_stdout_bytes x.stdout_bytes)
                && not (missing x.store_stderr_bytes x.stderr_bytes))))

completions-append : (xs ys : List Call) → completions (xs ++ ys) ≡ completions xs + completions ys
unfolding completions
completions-append [] ys = omega arith
completions-append (on_done r ∷ xs) ys = omega (arith, completions-append xs ys)
completions-append (on_start ∷ xs) ys = completions-append xs ys
completions-append (on_skip ∷ xs) ys = completions-append xs ys

on_done_internal_lem :
    (x : Execution) (l : List Call)
    → x.on_done_cb ≡ true
    → completions (if waits x then l else l ++ done_call x.result)
      ≡ completions l + one_if (is_complete x)
unfolding completions
on_done_internal_lem x l b = ground (arith, completions-append l (done_call x.result))

on_done_internal-completions :
    (t : Tracked)
    → t.execution.on_done_cb ≡ true
    → completions (on_done_internal t).calls
      ≡ completions t.calls + one_if (is_complete t.execution)
unfolding on_done_internal
on_done_internal-completions t b = elim (Bool-cases (waits t.execution)) [
  | inl e ↦ rw e (rw e at (on_done_internal_lem t.execution t.calls b))
  | inr e ↦ rw e (rw e at (on_done_internal_lem t.execution t.calls b))
]

execution-on_done_internal : (t : Tracked) → (on_done_internal t).execution ≡ t.execution
unfolding on_done_internal
execution-on_done_internal t = ground arith

-- One delivery keeps the books.
Completes-deliver :
    (e : Delivered) (es : List Delivered) (t : Tracked)
    → Completes t.execution (e ∷ es)
    → Completes (deliver e t).execution es
unfolding deliver
Completes-deliver (started now) es t c = ground arith
Completes-deliver _ es t c = ground arith

on_done_cb-deliver :
    (e : Delivered) (t : Tracked) → (deliver e t).execution.on_done_cb ≡ t.execution.on_done_cb
unfolding deliver
on_done_cb-deliver (started now) t = refl
on_done_cb-deliver _ t = ground arith

abbrev pub brings_data : Delivered → Bool
brings_data (started _) = false
brings_data skipped = false
brings_data _ = true

-- A delivery calls the completion callback once where it brings data and leaves nothing awaited,
-- and otherwise not at all.
pub completions-deliver :
    (e : Delivered) (t : Tracked)
    → t.execution.on_done_cb ≡ true
    → completions (deliver e t).calls
      ≡ completions t.calls + one_if (brings_data e && is_complete (deliver e t).execution)
unfolding deliver completions
completions-deliver (started now) t b =
    rw completions-append (ground (arith, completions-append t.calls []))
completions-deliver skipped t b =
    rw completions-append (ground (arith, completions-append t.calls []))
completions-deliver (result r) t b =
    rw execution-on_done_internal (on_done_internal-completions (keep_result r t) b)
completions-deliver (stdout s) t b =
    rw execution-on_done_internal (on_done_internal-completions (keep_stdout s t) b)
completions-deliver (stderr s) t b =
    rw execution-on_done_internal (on_done_internal-completions (keep_stderr s t) b)
completions-deliver (stdout_bytes s) t b =
    rw execution-on_done_internal (on_done_internal-completions (keep_stdout_bytes s t) b)
completions-deliver (stderr_bytes s) t b =
    rw execution-on_done_internal (on_done_internal-completions (keep_stderr_bytes s t) b)

is_complete_step :
    (e : Delivered) (es : List Delivered) (t : Tracked)
    → Completes t.execution (e ∷ es)
    → one_if (brings_data e && is_complete (deliver e t).execution)
        + one_if (is_complete t.execution)
      ≡ one_if (is_complete (deliver e t).execution)
unfolding deliver
is_complete_step (started now) es t c = ground arith
is_complete_step _ es t c = ground arith

completions-deliver_all :
    (es : List Delivered) (t : Tracked)
    → t.execution.on_done_cb ≡ true
    → Completes t.execution es
    → completions (deliver_all es t).calls + one_if (is_complete t.execution)
      ≡ completions t.calls + 1
unfolding deliver_all
completions-deliver_all [] t b c = ground arith
completions-deliver_all (e ∷ es) t b c = omega (
  arith,
  completions-deliver e t b,
  is_complete_step e es t c,
  completions-deliver_all es (deliver e t) (on_done_cb-deliver e t ∙ b)
      (Completes-deliver e es t c),
)

-- In whatever order the result and the stored contents come, with starts anywhere between, an
-- execution that has a completion callback and no result yet calls it exactly once.
pub completions-deliver_all_once :
    (es : List Delivered) (t : Tracked)
    → t.execution.on_done_cb ≡ true
    → t.execution.result ≡ none
    → Completes t.execution es
    → completions (deliver_all es t).calls ≡ completions t.calls + 1
completions-deliver_all_once es t b r c = ground (arith, completions-deliver_all es t b c)
