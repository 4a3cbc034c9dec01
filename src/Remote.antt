-- ===== src/Remote.antt =====
-- python/remote/__init__.py: the pool of executions, and how an execution collects what the frontend
-- delivers before it calls back.
-- `task_maker_frontend.Result` is the record ExecutionResult; its resources are not read here.
pub mod Delivery
pub mod Pool
mod Tests
use task_maker.Prelude.{
  ℕ, String, ◌≡◌, Bool, true, false, not, ◌&&◌, Option, none, some, List, [], ◌∷◌, ◌++◌, Dict,
  insert, remove, lookup, nat_eq, if◌then◌else◌, Result, ok, err, value_error,
}

pub data ResultStatus : Type 0 where
  success signal return_code time_limit wall_limit memory_limit : ResultStatus
  missing_files invalid_request internal_error : ResultStatus

pub record ExecutionResult : Type 0 where
  pub status : ResultStatus
  pub signal : ℕ
  pub return_code : ℕ
  pub error : String
  pub was_killed : Bool

-- result.status == ResultStatus.SUCCESS
abbrev pub is_success : ResultStatus → Bool
is_success success = true
is_success _ = false

-- The words that the UI prints for the progress of an execution.
pub data Progress : Type 0 where
  start succeeded failed skipped : Progress

-- `running` maps an execution, by its number, to the time of its start.
pub record ExecutionPool : Type 0 where
  pub running : Dict ℕ ℕ
  pub stopped : Bool
  pub printed : List (ℕ × Progress)

unfoldable pub execution_start : ℕ → ℕ → ExecutionPool → ExecutionPool
execution_start execution now pool = record pool { running = insert execution now pool.running }

unfoldable pub execution_done : ℕ → ExecutionPool → ExecutionPool
execution_done execution pool = record pool { running = remove execution pool.running }

unfoldable pub stop : ExecutionPool → ExecutionPool
stop pool = record pool { stopped = true }

abbrev print : ℕ → Progress → ExecutionPool → ExecutionPool
print execution word pool = record pool { printed = pool.printed ++ (execution, word) ∷ [] }

-- A call of one of the three callbacks.
pub data Call : Type 0 where
  on_start on_skip : Call
  on_done : ExecutionResult → Call

-- What is stored of an execution, and which callbacks `bind` gave it.
pub record Execution : Type 0 where
  pub ident : ℕ
  pub store_stdout : Bool
  pub store_stderr : Bool
  pub store_stdout_bytes : Bool
  pub store_stderr_bytes : Bool
  pub stdout : Option String
  pub stderr : Option String
  pub stdout_bytes : Option (List ℕ)
  pub stderr_bytes : Option (List ℕ)
  pub result : Option ExecutionResult
  pub on_done_cb : Bool
  pub on_start_cb : Bool
  pub on_skip_cb : Bool

-- An execution in its pool, and the calls of its callbacks so far.
pub record Tracked : Type 0 where
  pub pool : ExecutionPool
  pub execution : Execution
  pub calls : List Call

abbrev pub is_none {ℓ} : {A : Type ℓ} → Option A → Bool
is_none none = true
is_none (some a) = false

-- The early returns of `_on_done_internal`.
abbrev pub waits : Execution → Bool
waits x =
    if not x.on_done_cb
    then true
    else if x.store_stdout && is_none x.stdout
    then true
    else if x.store_stderr && is_none x.stderr
    then true
    else if x.store_stdout_bytes && is_none x.stdout_bytes
    then true
    else if x.store_stderr_bytes && is_none x.stderr_bytes
    then true
    else is_none x.result

abbrev pub done_call : Option ExecutionResult → List Call
done_call none = []
done_call (some r) = on_done r ∷ []

unfoldable pub on_done_internal : Tracked → Tracked
on_done_internal t =
    if waits t.execution then t else record t { calls = t.calls ++ done_call t.execution.result }

-- What the frontend delivers, each by the callback that `__init__` registered for it.
pub data Delivered : Type 0 where
  started : ℕ → Delivered
  skipped : Delivered
  result : ExecutionResult → Delivered
  stdout stderr : String → Delivered
  stdout_bytes stderr_bytes : List ℕ → Delivered

unfoldable pub notify_start_internal : ℕ → Tracked → Tracked
unfolding execution_start
notify_start_internal now t =
    let x = t.execution in
    record t {
      pool = execution_start x.ident now (print x.ident start t.pool);
      calls = t.calls ++ (if x.on_start_cb then on_start ∷ [] else []);
    }

-- The assignments of the callbacks before they call `_on_done_internal`.
abbrev pub keep_result : ExecutionResult → Tracked → Tracked
keep_result r t =
    let x = t.execution in
    let word : Progress = if is_success r.status then succeeded else failed in
    record t {
      pool = execution_done x.ident (print x.ident word t.pool);
      execution = record x { result = some r };
    }

abbrev pub keep_stdout : String → Tracked → Tracked
keep_stdout s t = record t { execution = record (t.execution) { stdout = some s } }

abbrev pub keep_stderr : String → Tracked → Tracked
keep_stderr s t = record t { execution = record (t.execution) { stderr = some s } }

abbrev pub keep_stdout_bytes : List ℕ → Tracked → Tracked
keep_stdout_bytes b t = record t { execution = record (t.execution) { stdout_bytes = some b } }

abbrev pub keep_stderr_bytes : List ℕ → Tracked → Tracked
keep_stderr_bytes b t = record t { execution = record (t.execution) { stderr_bytes = some b } }

unfoldable pub get_result_internal : ExecutionResult → Tracked → Tracked
unfolding execution_done on_done_internal
get_result_internal r t = on_done_internal (keep_result r t)

unfoldable pub get_stdout_internal : String → Tracked → Tracked
unfolding on_done_internal
get_stdout_internal s t = on_done_internal (keep_stdout s t)

unfoldable pub get_stderr_internal : String → Tracked → Tracked
unfolding on_done_internal
get_stderr_internal s t = on_done_internal (keep_stderr s t)

unfoldable pub get_stdout_bytes_internal : List ℕ → Tracked → Tracked
unfolding on_done_internal
get_stdout_bytes_internal b t = on_done_internal (keep_stdout_bytes b t)

unfoldable pub get_stderr_bytes_internal : List ℕ → Tracked → Tracked
unfolding on_done_internal
get_stderr_bytes_internal b t = on_done_internal (keep_stderr_bytes b t)

unfoldable pub skipped_internal : Tracked → Tracked
skipped_internal t =
    let x = t.execution in
    record t {
      pool = print x.ident Progress.skipped t.pool;
      calls = t.calls ++ (if x.on_skip_cb then on_skip ∷ [] else []);
    }

unfoldable pub deliver : Delivered → Tracked → Tracked
unfolding notify_start_internal get_result_internal skipped_internal get_stdout_internal
    get_stderr_internal get_stdout_bytes_internal get_stderr_bytes_internal
deliver (started now) t = notify_start_internal now t
deliver skipped t = skipped_internal t
deliver (result r) t = get_result_internal r t
deliver (stdout s) t = get_stdout_internal s t
deliver (stderr s) t = get_stderr_internal s t
deliver (stdout_bytes b) t = get_stdout_bytes_internal b t
deliver (stderr_bytes b) t = get_stderr_bytes_internal b t

unfoldable pub deliver_all : List Delivered → Tracked → Tracked
deliver_all [] t = t
deliver_all (e ∷ es) t = deliver_all es (deliver e t)

-- stdout_content, and its three siblings for the other streams: a content that was not to be stored
-- is refused.
unfoldable pub stdout_content : Execution → Result (Option String)
stdout_content x =
    if x.store_stdout then ok x.stdout else err (value_error "Stdout was not captured")

unfoldable pub stderr_content : Execution → Result (Option String)
stderr_content x =
    if x.store_stderr then ok x.stderr else err (value_error "Stderr was not captured")

unfoldable pub stdout_content_bytes : Execution → Result (Option (List ℕ))
stdout_content_bytes x =
    if x.store_stdout_bytes
    then ok x.stdout_bytes
    else err (value_error "Stdout was not captured as bytes")

unfoldable pub stderr_content_bytes : Execution → Result (Option (List ℕ))
stderr_content_bytes x =
    if x.store_stderr_bytes
    then ok x.stderr_bytes
    else err (value_error "Stderr was not captured as bytes")

-- `bind` gives the callbacks; only `on_done_cb` is not optional.
unfoldable pub bind : Bool → Bool → Execution → Execution
bind has_start has_skip x = record x {
  on_done_cb = true;
  on_start_cb = has_start;
  on_skip_cb = has_skip;
}
