-- ===== src/Dag/Setup.antt =====
-- `Execution.__init__`: an execution is registered with the frontend.
use task_maker.Prelude.{
  ℕ, String, Bool, true, false, ◌&&◌, Option, none, some, List, [], ◌∷◌, ◌++◌, map, any, Dict,
  lookup, insert, string_eq, ◌==◌, length, set, if◌then◌else◌, Result, ok, err, value_error,
  type_error, or_raise,
}
use task_maker.Prelude.Execs.{Exec, pure, throw, lift, fetch, modify, ◌>>=◌, ◌>>◌}
use task_maker.Floats.{Floats}
use task_maker.Sources.{World, SourceFile, Dependency}
use task_maker.Dag.{
  File, content, stdout, output, Input, file, Command, local, system, CacheMode, same_mode, Limits,
  Config, Entry, Dag, key_of, provide,
}

-- The argument `cmd`: a pair, a source file, or the name of a system executable.
pub data Cmd : Type 0 where
  paired : String → File → Cmd
  of_source : SourceFile → Cmd
  of_path : String → Cmd

pub data Stdin : Type 0 where
  from : Input → Stdin
  text : String → Stdin

-- The arguments of `Execution`, less those for printing. An input may be None by mistake.
pub record Setup (F : Type 0) : Type 0 where
  pub name : String
  pub cmd : Cmd
  pub args : List String
  pub group : Option ℕ
  pub cache_on : List CacheMode
  pub extra_time : F
  pub limits : Option (Limits F)
  pub can_exclusive : Bool
  pub stdin : Option Stdin
  pub stdout_fifo : Option ℕ
  pub stderr_fifo : Option ℕ
  pub store_stdout : Bool
  pub store_stderr : Bool
  pub inputs : Dict String (Option Input)
  pub outputs : List (String × Bool)

-- What the rest of the program uses of an `Execution`.
pub record Handle : Type 0 where
  pub num : ℕ
  pub stdout : Option File
  pub outputs : List String

-- execution.output(path)
unfoldable pub output_of : Handle → String → Result File
output_of h path =
    if any (λ p. p == path) h.outputs
    then ok (output h.num path)
    else err (value_error "%s is not registered as an output")

abbrev is_given {ℓ} : {A : Type ℓ} → Option A → Bool
is_given none = false
is_given (some a) = true

abbrev pub cons_input : String → Input → Result (Dict String Input) → Result (Dict String Input)
cons_input p i (err e) = err e
cons_input p i (ok d) = ok ((p, i) ∷ d)

-- addInput and addFifo
abbrev pub all_inputs : Dict String (Option Input) → Result (Dict String Input)
all_inputs [] = ok []
all_inputs ((p, none) ∷ d) = err (value_error "Unsupported input type %s")
all_inputs ((p, some i) ∷ d) = cons_input p i (all_inputs d)

module _ {F : Type 0} (fl : Floats F) (w : World) (config : Config F) where
  abbrev pub blank : Setup F → Entry F
  blank s = record {
    name = s.name;
    group = s.group;
    complete = false;
    cached = true;
    exclusive = false;
    limits = none;
    extra_time = none;
    command = system "";
    args = [];
    stdin = none;
    stdout_fifo = none;
    stderr_fifo = none;
    inputs = [];
    outputs = [];
  }

  -- addExecution
  unfoldable pub add_execution : Setup F → Exec (Dag F) ℕ
  add_execution s d = (ok (length d.entries), record d { entries = d.entries ++ blank s ∷ [] })

  -- The files that an interpreted program needs beside its source.
  unfoldable pub provide_deps :
      List Dependency → Dict String (Option Input) → Exec (Dag F) (Dict String (Option Input))
  unfolding provide
  provide_deps [] inputs = pure inputs
  provide_deps (dep ∷ deps) inputs =
      provide w dep.path >>= λ f. provide_deps deps (insert dep.name (some (file f)) inputs)

  -- The command to run and the inputs, by the kind of `cmd`. A pair is passed on whole where the
  -- frontend wants a file.
  unfoldable pub resolve : Setup F → Exec (Dag F) (Command × Dict String (Option Input))
  unfolding provide_deps
  resolve s = elim s.cmd [
    | paired name f ↦ throw type_error
    | of_path p ↦ pure (system p, s.inputs)
    | of_source sf ↦ do
      executable ←
          fetch (λ d. lookup (key_of sf) d.prepared)
            (value_error "The SourceFile of cmd is not prepared")
      f ← lift (or_raise executable type_error)
      inputs ←
          if sf.language.need_compilation
          then pure s.inputs
          else provide_deps sf.dependencies s.inputs
      pure (local sf.exe_name f, inputs)
  ]

  abbrev pub stdin_of : Option Stdin → Option Input
  stdin_of none = none
  stdin_of (some (from i)) = some i
  stdin_of (some (text t)) = some (file (content t))

  abbrev pub clash : Setup F → Result (Unit {0})
  clash s =
      if s.store_stdout && is_given s.stdout_fifo
      then err (value_error "Cannot store stdout and use a Fifo")
      else if s.store_stderr && is_given s.stderr_fifo
      then err (value_error "Cannot store stderr and use a Fifo")
      else ok tt

  abbrev pub filled : Setup F → Command → Dict String Input → Entry F
  filled s command inputs = record {
    name = s.name;
    group = s.group;
    complete = true;
    cached = any (same_mode config.cache) s.cache_on;
    exclusive = s.can_exclusive && config.exclusive;
    limits = s.limits;
    extra_time = if fl.eq s.extra_time fl.zero then none else some s.extra_time;
    command = command;
    args = s.args;
    stdin = stdin_of s.stdin;
    stdout_fifo = s.stdout_fifo;
    stderr_fifo = s.stderr_fifo;
    inputs = inputs;
    outputs = s.outputs;
  }

  abbrev pub keep_entry : ℕ → Entry F → Exec (Dag F) Unit
  keep_entry k e = modify (λ d. record d { entries = set d.entries k e })

  abbrev pub handle : ℕ → Setup F → Handle
  handle k s = record {
    num = k;
    stdout = (elim s.stdout_fifo [ none ↦ some (stdout k) | some p ↦ none ]);
    outputs = map (λ o. o.0) s.outputs;
  }

  unfoldable pub new_execution : Setup F → Exec (Dag F) Handle
  unfolding add_execution resolve
  new_execution s = do
    k ← add_execution s
    (command, inputs) ← resolve s
    lift (clash s)
    given ← lift (all_inputs inputs)
    keep_entry k (filled s command given)
    pure (handle k s)

-- An execution with the default values of the arguments that are not given.
abbrev pub plain : {F : Type 0} → Floats F → String → Cmd → List String → Setup F
plain fl name cmd args = record {
  name = name;
  cmd = cmd;
  args = args;
  group = none;
  cache_on = CacheMode.all_cached ∷ CacheMode.reevaluate ∷ [];
  extra_time = fl.zero;
  limits = none;
  can_exclusive = false;
  stdin = none;
  stdout_fifo = none;
  stderr_fifo = none;
  store_stdout = false;
  store_stderr = false;
  inputs = [];
  outputs = [];
}
