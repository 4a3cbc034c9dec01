-- ===== src/Dag/Solutions.antt =====
-- The executions of a solution and of its checker: python/solution.py, and `evaluate_solutions`.
use task_maker.Prelude.{
  ℕ, ◌*◌, String, ◌+s◌, decimal, is_empty, Bool, true, false, Option, none, some, List, [], ◌∷◌,
  Dict, insert, string_eq, pair_eq, if◌then◌else◌, Result, ok, err,
}
use task_maker.Prelude.Execs.{Exec, pure, lift, ◌>>=◌, ◌>>◌}
use task_maker.Floats.{Floats}
use task_maker.Sources.{World, SourceFile}
use task_maker.Formats.{Subtask}
use task_maker.Dag.{File, Input, file, CacheMode, Limits, Config, Dag}
use task_maker.Dag.Setup.{
  Setup, of_source, of_path, Stdin, from, Handle, plain, new_execution, output_of,
}
use task_maker.Dag.Compile.{prepare}

-- The fields of `IOITask` that the executions depend on.
pub record IoiTask (F : Type 0) : Type 0 where
  pub subtasks : Dict ℕ (Subtask F)
  pub official_solution : Option SourceFile
  pub checker : Option SourceFile
  pub time_limit : F
  pub memory_limit_kb : ℕ
  pub input_file : String
  pub output_file : String
  pub is_batch : Bool

-- A BatchSolution, or a CommunicationSolution with its number of processes.
pub record Solution : Type 0 where
  pub source : SourceFile
  pub checker : Option SourceFile
  pub num_processes : Option ℕ

-- The two pipes of a process, the first from the manager and the second to it, and their names.
pub record Pipes : Type 0 where
  pub to_solution : ℕ
  pub to_manager : ℕ
  pub to_solution_name : String
  pub to_manager_name : String

module _ {F : Type 0} (fl : Floats F) (w : World) (config : Config F) (task : IoiTask F) where
  -- x * 1.5
  abbrev pub half_more : F → F
  half_more x = fl.mul x (fl.div (fl.of_ℕ 3) (fl.of_ℕ 2))

  abbrev pub twice : F → F
  twice x = fl.mul x (fl.of_ℕ 2)

  abbrev pub checker_limits : Limits F
  checker_limits = record {
    cpu_time = twice task.time_limit;
    wall_time = twice (half_more task.time_limit);
    memory = some (task.memory_limit_kb * 2);
  }

  abbrev pub solution_limits : Limits F
  solution_limits = record {
    cpu_time = task.time_limit;
    wall_time = half_more task.time_limit;
    memory = some task.memory_limit_kb;
  }

  abbrev pub optional : Option File → Option Input
  optional none = none
  optional (some f) = some (file f)

  abbrev pub checker_setup :
      Option SourceFile → Option File → Option File → Option File → String → Setup F
  checker_setup none input out correct message =
      record (plain fl message (of_path "diff") ("-w" ∷ "output" ∷ "contestant_output" ∷ [])) {
        cache_on = CacheMode.all_cached ∷ [];
        limits = some checker_limits;
        inputs = ("output", optional correct) ∷ ("contestant_output", optional out) ∷ [];
        store_stdout = true;
        store_stderr = true;
      }
  checker_setup (some checker) input out correct message =
      record (plain fl message (of_source checker)
        ("input" ∷ "output" ∷ "contestant_output" ∷ [])) {
          cache_on = CacheMode.all_cached ∷ [];
          limits = some checker_limits;
          inputs =
              ("input", optional input)
              ∷ ("output", optional correct)
              ∷ ("contestant_output", optional out)
              ∷ [];
          store_stdout = true;
          store_stderr = true;
        }

  abbrev pub prepare_checker : Option SourceFile → Exec (Dag F) Unit
  prepare_checker none = pure tt
  prepare_checker (some checker) = prepare fl w config checker

  unfoldable pub get_checker_execution :
      Option SourceFile → Option File → Option File → Option File → String → Exec (Dag F) Handle
  unfolding prepare new_execution
  get_checker_execution checker input out correct message = do
    prepare_checker checker
    new_execution fl w config (checker_setup checker input out correct message)

  -- The validation's output is an input, so that the solution waits for it.
  abbrev pub wait_validation : Option File → Dict String (Option Input)
  wait_validation none = []
  wait_validation (some f) = ("tm_wait_validation", some (file f)) ∷ []

  -- The input comes as a file of that name, or from the standard input where there is no name.
  abbrev pub with_input : File → Dict String (Option Input) → Dict String (Option Input)
  with_input input d =
      if is_empty task.input_file then d else insert task.input_file (some (file input)) d

  abbrev pub input_stdin : File → Option Stdin
  input_stdin input = if is_empty task.input_file then some (from (file input)) else none

  abbrev pub out_files : List (String × Bool)
  out_files = if is_empty task.output_file then [] else (task.output_file, false) ∷ []

  -- What the execution writes: the file of that name, or its standard output.
  abbrev pub output_file_of : Handle → Result (Option File)
  output_file_of h =
      if is_empty task.output_file
      then ok h.stdout
      else elim (output_of h task.output_file) [ err e ↦ err e | ok f ↦ ok (some f) ]

  abbrev pub batch_setup : SourceFile → ℕ → File → Option File → Setup F
  batch_setup source testcase input validation =
      record (plain fl ("Evaluation of " +s (source.name +s (" on testcase " +s decimal testcase)))
        (of_source source) []) {
          cache_on = CacheMode.all_cached ∷ [];
          extra_time = config.extra_time;
          limits = some solution_limits;
          can_exclusive = true;
          stdin = input_stdin input;
          inputs = with_input input (wait_validation validation);
          outputs = out_files;
        }

  -- BatchSolution.evaluate
  unfoldable pub evaluate_batch :
      SourceFile
      → Option SourceFile
      → ℕ
      → File
      → Option File
      → Option File
      → Exec (Dag F) (List Handle × Handle)
  unfolding new_execution get_checker_execution
  evaluate_batch source checker testcase input validation correct = do
    eval ← new_execution fl w config (batch_setup source testcase input validation)
    out ← lift (output_file_of eval)
    check ←
        get_checker_execution checker (some input) out correct
          ("Checking solution " +s (source.name +s (" for testcase " +s decimal testcase)))
    pure (eval ∷ [], check)
