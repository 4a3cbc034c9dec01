-- ===== src/Dag/Tests.antt =====
-- A task of one subtask with a generated and a static testcase, and its computation.
use task_maker.Prelude.{
  ℕ, ◌≡◌, refl, true, false, none, some, List, [], ◌∷◌, ◌++◌, lookup, nat_eq, string_eq, insert,
  decimal, map,
}
use task_maker.Prelude.Execs.{◌>>=◌, catch_runtime}
use task_maker.Ui.{UiInterface}
use task_maker.Sources.{SourceFile}
use task_maker.Formats.{Generator, TestCase}
use task_maker.Ioi.{ScoreMode}
use task_maker.Cases.Tests.{whole, texts, world, program, generator}
use task_maker.Dag.{Input, Config, CacheMode, Entry, Dag, output, key_of}
use task_maker.Dag.Solutions.{IoiTask, Solution, batch_setup, solution_limits}
use task_maker.Dag.Setup.{new_execution, output_of}
use task_maker.Formats.Variables.{get_args}
use task_maker.Dag.Inputs.{build}
use task_maker.Dag.Ordered.{Ordered}
use task_maker.Dag.Built.{empty}
use task_maker.Dag.Waits.{batch_setup-waits}

abbrev solution : SourceFile
solution = record program { path = "sol/sol.cpp"; exe_name = "sol"; name = "sol.cpp" }

abbrev any_args : Generator
any_args = record generator { args_spec = none }

abbrev generated : TestCase
generated = record {
  generator = some any_args;
  validator = some any_args;
  generator_args = "7" ∷ [];
  extra_deps = [];
  input_file = none;
  output_file = none;
  write_input_to = "input/input0.txt";
  write_output_to = "output/output0.txt";
  matched_params = [];
}

abbrev static : TestCase
static = record generated {
  generator = none;
  validator = none;
  input_file = some "big.txt";
  output_file = some "big.out";
}

abbrev task : IoiTask ℕ
task = record {
  subtasks =
      (
        0,
        record {
          name = "all";
          description = "";
          score_mode = ScoreMode.min;
          max_score = 10000;
          testcases = (0, generated) ∷ (1, static) ∷ [];
          constraints = [];
        },
      )
      ∷ [];
  official_solution = some solution;
  checker = none;
  time_limit = 100;
  memory_limit_kb = 1024;
  input_file = "input.txt";
  output_file = "";
  is_batch = true;
}

abbrev solutions : List Solution
solutions = record { source = solution; checker = none; num_processes = none } ∷ []

abbrev config : Config ℕ
config = record { cache = CacheMode.all_cached; exclusive = false; dry_run = false; extra_time = 0 }

abbrev ui : UiInterface
ui = record { non_solutions = []; solutions = []; warnings = []; errors = []; printed = [] }

abbrev start : Dag ℕ
start = empty whole texts world config task ui

registered :
    map (λ e. e.name) (build whole texts world config task solutions start).1.entries
    ≡ "Compilation of gen.cpp" ∷ "Generation of input 0" ∷ "Validation of input 0"
      ∷ "Compilation of sol.cpp" ∷ "Generation of output 0" ∷ "Evaluation of sol.cpp on testcase 0"
      ∷ "Checking solution sol.cpp for testcase 0" ∷ "Evaluation of sol.cpp on testcase 1"
      ∷ "Checking solution sol.cpp for testcase 1" ∷ []
unfolding build ◌>>=◌ lookup output_of insert get_args catch_runtime decimal
registered = refl

abbrev prepared : Dag ℕ
prepared = record start { prepared = (key_of solution, some (output 0 "sol")) ∷ [] }

lookup_prepared : lookup (key_of solution) prepared.prepared ≡ some (some (output 0 "sol"))
unfolding lookup
lookup_prepared = refl

batch_setup-waits_example :
    (e : Entry ℕ) × ((new_execution whole world config
        (batch_setup whole world config task solution 4 (output 1 "i") (some (output 2 "v")))
        prepared).1.entries
      ≡ [] ++ e ∷ [])
    × (lookup "tm_wait_validation" e.inputs ≡ some (Input.file (output 2 "v")))
    × (e.limits ≡ some (solution_limits whole world config task))
batch_setup-waits_example =
    batch_setup-waits whole world config task solution (output 0 "sol") 4 (output 1 "i")
      (output 2 "v") prepared refl lookup_prepared refl
