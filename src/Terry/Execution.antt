-- ===== src/Terry/Execution.antt =====
-- The executions of a Terry task: python/formats/terry_format/execution.py.
use task_maker.Prelude.{
  ℕ, zero, suc, ◌*◌, String, ◌+s◌, decimal, true, Option, none, some, List, [], ◌∷◌, Dict, lookup,
  insert, string_eq, attribute_error, or_raise,
}
use task_maker.Prelude.Execs.{Exec, pure, lift, get, modify, ◌>>=◌, ◌>>◌}
use task_maker.Floats.{Floats}
use task_maker.Sources.{World, SourceFile}
use task_maker.Ui.Compilation.{solution, non_solution, Kind, add_file}
use task_maker.Terry.{generation, validation, solution_run, check}
use task_maker.Dag.{File, Input, file, CacheMode, Limits, Config, Dag, key_of, watch, terry}
use task_maker.Dag.Setup.{Setup, of_source, from, plain, new_execution}
use task_maker.Dag.Compile.{prepare}

pub record TerryTask : Type 0 where
  pub generator : SourceFile
  pub validator : Option SourceFile
  pub official_solution : Option SourceFile
  pub checker : SourceFile

-- `config.seed` if it is there and not 0, else the random number.
abbrev pub seed_of : Option ℕ → ℕ → ℕ
seed_of none random = random
seed_of (some zero) random = random
seed_of (some (suc n)) random = suc n

abbrev pub given_file : Option File → Option Input
given_file none = none
given_file (some f) = some (file f)

-- Inputs with the executable of the official solution, where there is one. `executable` is its attribute.
abbrev pub with_official :
    Option SourceFile → Option File → Dict String (Option Input) → Dict String (Option Input)
with_official none executable d = d
with_official (some official) executable d = insert official.exe_name (given_file executable) d

module _ {F : Type 0} (fl : Floats F) (w : World) (config : Config F) (task : TerryTask) where
  -- The attribute `executable` of the official solution, None before it is prepared.
  abbrev pub executable_in : Dag F → Option SourceFile → Option File
  executable_in d none = none
  executable_in d (some official) = elim (lookup (key_of official) d.prepared) [
    | none ↦ none
    | some f ↦ f
  ]

  abbrev pub official_executable : Exec (Dag F) (Option File)
  official_executable = get (λ d. executable_in d task.official_solution)

  abbrev pub generation_of : SourceFile → ℕ → Option File → Setup F
  generation_of source seed official =
      record (plain fl
        ("Generation of input for solution " +s (source.name +s (" with seed " +s decimal seed)))
        (of_source task.generator) (decimal seed ∷ "0" ∷ [])) {
          inputs = with_official task.official_solution official [];
          store_stderr = true;
        }

  abbrev pub validation_of : SourceFile → SourceFile → File → Option File → Setup F
  validation_of source validator input official =
      record (plain fl ("Validation of input for solution " +s source.name) (of_source validator)
        ("0" ∷ [])) {
          stdin = some (from (file input));
          inputs = with_official task.official_solution official [];
          store_stderr = true;
        }

  -- 20 and 30 seconds, 1 GiB
  abbrev pub limits_of_run : Limits F
  limits_of_run = record {
    cpu_time = fl.of_ℕ 20;
    wall_time = fl.of_ℕ 30;
    memory = some (1024 * 1024);
  }

  -- The dictionary with the validation's output is not passed on.
  abbrev pub solving_of : SourceFile → File → Setup F
  solving_of source input =
      record (plain fl ("Running solution " +s source.name) (of_source source) []) {
        limits = some limits_of_run;
        cache_on = CacheMode.all_cached ∷ [];
        can_exclusive = true;
        stdin = some (from (file input));
        store_stderr = true;
      }

  abbrev pub checking_of : SourceFile → File → File → Option File → Setup F
  checking_of source input answer official =
      record (plain fl ("Checking solution " +s source.name) (of_source task.checker)
        ("input" ∷ "output" ∷ [])) {
          inputs =
              with_official task.official_solution official
                (("input", some (file input)) ∷ ("output", some (file answer)) ∷ []);
          store_stderr = true;
          store_stdout = true;
        }

  abbrev pub made : Option File → Exec (Dag F) File
  made f = lift (or_raise f attribute_error)

  unfoldable pub validate : SourceFile → File → Option SourceFile → Exec (Dag F) Unit
  unfolding new_execution
  validate source input none = pure tt
  validate source input (some validator) = do
    official ← official_executable
    h ← new_execution fl w config (validation_of source validator input official)
    watch w (terry validation source.name h.num)

  -- The second half of `evaluate_solution`: the run of the solution and of the checker.
  unfoldable pub solve_and_check : SourceFile → File → Exec (Dag F) Unit
  unfolding new_execution
  solve_and_check source input = do
    solved ← new_execution fl w config (solving_of source input)
    answer ← made solved.stdout
    watch w (terry solution_run source.name solved.num)
    official ← official_executable
    checked ← new_execution fl w config (checking_of source input answer official)
    watch w (terry check source.name checked.num)

  unfoldable pub evaluate_solution : ℕ → SourceFile → Exec (Dag F) Unit
  unfolding new_execution validate solve_and_check
  evaluate_solution seed source = do
    official ← official_executable
    generated ← new_execution fl w config (generation_of source seed official)
    input ← made generated.stdout
    watch w (terry generation source.name generated.num)
    validate source input task.validator
    solve_and_check source input

  unfoldable pub add : Kind → SourceFile → Exec (Dag F) Unit
  unfolding prepare add_file
  add kind source = do
    prepare fl w config source
    modify (λ d. record d { interface = add_file kind source d.interface })

  abbrev pub add_given : Option SourceFile → Exec (Dag F) Unit
  add_given none = pure tt
  add_given (some source) = add non_solution source

  -- The loop over the solutions, each with the random number that it draws.
  unfoldable pub evaluate_all : Option ℕ → List (SourceFile × ℕ) → Exec (Dag F) Unit
  unfolding add evaluate_solution
  evaluate_all seed [] = pure tt
  evaluate_all seed ((source, random) ∷ sources) = do
    add solution source
    evaluate_solution (seed_of seed random) source
    evaluate_all seed sources

  -- `evaluate_task` up to the start of the pool.
  unfoldable pub build_terry : Option ℕ → List (SourceFile × ℕ) → Exec (Dag F) Unit
  unfolding add evaluate_all
  build_terry seed sources = do
    add non_solution task.generator
    add_given task.validator
    add_given task.official_solution
    add non_solution task.checker
    evaluate_all seed sources
