-- ===== src/Dag/Inputs.antt =====
-- `generate_inputs`, and `evaluate_task` as far as it registers executions:
-- python/formats/ioi_format/execution.py.
use task_maker.Prelude.{
  ℕ, suc, String, ◌+s◌, decimal, is_empty, Bool, true, false, not, Option, none, some, List, [],
  ◌∷◌, ◌++◌, Dict, lookup, has, insert, string_eq, pair_eq, if◌then◌else◌, attribute_error,
  key_error, or_raise,
}
use task_maker.Prelude.Execs.{Exec, pure, lift, get, fetch, modify, catch_runtime, ◌>>=◌, ◌>>◌}
use task_maker.Floats.{Floats}
use task_maker.Sources.{World, SourceFile}
use task_maker.Formats.{Generator, TestCase, Subtask, Numbers}
use task_maker.Formats.Variables.{get_args, validation_input_name}
use task_maker.Ui.{add_error}
use task_maker.Ui.Compilation.{non_solution, add_file}
use task_maker.Ioi.Generation.{generation, validation, solving}
use task_maker.Dag.{File, Input, file, Config, Dag, key_of, provide, watch, write_to, stage}
use task_maker.Dag.Setup.{Setup, of_source, plain, provide_deps, new_execution}
use task_maker.Dag.Compile.{prepare}
use task_maker.Dag.Solutions.{IoiTask, Solution, with_input, input_stdin, out_files, output_file_of}
use task_maker.Dag.Evaluation.{evaluate_solutions}

module _ {F : Type 0} (fl : Floats F) (n : Numbers F) (w : World) (config : Config F)
    (task : IoiTask F) where
  -- The local function `add_non_solution`.
  unfoldable pub add_non_solution : SourceFile → Exec (Dag F) Unit
  unfolding prepare add_file
  add_non_solution source = do
    prepared ← get (λ d. has (key_of source) d.prepared)
    if prepared then pure tt else do
      prepare fl w config source
      modify (λ d. record d { interface = add_file non_solution source d.interface })

  abbrev pub add_optional : Option Generator → Exec (Dag F) Unit
  add_optional none = pure tt
  add_optional (some g) = add_non_solution g.source_file

  abbrev pub set_input : ℕ × ℕ → File → Exec (Dag F) Unit
  set_input k f = modify (λ d. record d { case_inputs = insert k f d.case_inputs })

  abbrev pub set_output : ℕ × ℕ → File → Exec (Dag F) Unit
  set_output k f = modify (λ d. record d { case_outputs = insert k f d.case_outputs })

  abbrev pub set_validation : ℕ × ℕ → File → Exec (Dag F) Unit
  set_validation k f = modify (λ d. record d { case_validations = insert k f d.case_validations })

  -- A file that the program takes from an execution; it is None where it goes to a pipe.
  abbrev pub made : Option File → Exec (Dag F) File
  made f = lift (or_raise f attribute_error)

  abbrev pub validation_setup : Generator → ℕ → List String → File → Setup F
  validation_setup validator tc args input =
      record (plain fl ("Validation of input " +s decimal tc) (of_source validator.source_file)
        args) { inputs = (validation_input_name, some (file input)) ∷ []; store_stderr = true }

  unfoldable pub validate : ℕ → ℕ → TestCase → Subtask F → Generator → File → Exec (Dag F) Unit
  unfolding new_execution
  validate st tc testcase subtask validator input = do
    args ← lift (get_args fl n validator testcase subtask tc (suc st))
    val ← new_execution fl w config (validation_setup validator tc args input)
    f ← made val.stdout
    set_validation (st, tc) f
    watch w (stage validation st tc val.num)

  abbrev pub validate_optional :
      ℕ → ℕ → TestCase → Subtask F → Option Generator → File → Exec (Dag F) Unit
  validate_optional st tc testcase subtask none input = pure tt
  validate_optional st tc testcase subtask (some v) input = validate st tc testcase subtask v input

  -- A static input; whether the rest of the loop's body is run.
  unfoldable pub static_input : ℕ → ℕ → TestCase → Subtask F → String → Exec (Dag F) Bool
  unfolding provide validate add_error
  static_input st tc testcase subtask path =
      catch_runtime
        (do
          f ← provide w path
          set_input (st, tc) f
          validate_optional st tc testcase subtask testcase.validator f
          pure true)
        (λ what. do
          modify (λ d. record d {
            interface = add_error what d.interface;
            failed = d.failed ++ (st, tc) ∷ [];
          })
          pure false)

  abbrev pub generation_setup : Generator → ℕ → List String → Dict String (Option Input) → Setup F
  generation_setup generator tc args deps =
      record (plain fl ("Generation of input " +s decimal tc) (of_source generator.source_file)
        args) { inputs = deps; store_stderr = true }

  unfoldable pub generated_input : ℕ → ℕ → TestCase → Subtask F → Exec (Dag F) Bool
  unfolding add_non_solution provide_deps new_execution validate
  generated_input st tc testcase subtask = do
    generator ← lift (or_raise testcase.generator attribute_error)
    add_non_solution generator.source_file
    deps ← provide_deps fl w config testcase.extra_deps []
    gen ← new_execution fl w config (generation_setup generator tc testcase.generator_args deps)
    f ← made gen.stdout
    set_input (st, tc) f
    watch w (stage generation st tc gen.num)
    validator ← lift (or_raise testcase.validator attribute_error)
    validate st tc testcase subtask validator f
    pure true

  abbrev pub copy_unless_dry : String → Exec (Dag F) File → Exec (Dag F) Unit
  copy_unless_dry path m =
      if is_empty path
      then pure tt
      else (if config.dry_run then pure tt else do f ← m; write_to w f path)

  abbrev pub the_input : ℕ → ℕ → Exec (Dag F) File
  the_input st tc = fetch (λ d. lookup (st, tc) d.case_inputs) key_error

  abbrev pub solving_setup : SourceFile → ℕ → File → File → Setup F
  solving_setup official tc input validated =
      record (plain fl ("Generation of output " +s decimal tc) (of_source official) []) {
        inputs =
            with_input fl w config task input (("wait_for_validation", some (file validated)) ∷ []);
        outputs = out_files fl w config task;
        stdin = input_stdin fl w config task input;
        store_stderr = true;
      }

  -- The official solution writes the correct output, once the input was validated.
  unfoldable pub solve : ℕ → ℕ → Exec (Dag F) Unit
  unfolding add_non_solution new_execution
  solve st tc = do
    official ← lift (or_raise task.official_solution attribute_error)
    add_non_solution official
    validated ← fetch (λ d. lookup (st, tc) d.case_validations) key_error
    input ← the_input st tc
    sol ← new_execution fl w config (solving_setup official tc input validated)
    out ← lift (output_file_of fl w config task sol)
    f ← made out
    set_output (st, tc) f
    watch w (stage solving st tc sol.num)

  abbrev pub static_output : ℕ → ℕ → String → Exec (Dag F) Unit
  static_output st tc path = do f ← provide w path; set_output (st, tc) f

  abbrev pub present : Option String → Option String
  present none = none
  present (some p) = if is_empty p then none else some p

  unfoldable pub make_output : ℕ → ℕ → TestCase → Exec (Dag F) Unit
  unfolding provide solve
  make_output st tc testcase = if not task.is_batch then pure tt else do
    elim (present testcase.output_file) [
      | some path ↦ static_output st tc path
      | none ↦ solve st tc
    ]
    copy_unless_dry testcase.write_output_to (fetch (λ d. lookup (st, tc) d.case_outputs) key_error)

  -- The body of the loop over the testcases.
  unfoldable pub generate_case : ℕ → Subtask F → ℕ → TestCase → Exec (Dag F) Unit
  unfolding add_non_solution static_input generated_input make_output
  generate_case st subtask tc testcase = do
    add_optional testcase.validator
    goes_on ← elim (present testcase.input_file) [
      | some path ↦ static_input st tc testcase subtask path
      | none ↦ generated_input st tc testcase subtask
    ]
    if not goes_on then pure tt else do
      copy_unless_dry testcase.write_input_to (the_input st tc)
      make_output st tc testcase

  unfoldable pub generate_cases : ℕ → Subtask F → Dict ℕ TestCase → Exec (Dag F) Unit
  unfolding generate_case
  generate_cases st subtask [] = pure tt
  generate_cases st subtask ((tc, testcase) ∷ rest) = do
    generate_case st subtask tc testcase
    generate_cases st subtask rest

  unfoldable pub generate_subtasks : Dict ℕ (Subtask F) → Exec (Dag F) Unit
  unfolding generate_cases
  generate_subtasks [] = pure tt
  generate_subtasks ((st, subtask) ∷ rest) = do
    generate_cases st subtask subtask.testcases
    generate_subtasks rest

  abbrev pub add_checker : Option SourceFile → Exec (Dag F) Unit
  add_checker none = pure tt
  add_checker (some c) = add_non_solution c

  unfoldable pub generate_inputs : Exec (Dag F) Unit
  unfolding generate_subtasks add_non_solution
  generate_inputs = do generate_subtasks task.subtasks; add_checker task.checker

  -- `evaluate_task`: the generation, then the evaluation of all solutions.
  unfoldable pub build : List Solution → Exec (Dag F) Unit
  unfolding generate_inputs evaluate_solutions
  build solutions = do generate_inputs; evaluate_solutions fl w config task solutions
