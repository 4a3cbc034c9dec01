-- ===== src/Dag/Evaluation.antt =====
-- Communication solutions, and the evaluation of all solutions: python/solution.py and
-- `evaluate_solutions`.
use task_maker.Prelude.{
  ℕ, zero, suc, String, ◌+s◌, decimal, true, Option, none, some, List, [], ◌∷◌, ◌++◌, map, Dict,
  lookup, string_eq, pair_eq, ok, err, attribute_error,
}
use task_maker.Prelude.Execs.{Exec, pure, lift, get, modify, ◌>>=◌, ◌>>◌}
use task_maker.Floats.{Floats}
use task_maker.Sources.{World, SourceFile}
use task_maker.Ui.Compilation.{solution, add_file}
use task_maker.Dag.{File, Input, fifo, CacheMode, Limits, Config, Dag, watch, evaluation, checking}
use task_maker.Dag.Setup.{Setup, of_source, Handle, plain, new_execution}
use task_maker.Dag.Compile.{prepare}
use task_maker.Dag.Solutions.{
  IoiTask, Solution, Pipes, half_more, solution_limits, wait_validation, with_input, input_stdin,
  out_files, evaluate_batch, Solution, Pipes,
}

module _ {F : Type 0} (fl : Floats F) (w : World) (config : Config F) (task : IoiTask F) where
  abbrev pub create_fifo : Exec (Dag F) ℕ
  create_fifo d = (ok d.fifos, record d { fifos = suc d.fifos })

  abbrev pub add_group : Exec (Dag F) ℕ
  add_group d = (ok d.groups, record d { groups = suc d.groups })

  -- The pipes of `count` processes, of which the first has the number `p`.
  unfoldable pub create_pipes : ℕ → ℕ → Exec (Dag F) (List Pipes)
  create_pipes zero p = pure []
  create_pipes (suc count) p = do
    a ← create_fifo
    b ← create_fifo
    rest ← create_pipes count (suc p)
    pure (
        record {
          to_solution = a;
          to_manager = b;
          to_solution_name = "pipe_m_2_sol" +s decimal p;
          to_manager_name = "pipe_sol" +s (decimal p +s "_2_m");
        }
        ∷ rest)

  abbrev pub process_setup : SourceFile → ℕ → ℕ → ℕ → Pipes → Option File → Setup F
  process_setup source testcase group p pipes validation =
      record (plain fl
        ("Evaluation of "
          +s (source.name
              +s (" (process " +s (decimal p +s (") on testcase " +s decimal testcase)))))
        (of_source source) (pipes.to_manager_name ∷ pipes.to_solution_name ∷ decimal p ∷ [])) {
          group = some group;
          extra_time = config.extra_time;
          limits = some (solution_limits fl w config task);
          inputs =
              (wait_validation fl w config task) validation
              ++ (pipes.to_solution_name, some (fifo pipes.to_solution))
                ∷ (pipes.to_manager_name, some (fifo pipes.to_manager))
                ∷ [];
        }

  unfoldable pub add_processes :
      SourceFile → ℕ → ℕ → ℕ → Option File → List Pipes → Exec (Dag F) (List Handle)
  unfolding new_execution
  add_processes source testcase group p validation [] = pure []
  add_processes source testcase group p validation (pipes ∷ rest) = do
    h ← new_execution fl w config (process_setup source testcase group p pipes validation)
    hs ← add_processes source testcase group (suc p) validation rest
    pure (h ∷ hs)

  abbrev pub manager_args : List Pipes → List String
  manager_args [] = []
  manager_args (pipes ∷ rest) = pipes.to_solution_name ∷ pipes.to_manager_name ∷ manager_args rest

  abbrev pub pipe_inputs : List Pipes → Dict String (Option Input)
  pipe_inputs [] = []
  pipe_inputs (pipes ∷ rest) =
      (pipes.to_solution_name, some (fifo pipes.to_solution))
      ∷ (pipes.to_manager_name, some (fifo pipes.to_manager))
      ∷ pipe_inputs rest

  abbrev pub manager_limits : ℕ → Limits F
  manager_limits n = record {
    cpu_time = fl.mul task.time_limit (fl.of_ℕ n);
    wall_time = (half_more fl w config task) (fl.mul task.time_limit (fl.of_ℕ n));
    memory = none;
  }

  abbrev pub manager_setup : SourceFile → SourceFile → ℕ → ℕ → ℕ → List Pipes → File → Setup F
  manager_setup source manager n testcase group pipes input =
      record (plain fl
        ("Evaluation of "
          +s (source.name +s (" (manager process) on testcase " +s decimal testcase)))
        (of_source manager) (manager_args pipes)) {
          group = some group;
          limits = some (manager_limits n);
          inputs = (with_input fl w config task) input (pipe_inputs pipes);
          outputs = (out_files fl w config task);
          stdin = (input_stdin fl w config task) input;
          can_exclusive = true;
          cache_on = CacheMode.all_cached ∷ [];
          store_stdout = true;
          store_stderr = true;
        }

  -- CommunicationSolution.evaluate
  unfoldable pub evaluate_communication :
      SourceFile → SourceFile → ℕ → ℕ → File → Option File → Exec (Dag F) (List Handle × Handle)
  unfolding create_pipes add_processes new_execution
  evaluate_communication source manager n testcase input validation = do
    group ← add_group
    pipes ← create_pipes n 0
    executions ← add_processes source testcase group 0 validation pipes
    h ← new_execution fl w config (manager_setup source manager n testcase group pipes input)
    pure (executions, h)

  -- solution.evaluate
  unfoldable pub evaluate :
      Solution → ℕ → File → Option File → Option File → Exec (Dag F) (List Handle × Handle)
  unfolding evaluate_batch evaluate_communication
  evaluate sol testcase input validation correct = elim sol.num_processes [
    | none ↦
        (evaluate_batch fl w config task) sol.source sol.checker testcase input validation correct
    | some n ↦ elim sol.checker [
      | none ↦ lift (err attribute_error)
      | some manager ↦ evaluate_communication sol.source manager n testcase input validation
    ]
  ]

  -- The loop over the inputs. `validations.get` and `outputs.get` give None for a missing key.
  unfoldable pub evaluate_cases : Solution → Dict (ℕ × ℕ) File → Exec (Dag F) Unit
  unfolding evaluate
  evaluate_cases sol [] = pure tt
  evaluate_cases sol (((st, tc), input) ∷ rest) = do
    validation ← get (λ d. lookup (st, tc) d.case_validations)
    correct ← get (λ d. lookup (st, tc) d.case_outputs)
    (evals, check) ← evaluate sol tc input validation correct
    watch w (evaluation st tc sol.source.name (map (λ h. h.num) evals))
    watch w (checking st tc sol.source.name check.num)
    evaluate_cases sol rest

  unfoldable pub evaluate_solutions : List Solution → Exec (Dag F) Unit
  unfolding prepare evaluate_cases add_file
  evaluate_solutions [] = pure tt
  evaluate_solutions (sol ∷ sols) = do
    prepare fl w config sol.source
    modify (λ d. record d { interface = add_file solution sol.source d.interface })
    inputs ← get (λ d. d.case_inputs)
    evaluate_cases sol inputs
    evaluate_solutions sols
