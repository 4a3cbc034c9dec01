-- ===== src/Ui/Tests.antt =====
-- A solution that does not compile beside a generator that does.
use task_maker.Prelude.{◌+◌, ◌≡◌, refl, length, none, List, [], ◌∷◌, String, true, false}
use task_maker.Remote.{ExecutionResult, success, return_code}
use task_maker.Ui.{UiInterface, waiting}
use task_maker.Ui.Compilation.{
  Kind, solution, non_solution, CompilationEvent, started, ended, Counts, run_compilations,
  run_compilations-Counts,
}
use task_maker.Ui.Statements.{
  StatementCompilationStatus, StatementDepCompilationStatus, StatementDepInfo, Followed,
  StatementEvent, dep_started, dep_ended, run_statement,
}
use task_maker.Ui.Dependencies.{
  complaints, dep_ends, total, run_statement-Counts, run_statement-failed, run_statement-forgets,
}

abbrev fine : ExecutionResult
fine = record { status = success; signal = 0; return_code = 0; error = ""; was_killed = false }

abbrev broken : ExecutionResult
broken = record {
  status = return_code;
  signal = 0;
  return_code = 1;
  error = "";
  was_killed = false;
}

abbrev ui : UiInterface
ui = record {
  non_solutions = ("gen.cpp", record { need_compilation = true; status = waiting }) ∷ [];
  solutions = ("sol.cpp", record { need_compilation = true; status = waiting }) ∷ [];
  warnings = [];
  errors = [];
  printed = [];
}

abbrev events : List (Kind × String × CompilationEvent)
events =
    (non_solution, "gen.cpp", started)
    ∷ (solution, "sol.cpp", started)
    ∷ (solution, "sol.cpp", ended broken)
    ∷ (non_solution, "gen.cpp", ended fine)
    ∷ []

run_compilations-Counts_example : Counts 1 0 ui (run_compilations events ui)
run_compilations-Counts_example = run_compilations-Counts events ui

abbrev dep : StatementDepInfo
dep = record {
  name = "figure.asy";
  result = none;
  status = StatementDepCompilationStatus.dep_waiting;
}

abbrev statement : Followed
statement = record {
  name = "english.tex";
  compilation_result = none;
  compilation_status = StatementCompilationStatus.waiting;
  other_executions = dep ∷ dep ∷ [];
  deps_done = 0;
  interface = ui;
}

abbrev dep_events : List StatementEvent
dep_events = dep_started 0 ∷ dep_started 1 ∷ dep_ended 0 broken ∷ dep_ended 1 fine ∷ []

run_statement-Counts_example :
    (length (run_statement dep_events statement).interface.warnings
      ≡ 0 + total complaints dep_events)
    × ((run_statement dep_events statement).interface.errors ≡ [])
    × ((run_statement dep_events statement).deps_done ≡ 0 + total dep_ends dep_events)
run_statement-Counts_example = run_statement-Counts dep_events statement

run_statement-failed_example :
    (run_statement (dep_ended 1 fine ∷ []) (record statement {
      compilation_status = StatementCompilationStatus.failed;
    })).compilation_status
    ≡ StatementCompilationStatus.failed
run_statement-failed_example =
    run_statement-failed (dep_ended 1 fine ∷ [])
      (record statement { compilation_status = StatementCompilationStatus.failed }) (refl, tt) refl

run_statement-forgets_example :
    (run_statement
      (dep_ended 0 broken ∷ dep_started 1 ∷ dep_ended 1 fine ∷ [])
      statement).compilation_status
    ≡ StatementCompilationStatus.compiled_deps
run_statement-forgets_example = run_statement-forgets statement 0 1 broken fine refl refl refl refl
