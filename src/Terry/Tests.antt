-- ===== src/Terry/Tests.antt =====
-- A Terry task with a validator and one solution.
use task_maker.Prelude.{
  ℕ, ◌≡◌, refl, String, true, false, Option, none, some, List, [], ◌∷◌, ◌++◌, lookup, insert,
  string_eq, map, ok, arith,
}
use task_maker.Prelude.Execs.{◌>>=◌}
use task_maker.Remote.{ExecutionResult, ResultStatus}
use task_maker.Ui.{SignalNames, UiInterface}
use task_maker.Sources.{SourceFile}
use task_maker.Cases.Tests.{whole, world, program}
use task_maker.Dag.{File, Input, Config, CacheMode, Entry, Dag, key_of}
use task_maker.Dag.Setup.{new_execution}
use task_maker.Dag.Ordered.{Ordered}
use task_maker.Terry.{
  add_phase, add_generation, add_solution, SolutionStatus, SolutionInfo, TestcaseStatus, Phase,
  TerryUi,
}
use task_maker.Terry.Json.{Json, Items, number, text, array, object, boolean, item, end, field, nil}
use task_maker.Terry.Score.{
  start, finish, Call, adding, generating_for, following, calling, run_calls,
}
use task_maker.Terry.Phases.{Scores, run_calls-Scores}
use task_maker.Terry.Status.{status_at, run_calls-forgets}
use task_maker.Terry.Execution.{TerryTask, solving_of, build_terry}
use task_maker.Terry.Ordered.{build_terry-Ordered, solving_of-no_wait}
use task_maker.Terry.Parsing.{Platform}

abbrev fine : ExecutionResult
fine = record {
  status = ResultStatus.success;
  signal = 0;
  return_code = 0;
  error = "";
  was_killed = false;
}

abbrev bad : ExecutionResult
bad = record fine { status = ResultStatus.time_limit }

abbrev signals : SignalNames
signals n = none

abbrev ui : UiInterface
ui = record { non_solutions = []; solutions = []; warnings = []; errors = []; printed = [] }

abbrev no_solutions : TerryUi ℕ
no_solutions = record { interface = ui; infos = []; solutions_info = []; bound = [] }

-- A checker's outcome of three cases and the score one half.
abbrev validated : Items ℕ
validated = item (object (field "status" (text "parsed") nil)) (
    item (object (field "status" (text "missing") nil))
      (item (object (field "status" (text "parsed") nil)) end))

abbrev feedbacks : Items ℕ
feedbacks = item (object (field "correct" (boolean true) nil)) (
    item (object (field "correct" (boolean false) nil))
      (item (object (field "correct" (boolean false) nil)) end))

abbrev loads : String → Option (Json ℕ)
loads s = some (
    object (
      field "score" (number 50) (
        field "validation" (object (field "cases" (array validated) nil))
          (field "feedback" (object (field "cases" (array feedbacks) nil)) nil))))

abbrev calls : List Call
calls =
    adding program
    ∷ generating_for "gen.cpp" 42
    ∷ following Phase.check "gen.cpp"
    ∷ calling Phase.generation "gen.cpp" 0 (finish fine (ok ""))
    ∷ calling Phase.check "gen.cpp" 0 (finish fine (ok "{...}"))
    ∷ []

abbrev summary : SolutionInfo ℕ → ℕ × SolutionStatus × List TestcaseStatus
summary info = (info.score, info.status, info.testcases_status)

half :
    map summary (run_calls whole signals loads calls no_solutions).infos
    ≡ (
      50,
      SolutionStatus.done,
      TestcaseStatus.correct ∷ TestcaseStatus.missing ∷ TestcaseStatus.wrong ∷ [],
    )
      ∷ []
unfolding run_calls ◌>>=◌ lookup insert add_phase add_generation add_solution
half = refl

run_calls-Scores_example : Scores whole (run_calls whole signals loads calls no_solutions)
run_calls-Scores_example = run_calls-Scores whole signals loads (refl, refl) calls no_solutions tt

abbrev one_solution : TerryUi ℕ
one_solution = record no_solutions {
  infos =
      record {
        status = SolutionStatus.waiting;
        seed = none;
        score = 0;
        message = "";
        source_file = program;
        testcases_status = [];
      }
      ∷ [];
}

run_calls-forgets_example :
    status_at 0
      (run_calls whole signals loads
        (calling Phase.validation "gen.cpp" 0 (finish bad (ok ""))
          ∷ calling Phase.solution_run "gen.cpp" 0 start
          ∷ calling Phase.solution_run "gen.cpp" 0 (finish fine (ok ""))
          ∷ [])
        one_solution).infos
    ≡ some SolutionStatus.solved
run_calls-forgets_example =
    run_calls-forgets whole signals loads "gen.cpp" 0 bad fine (ok "") one_solution (omega arith)
      refl refl

abbrev solution : SourceFile
solution = record program { path = "sol/sol.cpp"; exe_name = "sol"; name = "sol.cpp" }

abbrev task : TerryTask
task = record {
  generator = program;
  validator = some program;
  official_solution = none;
  checker = program;
}

abbrev config : Config ℕ
config = record { cache = CacheMode.all_cached; exclusive = false; dry_run = false; extra_time = 0 }

abbrev prepared : Dag ℕ
prepared = record {
  entries = [];
  groups = 0;
  fifos = 0;
  prepared = (key_of solution, some (File.content "sol")) ∷ [];
  writes = [];
  interface = ui;
  watches = [];
  failed = [];
  case_inputs = [];
  case_outputs = [];
  case_validations = [];
}

build_terry-Ordered_example :
    Ordered (build_terry whole world config task (some 7) ((solution, 3) ∷ []) prepared).1
build_terry-Ordered_example =
    build_terry-Ordered whole world config task (some 7) ((solution, 3) ∷ []) prepared (record {
      entries = tt;
      prepared = (tt, tt);
      case_inputs = tt;
      case_outputs = tt;
      case_validations = tt;
    })

lookup_prepared : lookup (key_of solution) prepared.prepared ≡ some (some (File.content "sol"))
unfolding lookup
lookup_prepared = refl

solving_of-no_wait_example :
    (e : Entry ℕ) × ((new_execution whole world config
        (solving_of whole world config task solution (File.content "1 2"))
        prepared).1.entries
      ≡ [] ++ e ∷ [])
    × (e.stdin ≡ some (Input.file (File.content "1 2")))
    × (e.inputs ≡ [])
solving_of-no_wait_example =
    solving_of-no_wait whole world config task solution (File.content "sol") (File.content "1 2")
      prepared refl lookup_prepared

abbrev linux : Platform
linux = record { system = "linux"; machine = "x86_64" }
