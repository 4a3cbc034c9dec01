-- ===== src/Terry.antt =====
-- Terry tasks: python/uis/terry.py, and python/formats/terry_format in the children Execution and Parsing.
pub mod Json
pub mod Score
pub mod Phases
pub mod Status
pub mod Execution
pub mod Ordered
pub mod Parsing
pub mod Managers
mod Tests
use task_maker.Prelude.{
  ℕ, zero, suc, String, ◌+s◌, Bool, true, false, Option, none, some, List, [], ◌∷◌, ◌++◌, Dict,
  lookup, insert, string_eq, length, get_elem?, set, if◌then◌else◌, Result, ok, err, key_error,
  runtime_error,
}
use task_maker.Prelude.Execs.{Exec, pure, lift, get, fetch, modify, ◌>>=◌, ◌>>◌}
use task_maker.Floats.{Floats}
use task_maker.Sources.{SourceFile}
use task_maker.Remote.{ExecutionResult, is_success}
use task_maker.Ui.{SignalNames, UiInterface, result_to_str, add_error}
use task_maker.Ui.Compilation.{solution, add_file}

pub data SolutionStatus : Type 0 where
  waiting generating generated validating validated solving solved checking done failed :
      SolutionStatus

pub data TestcaseStatus : Type 0 where
  missing correct wrong : TestcaseStatus

-- The executions are told apart by the phase that they belong to.
pub data Phase : Type 0 where
  generation validation solution_run check : Phase

pub record SolutionInfo (F : Type 0) : Type 0 where
  pub status : SolutionStatus
  pub seed : Option ℕ
  pub score : F
  pub message : String
  pub source_file : SourceFile
  pub testcases_status : List TestcaseStatus

-- TerryUIInterface. A callback keeps the SolutionInfo that it was made for, while the dictionary has
-- the last one of a name: `infos` are the objects, and `solutions_info` their places in it.
pub record TerryUi (F : Type 0) : Type 0 where
  pub interface : UiInterface
  pub infos : List (SolutionInfo F)
  pub solutions_info : Dict String ℕ
  -- the phases that are followed, with the solution and its object
  pub bound : List (Phase × String × ℕ)

abbrev pub new_info : {F : Type 0} → Floats F → SourceFile → SolutionInfo F
new_info fl source_file = record {
  status = waiting;
  seed = none;
  score = fl.zero;
  message = "";
  source_file = source_file;
  testcases_status = [];
}

module _ {F : Type 0} (fl : Floats F) where
  unfoldable pub add_solution : SourceFile → TerryUi F → TerryUi F
  unfolding add_file
  add_solution source_file t = record t {
    interface = add_file solution source_file t.interface;
    infos = t.infos ++ new_info fl source_file ∷ [];
    solutions_info = insert source_file.name (length t.infos) t.solutions_info;
  }

  -- self.solutions_info[solution]
  abbrev pub info_of : String → Exec (TerryUi F) ℕ
  info_of name = fetch (λ t. lookup name t.solutions_info) key_error

  abbrev pub change :
      (SolutionInfo F → SolutionInfo F) → ℕ → List (SolutionInfo F) → List (SolutionInfo F)
  change f i [] = []
  change f zero (x ∷ infos) = f x ∷ infos
  change f (suc i) (x ∷ infos) = x ∷ change f i infos

  -- A change of the attributes of an object.
  abbrev pub update : ℕ → (SolutionInfo F → SolutionInfo F) → Exec (TerryUi F) Unit
  update i f = modify (λ t. record t { infos = change f i t.infos })

  abbrev pub bind : Phase → String → ℕ → Exec (TerryUi F) Unit
  bind phase name i = modify (λ t. record t { bound = t.bound ++ (phase, name, i) ∷ [] })

  unfoldable pub add_generation : String → ℕ → Exec (TerryUi F) Unit
  add_generation name seed = do
    i ← info_of name
    update i (λ info. record info { seed = some seed })
    bind generation name i

  -- add_validation, add_solving and add_checking
  unfoldable pub add_phase : Phase → String → Exec (TerryUi F) Unit
  add_phase phase name = do i ← info_of name; bind phase name i

abbrev pub begun : Phase → SolutionStatus
begun generation = generating
begun validation = validating
begun solution_run = solving
begun check = checking

abbrev pub ended : Phase → SolutionStatus
ended generation = generated
ended validation = validated
ended solution_run = solved
ended check = done

abbrev pub complaint : Phase → String → String
complaint generation name = "Failed to generate input for {} with seed {}"
complaint validation name = "Failed to validate input for " +s name
complaint solution_run name = "Solution " +s (name +s " failed")
complaint check name = "Checker failed on output of solution " +s name

abbrev pub failure_message : Phase → String → String
failure_message generation why = "Generator failed: " +s why
failure_message validation why = "Validator failed: " +s why
failure_message solution_run why = "Solution failed: " +s why
failure_message check why = "Checker failed: " +s why
