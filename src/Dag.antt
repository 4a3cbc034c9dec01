-- ===== src/Dag.antt =====
-- The computation that a task registers with the frontend: what python/remote/__init__.py,
-- python/source_file.py, python/solution.py and python/formats/ioi_format/execution.py ask it to run.
pub mod Setup
pub mod Compile
pub mod Solutions
pub mod Evaluation
pub mod Inputs
pub mod Ordered
pub mod Safe
pub mod Within
pub mod Register
pub mod Acyclic
pub mod Checked
pub mod Evaluated
pub mod Generated
pub mod Built
pub mod Registered
pub mod Waits
mod Tests
use task_maker.Prelude.{
  ℕ, suc, String, ◌+s◌, Bool, true, false, Option, none, some, List, [], ◌∷◌, ◌++◌, Dict, lookup,
  insert, string_eq, length, set, runtime_error, if◌then◌else◌,
}
use task_maker.Prelude.Execs.{Exec, pure, throw, modify, ◌>>=◌, ◌>>◌}
use task_maker.Sources.{World, SourceFile}
use task_maker.Ui.{UiInterface}
use task_maker.Ioi.Generation.{Stage}
use task_maker.Terry.{Phase}

-- A file of the frontend, by where it comes from: the disk, a text, or an execution.
pub data File : Type 0 where
  provided content : String → File
  stdout stderr : ℕ → File
  output : ℕ → String → File

pub data Input : Type 0 where
  file : File → Input
  fifo : ℕ → Input

-- setExecutable and setExecutablePath
pub data Command : Type 0 where
  local : String → File → Command
  system : String → Command

pub data CacheMode : Type 0 where
  all_cached reevaluate nothing : CacheMode

abbrev pub same_mode : CacheMode → CacheMode → Bool
same_mode all_cached all_cached = true
same_mode reevaluate reevaluate = true
same_mode nothing nothing = true
same_mode _ _ = false

-- The fields of `Resources` that the program sets.
pub record Limits (F : Type 0) : Type 0 where
  pub cpu_time : F
  pub wall_time : F
  pub memory : Option ℕ

pub record Config (F : Type 0) : Type 0 where
  pub cache : CacheMode
  pub exclusive : Bool
  pub dry_run : Bool
  pub extra_time : F

-- An execution as the frontend knows it. One whose setup raised has only its name and its group.
pub record Entry (F : Type 0) : Type 0 where
  pub name : String
  pub group : Option ℕ
  pub complete : Bool
  pub cached : Bool
  pub exclusive : Bool
  pub limits : Option (Limits F)
  pub extra_time : Option F
  pub command : Command
  pub args : List String
  pub stdin : Option Input
  pub stdout_fifo : Option ℕ
  pub stderr_fifo : Option ℕ
  pub inputs : Dict String Input
  pub outputs : List (String × Bool)

-- An execution that the UI follows.
pub data Watch : Type 0 where
  stage : Stage → ℕ → ℕ → ℕ → Watch
  evaluation : ℕ → ℕ → String → List ℕ → Watch
  checking : ℕ → ℕ → String → ℕ → Watch
  terry : Phase → String → ℕ → Watch

-- The state while the computation is built: the executions in the order of their registration, the
-- executables of the prepared source files (None until there is one), what is to be copied to the
-- disk, the UI, and the files of each testcase, by subtask and testcase.
pub record Dag (F : Type 0) : Type 0 where
  pub entries : List (Entry F)
  pub groups : ℕ
  pub fifos : ℕ
  pub prepared : Dict String (Option File)
  pub writes : List (File × String)
  pub interface : UiInterface
  pub watches : List Watch
  -- the testcases whose status was set to FAILURE
  pub failed : List (ℕ × ℕ)
  pub case_inputs : Dict (ℕ × ℕ) File
  pub case_outputs : Dict (ℕ × ℕ) File
  pub case_validations : Dict (ℕ × ℕ) File

-- Two objects of class SourceFile that the program tells apart differ here too.
abbrev pub key_of : SourceFile → String
key_of source = source.path +s ("\n" +s source.exe_name)

module _ {F : Type 0} (w : World) where
  -- frontend.provideFile raises where the file cannot be read.
  unfoldable pub provide : String → Exec (Dag F) File
  provide path =
      if w.is_file path then pure (provided path) else throw (runtime_error "Cannot open file")

  abbrev pub watch : Watch → Exec (Dag F) Unit
  watch x = modify (λ d. record d { watches = d.watches ++ x ∷ [] })

  -- file.getContentsToFile
  abbrev pub write_to : File → String → Exec (Dag F) Unit
  write_to f path = modify (λ d. record d { writes = d.writes ++ (f, path) ∷ [] })
