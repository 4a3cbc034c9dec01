-- ===== src/Ui.antt =====
-- python/uis/__init__.py: what every UI shares. The log of warnings and errors, the compilation of the
-- source files, and how a result is told.

pub mod Compilation
pub mod Statements
pub mod Dependencies
mod Tests
use task_maker.Prelude.{
  ℕ, String, Bool, Option, none, some, List, [], ◌∷◌, ◌++◌, Dict, Result, ok, err, value_error,
  ◌+s◌, decimal, strip, if◌then◌else◌,
}
use task_maker.Remote.{
  ExecutionResult, success, signal, return_code, time_limit, wall_limit, memory_limit,
  missing_files, internal_error, invalid_request,
}

-- `Signals(n).name`: the names of the signals are the platform's.
abbrev pub SignalNames : Type 0
SignalNames = ℕ → Option String

abbrev killed : Bool → String → String
killed was_killed text = if was_killed then text +s " (killed)" else text

abbrev signal_text : ℕ → Option String → Result String
signal_text n none = err (value_error "not a valid Signals")
signal_text n (some name) = ok ("Killed with signal " +s (decimal n +s (" (" +s (name +s ")"))))

unfoldable pub result_to_str : SignalNames → ExecutionResult → Result String
result_to_str names r = elim (r.status) [
  | success ↦ ok "Success"
  | signal ↦ signal_text r.signal (names r.signal)
  | return_code ↦ ok ("Exited with code " +s decimal r.return_code)
  | time_limit ↦ ok (killed r.was_killed "Time limit exceeded")
  | wall_limit ↦ ok (killed r.was_killed "Wall time limit exceeded")
  | memory_limit ↦ ok (killed r.was_killed "Memory limit exceeded")
  | missing_files ↦ ok "Some files are missing"
  | internal_error ↦ ok ("Internal error: " +s r.error)
  | invalid_request ↦ err (value_error "INVALID_REQUEST")
]

-- What UIPrinter.warning and UIPrinter.error print.
pub data Message : Type 0 where
  warning error : String → Message

pub data SourceFileCompilationStatus : Type 0 where
  waiting compiling done failure : SourceFileCompilationStatus

pub record SourceFileCompilationResult : Type 0 where
  pub need_compilation : Bool
  pub status : SourceFileCompilationStatus

pub record UiInterface : Type 0 where
  pub non_solutions : Dict String SourceFileCompilationResult
  pub solutions : Dict String SourceFileCompilationResult
  pub warnings : List String
  pub errors : List String
  pub printed : List Message

unfoldable pub add_warning : String → UiInterface → UiInterface
add_warning message ui = record ui {
  warnings = ui.warnings ++ message ∷ [];
  printed = ui.printed ++ warning (strip message) ∷ [];
}

unfoldable pub add_error : String → UiInterface → UiInterface
add_error message ui = record ui {
  errors = ui.errors ++ message ∷ [];
  printed = ui.printed ++ error (strip message) ∷ [];
}
