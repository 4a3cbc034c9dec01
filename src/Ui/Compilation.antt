-- ===== src/Ui/Compilation.antt =====
-- The compilations that the UI follows: `add_non_solution` and `add_solution` of UIInterface with
-- their callbacks.
use task_maker.Prelude.{
  ℕ, ◌+◌, ◌≡◌, ◌∙◌, String, ◌+s◌, List, [], ◌∷◌, Dict, lookup, insert, string_eq, length,
  length-append, if◌then◌else◌, Bool-cases, Option-cases, inl, inr, arith, key_error,
}
use task_maker.Prelude.Execs.{Exec, fetch, modify, ◌>>=◌, ◌>>◌}
use task_maker.Remote.{ExecutionResult, is_success}
use task_maker.Sources.{SourceFile}
use task_maker.Ui.{
  UiInterface, SourceFileCompilationStatus, waiting, compiling, done, failure,
  SourceFileCompilationResult, add_warning, add_error,
}

pub data Kind : Type 0 where
  solution non_solution : Kind

-- The start and the end of the compilation of a source file.
pub data CompilationEvent : Type 0 where
  started : CompilationEvent
  ended : ExecutionResult → CompilationEvent

abbrev pub files : Kind → UiInterface → Dict String SourceFileCompilationResult
files solution ui = ui.solutions
files non_solution ui = ui.non_solutions

abbrev pub put_files : Kind → Dict String SourceFileCompilationResult → UiInterface → UiInterface
put_files solution d ui = record ui { solutions = d }
put_files non_solution d ui = record ui { non_solutions = d }

-- self.solutions[name].status = status, or the same of self.non_solutions
unfoldable pub set_compilation : Kind → String → SourceFileCompilationStatus → Exec UiInterface Unit
set_compilation kind name status = do
  result ← fetch (λ ui. lookup name (files kind ui)) key_error
  modify (λ ui. put_files kind (insert name (record result { status = status }) (files kind ui)) ui)

-- A solution that does not compile is a warning, any other file an error.
abbrev pub complain : Kind → String → UiInterface → UiInterface
complain solution name ui = add_warning ("Failed to compile: " +s name) ui
complain non_solution name ui = add_error ("Failed to compile " +s name) ui

unfoldable pub on_compilation : Kind → String → CompilationEvent → Exec UiInterface Unit
unfolding set_compilation
on_compilation kind name started = set_compilation kind name compiling
on_compilation kind name (ended result) =
    if is_success result.status
    then set_compilation kind name done
    else do modify (complain kind name); set_compilation kind name failure

-- `add_solution` and `add_non_solution`: whether the callbacks are bound is `need_compilation`.
unfoldable pub add_file : Kind → SourceFile → UiInterface → UiInterface
add_file kind source_file ui =
    put_files kind
      (insert source_file.name
        (record {
          need_compilation = source_file.language.need_compilation;
          status = if source_file.language.need_compilation then waiting else done;
        })
        (files kind ui))
      ui

-- The callbacks of any compilations, as they come; one that raises leaves what it wrote.
unfoldable pub run_compilations :
    List (Kind × String × CompilationEvent) → UiInterface → UiInterface
unfolding on_compilation
run_compilations [] ui = ui
run_compilations ((kind, name, event) ∷ events) ui =
    run_compilations events (on_compilation kind name event ui).1

-- How many of the events are the end of a failed compilation of a file of the kind.
abbrev pub failed : Kind → Kind × CompilationEvent → ℕ
failed k (j, started) = 0
failed solution (solution, ended r) = if is_success r.status then 0 else 1
failed non_solution (non_solution, ended r) = if is_success r.status then 0 else 1
failed solution (non_solution, ended r) = 0
failed non_solution (solution, ended r) = 0

abbrev pub failures : Kind → List (Kind × String × CompilationEvent) → ℕ
failures k [] = 0
failures k ((j, name, event) ∷ events) = failed k (j, event) + failures k events

abbrev pub Counts : ℕ → ℕ → UiInterface → UiInterface → Type 0
Counts warnings errors before after =
    (length after.warnings ≡ length before.warnings + warnings)
    × (length after.errors ≡ length before.errors + errors)

Counts-set_compilation :
    (kind : Kind) (name : String) (status : SourceFileCompilationStatus) (ui : UiInterface)
    → Counts 0 0 ui (set_compilation kind name status ui).1
unfolding set_compilation ◌>>=◌
Counts-set_compilation solution name status ui = elim (Option-cases (lookup name ui.solutions)) [
  | inl e ↦ rw e (omega arith, omega arith)
  | inr (r, e) ↦ rw e (omega arith, omega arith)
]
Counts-set_compilation non_solution name status ui =
    elim (Option-cases (lookup name ui.non_solutions)) [
      | inl e ↦ rw e (omega arith, omega arith)
      | inr (r, e) ↦ rw e (omega arith, omega arith)
    ]

Counts-on_compilation :
    (kind : Kind) (name : String) (event : CompilationEvent) (ui : UiInterface)
    → Counts
        (failed solution (kind, event))
        (failed non_solution (kind, event))
        ui
        (on_compilation kind name event ui).1
unfolding on_compilation ◌>>=◌ add_warning add_error
Counts-on_compilation solution name started ui = Counts-set_compilation solution name compiling ui
Counts-on_compilation non_solution name started ui =
    Counts-set_compilation non_solution name compiling ui
Counts-on_compilation solution name (ended r) ui = elim (Bool-cases (is_success r.status)) [
  | inl e ↦ rw e (Counts-set_compilation solution name done ui)
  | inr e ↦
      let h = Counts-set_compilation solution name failure (complain solution name ui) in
      let l = length-append ui.warnings (("Failed to compile: " +s name) ∷ []) in
      rw e (h.0 ∙ omega (arith, l), h.1)
]
Counts-on_compilation non_solution name (ended r) ui = elim (Bool-cases (is_success r.status)) [
  | inl e ↦ rw e (Counts-set_compilation non_solution name done ui)
  | inr e ↦
      let h = Counts-set_compilation non_solution name failure (complain non_solution name ui) in
      let l = length-append ui.errors (("Failed to compile " +s name) ∷ []) in
      rw e (h.0, h.1 ∙ omega (arith, l))
]

-- Whatever compilations start and end, in any order, there is one new warning for each end of a
-- failed compilation of a solution, one new error for each of another file, and no other.
pub run_compilations-Counts :
    (events : List (Kind × String × CompilationEvent)) (ui : UiInterface)
    → Counts
        (failures solution events)
        (failures non_solution events)
        ui
        (run_compilations events ui)
unfolding run_compilations
run_compilations-Counts [] ui = (omega arith, omega arith)
run_compilations-Counts ((kind, name, event) ∷ events) ui =
    let h = Counts-on_compilation kind name event ui in
    let t = run_compilations-Counts events (on_compilation kind name event ui).1 in
    let (a, b) = h in let (c, d) = t in (omega (arith, a, c), omega (arith, b, d))
