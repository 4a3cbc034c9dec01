-- ===== src/Ui/Statements.antt =====
-- The statements that the UI follows: `add_statement` of UIInterface with its callbacks, and
-- python/statements/__init__.py.
use task_maker.Prelude.{
  ℕ, zero, suc, ◌+◌, String, ◌+s◌, Bool, true, false, not, ◌&&◌, nat_beq, Option, some, List, [],
  ◌∷◌, length, if◌then◌else◌,
}
use task_maker.Remote.{ExecutionResult, ResultStatus, is_success}
use task_maker.Ui.{UiInterface, add_warning}

pub data StatementCompilationStatus : Type 0 where
  waiting compiling_deps compiled_deps compiling done failed : StatementCompilationStatus

pub data StatementDepCompilationStatus : Type 0 where
  dep_waiting dep_running dep_done dep_failed : StatementDepCompilationStatus

pub record StatementDepInfo : Type 0 where
  pub name : String
  pub result : Option ExecutionResult
  pub status : StatementDepCompilationStatus

-- A statement, with the variable `deps_done` of its callbacks and the UI.
pub record Followed : Type 0 where
  pub name : String
  pub compilation_result : Option ExecutionResult
  pub compilation_status : StatementCompilationStatus
  pub other_executions : List StatementDepInfo
  pub deps_done : ℕ
  pub interface : UiInterface

-- The start and the end of the compilation, and of the dependency of a number.
pub data StatementEvent : Type 0 where
  started : StatementEvent
  ended : ExecutionResult → StatementEvent
  dep_started : ℕ → StatementEvent
  dep_ended : ℕ → ExecutionResult → StatementEvent

-- result.status in [SUCCESS, RETURN_CODE]
abbrev pub compiles : ResultStatus → Bool
compiles ResultStatus.success = true
compiles ResultStatus.return_code = true
compiles _ = false

abbrev is_failed : StatementCompilationStatus → Bool
is_failed failed = true
is_failed _ = false

abbrev pub change_dep :
    ℕ → (StatementDepInfo → StatementDepInfo) → List StatementDepInfo → List StatementDepInfo
change_dep i f [] = []
change_dep zero f (x ∷ xs) = f x ∷ xs
change_dep (suc i) f (x ∷ xs) = x ∷ change_dep i f xs

-- info.name
abbrev pub dep_name : ℕ → List StatementDepInfo → String
dep_name i [] = ""
dep_name zero (x ∷ xs) = x.name
dep_name (suc i) (x ∷ xs) = dep_name i xs

-- The status after a dependency ended well, `n` of them having ended.
abbrev pub after_dep : StatementCompilationStatus → Bool → StatementCompilationStatus
after_dep status all_ended = if not (is_failed status) && all_ended then compiled_deps else status

abbrev pub end_well : ℕ → ExecutionResult → Followed → Followed
end_well i result s = record s {
  other_executions =
      change_dep i (λ info. record info { result = some result; status = dep_done })
        s.other_executions;
  deps_done = s.deps_done + 1;
  compilation_status =
      after_dep s.compilation_status (nat_beq (s.deps_done + 1) (length s.other_executions));
}

abbrev pub end_badly : ℕ → ExecutionResult → Followed → Followed
end_badly i result s = record s {
  other_executions =
      change_dep i (λ info. record info { result = some result; status = dep_failed })
        s.other_executions;
  deps_done = s.deps_done + 1;
  compilation_status = failed;
  interface =
      add_warning ("Failed to compile statement dependency: " +s dep_name i s.other_executions)
        s.interface;
}

unfoldable pub on_statement : StatementEvent → Followed → Followed
unfolding add_warning
on_statement started s = record s { compilation_status = compiling }
on_statement (ended result) s =
    if compiles result.status
    then record s { compilation_result = some result; compilation_status = done }
    else record s {
      compilation_result = some result;
      compilation_status = failed;
      interface = add_warning ("Failed to compile statement " +s s.name) s.interface;
    }
on_statement (dep_started i) s = record s {
  compilation_status = compiling_deps;
  other_executions = change_dep i (λ info. record info { status = dep_running }) s.other_executions;
}
on_statement (dep_ended i result) s =
    if is_success result.status then end_well i result s else end_badly i result s

unfoldable pub run_statement : List StatementEvent → Followed → Followed
unfolding on_statement
run_statement [] s = s
run_statement (event ∷ events) s = run_statement events (on_statement event s)
