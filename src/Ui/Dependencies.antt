-- ===== src/Ui/Dependencies.antt =====
-- The failure of a statement's dependency: python/uis/__init__.py.
use task_maker.Prelude.{
  ℕ, zero, suc, ◌+◌, ◌≡◌, refl, ◌∙◌, Bool, true, false, some, List, [], ◌∷◌, length, length-append,
  if◌then◌else◌, All, arith, Bool-cases, inl, inr,
}
use task_maker.Remote.{ExecutionResult, is_success}
use task_maker.Ui.{add_warning}
use task_maker.Ui.Statements.{
  failed, compiled_deps, dep_running, dep_failed, StatementDepInfo, Followed, StatementEvent,
  started, ended, dep_started, dep_ended, compiles, change_dep, on_statement, run_statement,
}

-- 1 for the end of a failed compilation or dependency, and for the end of any dependency.
abbrev pub complaints : StatementEvent → ℕ
complaints (ended result) = if compiles result.status then 0 else 1
complaints (dep_ended i result) = if is_success result.status then 0 else 1
complaints _ = 0

abbrev pub dep_ends : StatementEvent → ℕ
dep_ends (dep_ended i result) = 1
dep_ends _ = 0

abbrev pub total : (StatementEvent → ℕ) → List StatementEvent → ℕ
total f [] = 0
total f (e ∷ es) = f e + total f es

Counts : StatementEvent → Followed → Followed → Type 0
Counts e s t =
    (length t.interface.warnings ≡ length s.interface.warnings + complaints e)
    × (t.interface.errors ≡ s.interface.errors)
    × (t.deps_done ≡ s.deps_done + dep_ends e)

on_statement-Counts : (e : StatementEvent) (s : Followed) → Counts e s (on_statement e s)
unfolding on_statement Counts add_warning
on_statement-Counts started s = (omega arith, refl, omega arith)
on_statement-Counts (dep_started i) s = (omega arith, refl, omega arith)
on_statement-Counts (ended result) s = elim (Bool-cases (compiles result.status)) [
  | inl c ↦ rw c (omega arith, refl, omega arith)
  | inr c ↦ rw c (length-append s.interface.warnings _, refl, omega arith)
]
on_statement-Counts (dep_ended i result) s = elim (Bool-cases (is_success result.status)) [
  | inl c ↦ rw c (omega arith, refl, refl)
  | inr c ↦ rw c (length-append s.interface.warnings _, refl, refl)
]

-- Whatever callbacks of a statement run, in any order: there is one new warning for each failed
-- compilation and each failed dependency, no error, and `deps_done` counts the dependencies that ended.
pub run_statement-Counts :
    (events : List StatementEvent) (s : Followed)
    → (length (run_statement events s).interface.warnings
        ≡ length s.interface.warnings + total complaints events)
      × ((run_statement events s).interface.errors ≡ s.interface.errors)
      × ((run_statement events s).deps_done ≡ s.deps_done + total dep_ends events)
unfolding run_statement Counts
run_statement-Counts [] s = (omega arith, refl, omega arith)
run_statement-Counts (e ∷ es) s =
    let (w, x, d) = on_statement-Counts e s in
    let (ws, xs, ds) = run_statement-Counts es (on_statement e s) in
    (omega (arith, w, ws), xs ∙ x, omega (arith, d, ds))

-- Not the start of the compilation or of a dependency, nor the end of the compilation.
abbrev pub ends_dep : StatementEvent → Bool
ends_dep (dep_ended i result) = true
ends_dep _ = false

-- While dependencies only end, a statement with a failed dependency stays failed.
pub run_statement-failed :
    (events : List StatementEvent) (s : Followed)
    → All (λ e. ends_dep e ≡ true) events
    → s.compilation_status ≡ failed
    → (run_statement events s).compilation_status ≡ failed
unfolding run_statement
run_statement-failed [] s all h = h
run_statement-failed (started ∷ es) s all h = absurd (cc all.0)
run_statement-failed (ended r ∷ es) s all h = absurd (cc all.0)
run_statement-failed (dep_started i ∷ es) s all h = absurd (cc all.0)
run_statement-failed (dep_ended i r ∷ es) s all h =
    run_statement-failed es (on_statement (dep_ended i r) s) all.1 step
  where
    step : (on_statement (dep_ended i r) s).compilation_status ≡ failed
    step = elim (Bool-cases (is_success r.status)) [
      | inl c ↦ rw (on_statement, c, h) refl
      | inr c ↦ rw (on_statement, c) refl
    ]

length-change_dep :
    (f : StatementDepInfo → StatementDepInfo) (i : ℕ) (xs : List StatementDepInfo)
    → length (change_dep i f xs) ≡ length xs
length-change_dep f i [] = refl
length-change_dep f zero (x ∷ xs) = refl
length-change_dep f (suc i) (x ∷ xs) = omega (arith, length-change_dep f i xs)

-- The failure of a dependency is forgotten when another one starts: of two dependencies, when one fails,
-- the other starts after that and ends well, the dependencies count as compiled.
pub run_statement-forgets :
    (s : Followed) (i j : ℕ) (bad fine : ExecutionResult)
    → length s.other_executions ≡ 2
    → s.deps_done ≡ 0
    → is_success bad.status ≡ false
    → is_success fine.status ≡ true
    → (run_statement (dep_ended i bad ∷ dep_started j ∷ dep_ended j fine ∷ []) s).compilation_status
      ≡ compiled_deps
unfolding run_statement
run_statement-forgets s i j bad fine two none_done b f =
    let first =
      change_dep i (λ info. record info { result = some bad; status = dep_failed })
        s.other_executions in
    let second = change_dep j (λ info. record info { status = dep_running }) first in
    let long : length second ≡ 2 =
      length-change_dep (λ info. record info { status = dep_running }) j first
      ∙ (length-change_dep (λ info. record info { result = some bad; status = dep_failed }) i
            s.other_executions
          ∙ two) in
    rw (on_statement, b, on_statement, f, none_done, long) refl
