-- ===== src/Dag/Registered.antt =====
-- What one execution leaves in the state.
use task_maker.Prelude.{
  ◌≡◌, refl, ap, String, true, some, List, [], ◌∷◌, ◌++◌, Dict, lookup, string_eq, length, set, ok,
}
use task_maker.Prelude.Execs.{◌>>=◌}
use task_maker.Floats.{Floats}
use task_maker.Sources.{World, SourceFile}
use task_maker.Dag.{File, Input, local, Config, Dag, key_of}
use task_maker.Dag.Setup.{
  Setup, of_source, all_inputs, filled, handle, clash, resolve, add_execution, new_execution,
}

set-append : {A : Type 0} (xs : List A) (x y : A) → set (xs ++ x ∷ []) (length xs) y ≡ xs ++ y ∷ []
set-append [] x y = refl
set-append (z ∷ xs) x y = ap (λ l. z ∷ l) (set-append xs x y)

module _ {F : Type 0} (fl : Floats F) (w : World) (config : Config F) where
  -- An execution of a compiled program that is prepared, none of whose inputs is None and which does
  -- not store what goes to a pipe, is added after the others, with what was asked for and no more.
  pub new_execution_lem :
      (s : Setup F) (source : SourceFile) (f : File) (given : Dict String Input) (d : Dag F)
      → s.cmd ≡ of_source source
      → source.language.need_compilation ≡ true
      → lookup (key_of source) d.prepared ≡ some (some f)
      → all_inputs s.inputs ≡ ok given
      → clash fl w config s ≡ ok tt
      → new_execution fl w config s d ≡ (
        ok (handle fl w config (length d.entries) s),
        record d {
          entries = d.entries ++ filled fl w config s (local source.exe_name f) given ∷ [];
        },
      )
  unfolding new_execution resolve add_execution ◌>>=◌
  new_execution_lem s source f given d cmd compiled prepared inputs fifos =
      rw (cmd, prepared, compiled, fifos, inputs)
        (ap (λ es. (ok (handle fl w config (length d.entries) s), record d { entries = es }))
          (set-append d.entries _ _))
