-- ===== src/Dag/Compile.antt =====
-- `SourceFile.prepare` with `_compile` and `_not_compile`.
use task_maker.Prelude.{
  String, is_empty, ◌+s◌, true, Option, none, some, List, [], ◌∷◌, map, Dict, has, insert,
  string_eq, if◌then◌else◌, Result, ok, err, value_error, index_error,
}
use task_maker.Prelude.Execs.{Exec, pure, lift, get, modify, ◌>>=◌, ◌>>◌}
use task_maker.Floats.{Floats}
use task_maker.Sources.{World, SourceFile, Dependency, GraderInfo, CommandType}
use task_maker.Dag.{File, Input, file, Config, Dag, key_of, provide, write_to}
use task_maker.Dag.Setup.{Setup, of_path, plain, provide_deps, new_execution, output_of}

abbrev pub grader_files : Option GraderInfo → List Dependency
grader_files none = []
grader_files (some g) = g.files

-- The words of the compiler's command: local compilers and empty commands are refused.
abbrev pub compiler : Result (CommandType × List String) → Result (String × List String)
compiler (err e) = err e
compiler (ok (CommandType.local_file, cmd)) =
    err (value_error "Local file compilers are not supported yet")
compiler (ok (CommandType.system, [])) = err (value_error "Unexpected empty compiler command")
compiler (ok (CommandType.system, c ∷ cs)) = ok (c, cs)

abbrev pub main_extension : List String → Result String
main_extension [] = err index_error
main_extension (ext ∷ exts) = ok ext

abbrev pub source_name : SourceFile → Result String
source_name source =
    if source.language.need_unit_name
    then elim (main_extension source.language.source_extensions) [
      | err e ↦ err e
      | ok ext ↦ ok (source.unit_name +s ext)
    ]
    else ok source.name

module _ {F : Type 0} (fl : Floats F) (w : World) (config : Config F) where
  abbrev pub compilation : SourceFile → String → List String → Dict String (Option Input) → Setup F
  compilation source cmd args inputs =
      record (plain fl ("Compilation of " +s source.name) (of_path cmd) args) {
        inputs = inputs;
        outputs = (source.exe_name, true) ∷ [];
        store_stderr = true;
        store_stdout = true;
      }

  unfoldable pub compile : SourceFile → Exec (Dag F) File
  unfolding provide_deps new_execution
  compile source = do
    (cmd, args) ← lift (
        compiler (
          source.language.get_compilation_command
            (source.name ∷ map (λ d. d.name) (grader_files source.grader)) source.exe_name
            source.unit_name true source.target_arch))
    name ← lift (source_name source)
    main ← provide w source.path
    inputs ← provide_deps fl w config source.dependencies ((name, some (file main)) ∷ [])
    inputs ← provide_deps fl w config (grader_files source.grader) inputs
    h ← new_execution fl w config (compilation source cmd args inputs)
    lift (output_of h source.exe_name)

  abbrev pub copy_to : Option String → File → Exec (Dag F) Unit
  copy_to none f = pure tt
  copy_to (some path) f =
      if is_empty path then pure tt else (if config.dry_run then pure tt else write_to w f path)

  abbrev pub set_prepared : SourceFile → Option File → Exec (Dag F) Unit
  set_prepared source f = modify (λ d. record d { prepared = insert (key_of source) f d.prepared })

  -- A source file that is prepared already is left as it is.
  unfoldable pub prepare : SourceFile → Exec (Dag F) Unit
  unfolding compile provide
  prepare source = do
    prepared ← get (λ d. has (key_of source) d.prepared)
    if prepared then pure tt else do
      set_prepared source none
      executable ←
          if source.language.need_compilation then compile source else provide w source.path
      set_prepared source (some executable)
      copy_to source.write_bin_to executable
