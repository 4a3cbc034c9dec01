-- ===== src/Languages.antt =====
-- The languages that task-maker knows, with the commands that compile them: python/languages.
pub mod Headers
pub mod Finds
pub mod Imports
pub mod Visits
pub mod Registered
mod Tests
use task_maker.Prelude.{
  type_error, String, ◌+s◌, Bool, true, false, not, Option, none, some, List, [], ◌∷◌, ◌++◌,
  string_eq, ◌==◌, contains, join, if◌then◌else◌, Result, ok, err, ◌>>=◌, index_error,
  runtime_error, is_empty,
}
use task_maker.Sources.{World, Language, Dependency, Arch, CommandType, make_unique}

abbrev pub is_i686 : Arch → Bool
is_i686 Arch.i686 = true
is_i686 _ = false

abbrev pub is_default : Arch → Bool
is_default Arch.default = true
is_default _ = false

abbrev flag : Bool → List String → List String
flag true words = words
flag false words = []

unfoldable pub compile_c :
    List String → String → String → Bool → Arch → Result (CommandType × List String)
compile_c sources exe unit for_evaluation arch = ok (
  CommandType.system,
  ("cc" ∷ [])
      ++ (flag for_evaluation ("-DEVAL" ∷ [])
          ++ (flag (is_i686 arch) ("-m32" ∷ [])
              ++ (("-O2" ∷ "-std=c11" ∷ "-Wall" ∷ "-ggdb3" ∷ "-lm" ∷ "-o" ∷ exe ∷ []) ++ sources))),
)

unfoldable pub compile_cpp :
    List String → String → String → Bool → Arch → Result (CommandType × List String)
compile_cpp sources exe unit for_evaluation arch = ok (
  CommandType.system,
  ("c++" ∷ [])
      ++ (flag for_evaluation ("-DEVAL" ∷ [])
          ++ (flag (is_i686 arch) ("-m32" ∷ [])
              ++ (("-O2" ∷ "-std=c++14" ∷ "-Wall" ∷ "-ggdb3" ∷ "-o" ∷ exe ∷ []) ++ sources))),
)

-- source_filenames[1:]
abbrev rest_of : List String → List String
rest_of [] = []
rest_of (x ∷ l) = l

-- source_filenames[0]
abbrev first_of : List String → Result String
first_of [] = err index_error
first_of (x ∷ l) = ok x

-- NotImplementedError is a RuntimeError; its message names the first source file.
unfoldable pub compile_pascal :
    List String → String → String → Bool → Arch → Result (CommandType × List String)
compile_pascal sources exe unit for_evaluation arch =
    if is_default arch
    then ok (
      CommandType.system,
      ("fpc" ∷ [])
          ++ (flag for_evaluation ("-dEVAL" ∷ [])
              ++ (("-Fe/dev/stderr" ∷ "-O2" ∷ "-XS" ∷ ("-o" +s exe) ∷ (unit +s ".pas") ∷ [])
                  ++ rest_of sources)),
    )
    else (first_of sources >>= λ s.
        err (runtime_error "Cannot compile %s: targetting Pascal executables is not supported yet"))

unfoldable pub compile_rust :
    List String → String → String → Bool → Arch → Result (CommandType × List String)
compile_rust sources exe unit for_evaluation arch = first_of sources >>= λ main.
    if is_default arch
    then ok (
      CommandType.system,
      ("rustc" ∷ [])
          ++ (flag for_evaluation ("--cfg" ∷ "EVAL" ∷ []) ++ ("-O" ∷ "-o" ∷ exe ∷ main ∷ [])),
    )
    else err (runtime_error "Cannot compile %s: targetting Rust executables is not supported yet")

-- `graal` is the variable TM_GRAAL_PATH of the environment.
abbrev graal_path : Option String → String
graal_path none = "/usr/lib/jvm/java-8-graal/bin/"
graal_path (some p) = if is_empty p then "/usr/lib/jvm/java-8-graal/bin/" else p

unfoldable pub compile_java :
    Option String → List String → String → String → Bool → Arch → Result (CommandType × List String)
compile_java graal sources exe unit for_evaluation arch =
    let main = if contains sources "grader.java" then "grader" else unit in
    ok (
      CommandType.system,
      "sh"
          ∷ "-c"
          ∷ join "&&" (
              (graal_path graal +s ("javac " +s join " " sources))
              ∷ (graal_path graal +s ("native-image " +s (main +s (" " +s exe))))
              ∷ [])
          ∷ [],
    )

unfoldable pub compile_asy :
    List String → String → String → Bool → Arch → Result (CommandType × List String)
compile_asy sources exe unit for_evaluation arch =
    ok (CommandType.system, "asy" ∷ "-f" ∷ "pdf" ∷ "-o" ∷ exe ∷ sources)

-- Language.exe_name
unfoldable pub default_exe_name : World → String → String → String
default_exe_name w path write_to =
    if is_empty write_to then w.root (w.basename path) else w.basename write_to

-- The base class's method, for languages that are not compiled, returns None, which cannot be taken
-- apart into the two parts of a command.
abbrev not_compiled :
    List String → String → String → Bool → Arch → Result (CommandType × List String)
not_compiled sources exe unit for_evaluation arch = err type_error

-- The languages; the functions that find the dependencies are arguments.
module _ (w : World) where
  abbrev pub c : (String → List Dependency) → Language
  c deps = record {
    name = "C";
    need_compilation = true;
    need_unit_name = false;
    source_extensions = ".c" ∷ [];
    get_dependencies = λ p. make_unique (deps p);
    exe_name = default_exe_name w;
    get_compilation_command = compile_c;
  }

  abbrev pub cpp : (String → List Dependency) → Language
  cpp deps = record {
    name = "C++";
    need_compilation = true;
    need_unit_name = false;
    source_extensions = ".cpp" ∷ ".cc" ∷ ".cxx" ∷ ".c++" ∷ ".C" ∷ [];
    get_dependencies = λ p. make_unique (deps p);
    exe_name = default_exe_name w;
    get_compilation_command = compile_cpp;
  }

  abbrev pub pascal : Language
  pascal = record {
    name = "Pascal";
    need_compilation = true;
    need_unit_name = true;
    source_extensions = ".pas" ∷ [];
    get_dependencies = λ p. [];
    exe_name = default_exe_name w;
    get_compilation_command = compile_pascal;
  }

  abbrev pub rust : Language
  rust = record {
    name = "Rust";
    need_compilation = true;
    need_unit_name = false;
    source_extensions = ".rs" ∷ [];
    get_dependencies = λ p. [];
    exe_name = default_exe_name w;
    get_compilation_command = compile_rust;
  }

  abbrev pub java : Option String → Language
  java graal = record {
    name = "Java";
    need_compilation = true;
    need_unit_name = false;
    source_extensions = ".java" ∷ [];
    get_dependencies = λ p. [];
    exe_name = default_exe_name w;
    get_compilation_command = compile_java graal;
  }

  abbrev pub python : (String → List Dependency) → Language
  python deps = record {
    name = "Python";
    need_compilation = false;
    need_unit_name = false;
    source_extensions = ".py" ∷ [];
    get_dependencies = λ p. make_unique (deps p);
    exe_name = default_exe_name w;
    get_compilation_command = not_compiled;
  }

  abbrev pub shell : Language
  shell = record {
    name = "Shell";
    need_compilation = false;
    need_unit_name = false;
    source_extensions = ".sh" ∷ [];
    get_dependencies = λ p. [];
    exe_name = default_exe_name w;
    get_compilation_command = not_compiled;
  }

  abbrev pub executable : Language
  executable = record {
    name = "Executable";
    need_compilation = false;
    need_unit_name = false;
    source_extensions = "" ∷ [];
    get_dependencies = λ p. [];
    exe_name = default_exe_name w;
    get_compilation_command = not_compiled;
  }
