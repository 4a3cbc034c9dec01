-- ===== src/Sources.antt =====
-- Source files and their languages: python/source_file.py, python/detect_exe.py,
-- python/sanitize.py and python/languages/__init__.py.
use task_maker.Prelude.{
  ℕ, String, Bool, true, false, not, ◌&&◌, ◌||◌, Option, none, some, List, [], ◌∷◌, ◌++◌, Dict,
  keys, values, lookup, insert, string_eq, nat_beq, leb, is_empty, if◌then◌else◌, Result, ok, err,
  ◌>>=◌, ◌>>◌, require, or_raise, value_error,
}
use Prim.Native.Char.{code}

pub record Dependency : Type 0 where
  pub name : String
  pub path : String

pub data Arch : Type 0 where
  default x86_64 i686 : Arch

pub data CommandType : Type 0 where
  local_file system : CommandType

-- The methods of a `Language` that its subclasses may override are fields.
pub record Language : Type 0 where
  pub name : String
  pub need_compilation : Bool
  pub need_unit_name : Bool
  pub source_extensions : List String
  pub get_dependencies : String → List Dependency
  pub exe_name : String → String → String
  -- the source files, the executable, the unit, whether it is for evaluation, the architecture
  pub get_compilation_command :
      List String → String → String → Bool → Arch → Result (CommandType × List String)

pub record GraderInfo : Type 0 where
  pub for_language : Language
  pub files : List Dependency

-- The file system and what Python's library says of paths and of shell words.
pub record World : Type 0 where
  pub exists : String → Bool
  pub is_file : String → Bool
  pub is_abs : String → Bool
  pub glob : String → List String
  pub contents : String → List ℕ
  pub basename : String → String
  pub dirname : String → String
  -- os.path.splitext
  pub root : String → String
  pub extension : String → String
  pub find_executable : String → Option String
  -- shlex.split
  pub words : String → Result (List String)

-- LanguageManager: LANGUAGES and EXT_CACHE
pub record LanguageManager : Type 0 where
  pub languages : List Language
  pub ext_cache : Dict String Language

unfoldable pub register_extensions :
    Language → List String → LanguageManager → Result LanguageManager
register_extensions language [] m = ok m
register_extensions language (ext ∷ exts) m =
    let rest =
      register_extensions language exts
        (record m { ext_cache = insert ext language m.ext_cache }) in
    elim (lookup ext m.ext_cache) [
      | some other ↦ err (value_error "Extension {} already registered for language {}")
      | none ↦ rest
    ]

unfoldable pub register_language : Language → LanguageManager → Result LanguageManager
unfolding register_extensions
register_language language m =
    register_extensions language language.source_extensions
      (record m { languages = m.languages ++ language ∷ [] })

unfoldable pub valid_extensions : LanguageManager → List String
valid_extensions m = keys m.ext_cache

-- {dep.name: dep for dep in deps}
by_name : List Dependency → Dict String Dependency → Dict String Dependency
by_name [] d = d
by_name (dep ∷ deps) d = by_name deps (insert dep.name dep d)

unfoldable pub make_unique : List Dependency → List Dependency
unfolding by_name
make_unique deps = values (by_name deps [])

-- _EXE_SIGNATURES, with their flags
abbrev signatures : Dict (List ℕ) ℕ
signatures =
    (77 ∷ 90 ∷ [], 2)
    ∷ (206 ∷ 250 ∷ 237 ∷ 254 ∷ [], 20)
    ∷ (207 ∷ 250 ∷ 237 ∷ 254 ∷ [], 36)
    ∷ (190 ∷ 186 ∷ 254 ∷ 202 ∷ [], 28)
    ∷ (191 ∷ 186 ∷ 254 ∷ 202 ∷ [], 44)
    ∷ (127 ∷ 69 ∷ 76 ∷ 70 ∷ 1 ∷ [], 17)
    ∷ (127 ∷ 69 ∷ 76 ∷ 70 ∷ 2 ∷ [], 33)
    ∷ []

abbrev begins_with : List ℕ → List ℕ → Bool
begins_with bytes [] = true
begins_with [] (s ∷ sig) = false
begins_with (b ∷ bytes) (s ∷ sig) = nat_beq b s && begins_with bytes sig

-- The signatures are sorted by size, so that the buffer has the length of the one it is compared with.
flags_of : List ℕ → Dict (List ℕ) ℕ → ℕ
flags_of bytes [] = 0
flags_of bytes ((sig, flags) ∷ sigs) =
    let rest = flags_of bytes sigs in if begins_with bytes sig then flags else rest

unfoldable pub get_exeflags : List ℕ → ℕ
unfolding flags_of
get_exeflags bytes = flags_of bytes signatures

-- A shebang is the two bytes #!
unfoldable pub is_executable : List ℕ → Bool
unfolding get_exeflags
is_executable bytes = not (nat_beq (get_exeflags bytes) 0) || begins_with bytes (35 ∷ 33 ∷ [])

pub record SourceFile : Type 0 where
  pub path : String
  pub unit_name : String
  pub exe_name : String
  pub dependencies : List Dependency
  pub language : Language
  pub write_bin_to : Option String
  pub target_arch : Arch
  pub grader : Option GraderInfo
  pub name : String

-- A character that `sanitize_filename` lets through.
abbrev allowed : ℕ → Bool
allowed c =
    (leb 97 c && leb c 122)
    || ((leb 65 c && leb c 90)
        || ((leb 48 c && leb c 57) || (nat_beq c 95 || (leb 45 c && leb c 47))))

unfoldable pub sanitize_filename : String → String
sanitize_filename String.[] = ""
sanitize_filename (String.◌∷◌ c s) =
    let rest = sanitize_filename s in if allowed (code c) then String.◌∷◌ c rest else rest

module _ (w : World) where
  -- The arguments as they are changed, and the dependencies.
  unfoldable pub sanitize_command : List String → List String × List Dependency
  unfolding sanitize_filename
  sanitize_command [] = ([], [])
  sanitize_command (arg ∷ args) =
      let rest = sanitize_command args in
      if w.exists arg
      then (
        sanitize_filename arg ∷ rest.0,
        record { name = sanitize_filename arg; path = arg } ∷ rest.1,
      )
      else (arg ∷ rest.0, rest.1)

  -- LanguageManager.from_file
  unfoldable pub language_of : LanguageManager → String → Result Language
  language_of m path =
      or_raise (lookup (w.extension path) m.ext_cache) (value_error "Unknown language for file {}")

  -- The path itself, or the executable of that name.
  abbrev located : String → Option String
  located path = elim (if w.exists path then some path else w.find_executable path) [
    | none ↦ none
    | some p ↦ if is_empty p then none else some p
  ]

  -- SourceFile.from_file, for a `write_to` that is not None
  unfoldable pub from_file :
      LanguageManager
      → String
      → String
      → Bool
      → String
      → Arch
      → Dict String GraderInfo
      → Result SourceFile
  unfolding language_of is_executable
  from_file m path unit_name copy_executable write_to target_arch grader_map = do
    require (not (copy_executable && is_empty write_to))
        (value_error "Asked to copy the executable but not specified where")
    path ← or_raise (located path) (value_error "Cannot find %s")
    language ← language_of m path
    require (language.need_compilation || is_executable (w.contents path))
        (value_error "The file %s is not an executable. Please check the shebang (#!)")
    ok (record {
      path = path;
      unit_name = unit_name;
      exe_name = language.exe_name path write_to;
      dependencies = language.get_dependencies path;
      language = language;
      write_bin_to = if copy_executable then some write_to else none;
      target_arch = target_arch;
      grader = lookup language.name grader_map;
      name = w.basename path;
    })

  -- gen_grader_map
  unfoldable pub gen_grader_map :
      LanguageManager → List String → Dict String GraderInfo → Result (Dict String GraderInfo)
  unfolding language_of
  gen_grader_map m [] d = ok d
  gen_grader_map m (grader ∷ graders) d = do
    language ← language_of m grader
    gen_grader_map m graders (
        insert language.name
          (record {
            for_language = language;
            files =
                record { name = w.basename grader; path = grader }
                ∷ language.get_dependencies grader;
          })
          d)
