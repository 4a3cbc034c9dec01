-- ===== src/Languages/Tests.antt =====
-- Examples of the searches of dependencies and of the registration of languages.
use task_maker.Prelude.{
  ℕ, ◌≡◌, refl, String, true, false, not, none, some, List, [], ◌∷◌, if◌then◌else◌, string_eq, ◌==◌,
  ok, Bool-cases, inl, inr, arith, contains, starts_with, sym, ◌∙◌,
}
use task_maker.Sources.{World, Dependency, LanguageManager, register_language}
use task_maker.Languages.{cpp, python}
use task_maker.Languages.Headers.{
  Includes, find_c_dependency, old_find_c_dependency, find_asy_dependency,
}
use task_maker.Languages.Finds.{
  Found, Descends, old_find_c_dependency-Found, find_asy_dependency-Found,
  old_find_c_dependency-none,
}
use task_maker.Languages.Imports.{find_python_dependency}
use task_maker.Languages.Visits.{Pops, IsClosed, find_python_dependency-Found}
use task_maker.Languages.Registered.{Extends, register_language-Extends}

-- A folder in which every path that is not empty exists, without a compiler.
abbrev folder : World
folder = record {
  exists = λ p. not (p == "");
  is_file = λ p. true;
  is_abs = λ p. false;
  glob = λ p. [];
  contents = λ p. [];
  basename = λ p. p;
  dirname = λ p. "";
  root = λ p. p;
  extension = λ p. "";
  find_executable = λ p. none;
  words = λ s. ok (s ∷ []);
}

abbrev lib_of : String → List String
lib_of p = if p == "main.cpp" then "lib.h" ∷ [] else []

abbrev figure_of : String → List String
figure_of p = if p == "main.asy" then "figure" ∷ [] else []

abbrev includes : Includes
includes = record {
  join_path = λ scope p. p;
  link = λ p. none;
  c_includes = lib_of;
  asy_includes = figure_of;
  asy_graphics = λ p. "plot.pdf" ∷ [];
}

-- A header that includes itself.
abbrev cyclic : Includes
cyclic = record {
  join_path = λ scope p. p;
  link = λ p. none;
  c_includes = λ p. "lib.h" ∷ [];
  asy_includes = λ p. [];
  asy_graphics = λ p. [];
}

abbrev c_rank : String → ℕ
c_rank p = if p == "main.cpp" then 1 else 0

abbrev asy_rank : String → ℕ
asy_rank p = if p == "main.asy" then 1 else 0

c_Descends : Descends folder includes c_rank lib_of ""
c_Descends filename = elim (Bool-cases (filename == "main.cpp")) [
  | inl e ↦ rw e ((λ h. omega arith), tt)
  | inr e ↦ rw e tt
]

asy_Descends : Descends folder includes asy_rank figure_of ".asy"
asy_Descends filename = elim (Bool-cases (filename == "main.asy")) [
  | inl e ↦ rw e ((λ h. omega arith), tt)
  | inr e ↦ rw e tt
]

old_find_c_dependency-Found_example :
    Found (old_find_c_dependency folder includes 2 none "main.cpp")
old_find_c_dependency-Found_example =
    old_find_c_dependency-Found folder includes c_rank c_Descends 2 none "main.cpp" (omega arith)

find_asy_dependency-Found_example : Found (find_asy_dependency folder includes 2 none "main.asy")
find_asy_dependency-Found_example =
    find_asy_dependency-Found folder includes asy_rank asy_Descends 2 none "main.asy" (omega arith)

lib_test :
    find_c_dependency folder includes 5 none "main.cpp"
    ≡ some (record { name = "lib.h"; path = "lib.h" } ∷ [])
unfolding find_c_dependency starts_with
lib_test = refl

cc_test :
    find_c_dependency
      (record folder { find_executable = λ p. some p })
      includes
      0
      (some ("main.o:" ∷ "main.cpp" ∷ "\\" ∷ "/lib.h" ∷ []))
      "main.cpp"
    ≡ some (record { name = "lib.h"; path = "/lib.h" } ∷ [])
unfolding find_c_dependency starts_with
cc_test = refl

figure_test :
    find_asy_dependency folder includes 5 none "main.asy"
    ≡ some (
        record { name = "figure"; path = "figure.asy" }
        ∷ record { name = "lot.pdf"; path = "plot.pdf" }
        ∷ record { name = "lot.pdf"; path = "plot.pdf" }
        ∷ [])
unfolding find_asy_dependency starts_with
figure_test = refl

old_find_c_dependency-none_example : old_find_c_dependency folder cyclic 1000 none "lib.h" ≡ none
old_find_c_dependency-none_example =
    old_find_c_dependency-none folder cyclic (λ p. p ≡ "lib.h")
      (λ p h. ([], "lib.h", [], refl, refl, refl)) 1000 none "lib.h" refl

-- Two modules that import each other.
abbrev both : String → List String
both p = "a" ∷ "b" ∷ []

abbrev join_names : String → String → String
join_names scope p = p

-- A pop that takes the head.
abbrev remove : String → List String → List String
remove p [] = []
remove p (x ∷ ps) = let rest = remove p ps in if x == p then rest else x ∷ rest

abbrev pop_first : String → List String → String × List String
pop_first p ps = (p, remove p ps)

remove_lem :
    (p y : String) (ps : List String)
    → contains (remove p ps) y ≡ true
    → (contains ps y ≡ true) × ((p == y) ≡ false)
remove_lem p y [] h = absurd cc
remove_lem p y (x ∷ ps) h = elim (Bool-cases (x == p)) [
  | inl e ↦ let below = remove_lem p y ps (rw e at h) in (ground (arith, below.0), below.1)
  | inr e ↦ elim (Bool-cases (x == y)) [
    | inl s ↦ (
      rw s refl,
      elim (Bool-cases (p == y)) [
        | inl t ↦
            let same : x ≡ p = (string_eq.beq_iff x y).0 s ∙ sym ((string_eq.beq_iff p y).0 t) in
            absurd (cc ((string_eq.beq_iff x p).1 same))
        | inr t ↦ t
      ],
    )
    | inr s ↦ let below = remove_lem p y ps (rw s at (rw e at h)) in (rw s below.0, below.1)
  ]
]

pop_first-Pops : Pops folder both join_names pop_first
pop_first-Pops p ps = (
  rw ((string_eq.beq_iff p p).1 refl) refl,
  λ y h. let below = remove_lem p y ps h in (rw below.1 below.0, below.1),
)

both-IsClosed : IsClosed folder both join_names "" ("a.py" ∷ "b.py" ∷ [])
both-IsClosed path m = ((λ h. refl), ((λ h. refl), tt))

find_python_dependency-Found_example :
    Found (find_python_dependency folder both join_names pop_first 2 "a.py")
find_python_dependency-Found_example =
    find_python_dependency-Found folder both join_names pop_first ("a.py" ∷ "b.py" ∷ []) "a.py"
      pop_first-Pops both-IsClosed refl 2 (omega arith)

-- C++ and then Python, whose extensions are not taken.
abbrev nothing : String → List Dependency
nothing p = []

abbrev with_cpp : LanguageManager
with_cpp = record {
  languages = cpp folder nothing ∷ [];
  ext_cache = (".cpp", cpp folder nothing) ∷ [];
}

register_language-Extends_example :
    Extends
      (python folder nothing)
      (".py" ∷ [])
      with_cpp
      (register_language (python folder nothing) with_cpp)
register_language-Extends_example = register_language-Extends (python folder nothing) with_cpp
