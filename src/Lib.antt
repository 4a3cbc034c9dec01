-- ===== src/Lib.antt =====
-- task-maker compiles the files of a programming contest task, generates and validates its testcases,
-- runs every solution on them and scores the solutions.
--
-- The parts of the program, with the files of this library that model them:
-- * python/formats/tm_format.py (Cases): the parser of gen/cases.gen. The variables of `parse_cases` are
--   the fields of `Parser`, each inner function is an operation on it: the declarations of generators
--   and validators in Cases, `process_CONSTRAINT` in Cases/Limits, the commands that add testcases in
--   Cases/Rows, the main loop in Cases/Lines, `generate_gen_GEN` in Cases/Print.
-- * python/formats/ioi_format/parsing.py (GenFile, Formats/Files): the older format gen/GEN, the static
--   testcases, and where a task's files are looked for.
-- * python/formats/__init__.py (Formats): constraints, testcases, subtasks, the variables in arguments
--   (Formats/Variables), lists of files and options (Formats/Files).
-- * python/source_file.py, python/detect_exe.py, python/sanitize.py, python/languages/__init__.py
--   (Sources): source files, the registry of languages, executables, names of dependencies.
-- * python/languages (Languages): the commands of the compilers, and the searches for the files that a
--   source includes (Languages/Headers) or imports (Languages/Imports).
-- * python/remote/__init__.py (Remote): an execution that the frontend runs, its callbacks, what it
--   stores of the outcome, and the pool of running executions. A delivery of the frontend (start,
--   result, stored contents, skip) is a value, and a run is a list of deliveries.
-- * Execution.__init__ of python/remote/__init__.py, `prepare` of python/source_file.py,
--   python/solution.py and python/formats/ioi_format/execution.py (Dag): the executions that a task
--   registers with the frontend. The state `Dag` has an `Entry` for each, in the order of registration;
--   a file is told by where it comes from. Dag/Setup is the constructor, Dag/Compile the preparation of
--   a source file, Dag/Solutions and Dag/Evaluation the evaluation, Dag/Inputs the inputs and outputs and `evaluate_task`.
-- * python/formats/terry_format and python/uis/terry.py (Terry): Terry tasks. Terry/Execution registers
--   the executions, Terry/Score has the callbacks and the score, Terry/Parsing the managers. A callback
--   keeps the object that it was made for: the objects are a list, the dictionary has places in it.
-- * python/detect_format.py (Detection): the format of a task and its folder.
-- * python/sanity_checks/ioi.py (Sanity): the checks of folders, statements, scores and samples.
-- * python/uis/ioi.py (Ioi): the state of a task that is being evaluated. `SolutionStatus` is the record
--   of the same name, put with the warnings and errors of the UI into a `Session`; each method is a
--   function of type `Exec`, which passes the session on and may raise. Ioi/Scoring is
--   `_compute_st_score`, Ioi/Updates the updates with an evaluation or a default check, Ioi/Custom the
--   checkers that the task brings, Ioi/Evaluation the registration and the callbacks of evaluations,
--   Ioi/Generation those of the generation, validation and solving of a testcase.
-- * python/uis/__init__.py (Ui): the messages, the words for a result, and the compilations and the
--   statements that the UI follows (Ui/Compilation, Ui/Statements).
--
-- Prelude has what Python brings: exceptions as values (Results), dictionaries that keep the order of
-- insertion (Dicts), strings (Texts), and methods that change an object and may raise (Execs).
-- A message of an exception is its format string; where the source fills in a line number, the number
-- stands beside it.
--
-- A Python float is a value of a type with the operations of `Floats`, whose laws (`IsFloat`) are
-- those of IEEE doubles that the code relies on: order, a product of a number with one between 0 and 1
-- does not exceed it, counts below 2 ^ 53 are exact. Floats/Cents has them for hundredths. `Numbers` has
-- the operations that only the parsers use.
--
-- Parameters stand for what the repository does not contain: the names of the signals, the file system
-- and Python's os.path, glob and shlex (`World`), the frontend.
--
-- Loops are recursions on lists. Fuel has `decimal`, which takes a round for each digit and one more than
-- the number's value, more than it has digits, and the searches for dependencies: the loop over pending
-- Python files needs a round for each file, and the recursion over headers one more than the depth of the
-- includes, which is not bounded where files include each other.
--
-- Not modelled: `check_sample_cases`, the compilation of statements and booklets in LaTeX, task.yaml of
-- Terry tasks, the printers and the curses and JSON views, the command line, the configuration and the
-- help, the compiled frontend, and the tests.
mod Prelude
pub mod Floats
pub mod Remote
pub mod Ui
pub mod Ioi
pub mod Sources
pub mod Formats
pub mod Cases
pub mod GenFile
pub mod Dag
pub mod Languages
pub mod Terry
pub mod Detection
pub mod Sanity
