-- ===== src/Dag/Built.antt =====
-- The whole computation of a task is in order.
use task_maker.Prelude.{[], pair_eq}
use task_maker.Floats.{Floats}
use task_maker.Sources.{World}
use task_maker.Formats.{Numbers}
use task_maker.Ui.{UiInterface}
use task_maker.Dag.{Config, Dag}
use task_maker.Dag.Solutions.{IoiTask}
use task_maker.Dag.Ordered.{Ordered}
use task_maker.Dag.Safe.{Safe}

module _ {F : Type 0} (fl : Floats F) (n : Numbers F) (w : World) (config : Config F)
    (task : IoiTask F) where
  abbrev pub empty : UiInterface → Dag F
  empty ui = record {
    entries = [];
    groups = 0;
    fifos = 0;
    prepared = [];
    writes = [];
    interface = ui;
    watches = [];
    failed = [];
    case_inputs = [];
    case_outputs = [];
    case_validations = [];
  }
