-- ===== src/Target.antt =====
-- The data of src/rechnungsprobe/target.py.
use rechnungsprobe.Prelude.{Text, Option, List}
use rechnungsprobe.Process.{ProcessResult}

pub record LocalTarget : Type 0 where
  pub command : List Text
  pub input_mode : Text
  pub output_file : Option Text

pub record ContainerTarget : Type 0 where
  pub image : Text
  pub command : List Text
  pub input_mode : Text
  pub output_file : Option Text

pub record TargetResult : Type 0 where
  pub process : ProcessResult
  pub output_xml : Option Text
  pub target_digest : Text
