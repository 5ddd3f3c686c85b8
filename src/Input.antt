-- ===== src/Input.antt =====
-- src/vshift/domain/file/probed_input.py. A duration is counted in millionths of a second.
use vshift.Base.{ℕ, String, Bool, Option}
use vshift.Base.FilePath.{FilePath}

pub record ProbedInput : Type 0 where
  pub path : FilePath
  pub extension : String
  pub width : Option ℕ
  pub height : Option ℕ
  pub bit_depth : Option ℕ
  pub hdr : Option Bool
  pub duration_seconds : Option ℕ
