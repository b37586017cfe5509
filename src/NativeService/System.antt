-- ===== src/NativeService/System.antt =====
-- The calls of the system that the native service makes. They are not part of the repository: the
-- state of the system is passed through them.
use vr_admin.Prelude.{ℕ, Bool, Option, ℤ}
use vr_admin.CString.{Bytes}

pub record Os : Type 1 where
  pub World : Type 0
  -- Whether `access(path, F_OK)` succeeds.
  pub access : Bytes → World → Bool
  -- `open` with O_RDONLY and with O_WRONLY.
  pub open_read : Bytes → World → ℤ × World
  pub open_write : Bytes → World → ℤ × World
  -- At most so many bytes, or `none` for -1.
  pub read : ℤ → ℕ → World → Option Bytes × World
  pub write : ℤ → Bytes → World → ℤ × World
  pub close : ℤ → World → World
  -- All that the command prints, or `none` for a null stream.
  pub popen : Bytes → World → Option Bytes × World
  pub pclose : World → World
  -- The status and the text of the property.
  pub property_get : Bytes → World → (ℤ × Bytes) × World
  pub property_set : Bytes → Bytes → World → ℤ × World
  pub sched_setscheduler : ℤ → ℤ → ℤ → World → ℤ × World
  pub errno : World → ℤ
