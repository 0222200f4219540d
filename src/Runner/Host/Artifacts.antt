-- ===== src/Runner/Host/Artifacts.antt =====
-- The disk of a run is its own source.
use rules_vmtest.Base.{Text, if◌then◌else◌}
use rules_vmtest.Runner.Config.{RunnerConfig}
use rules_vmtest.Runner.Host.{Host, World, Ran, call, finished, disk_size, disk_not_created}

module _ (H : Host) (c : RunnerConfig) where
  -- The disk is made if there is none; else nothing is done.
  abbrev pub ensure_disk : Text → World H → Ran H (Unit {0})
  ensure_disk dst w =
      if H.exists dst w
      then finished H w
      else call H disk_not_created (H.create_disk c.tool_paths.qemu_img dst (disk_size c) w)
          (finished H)
