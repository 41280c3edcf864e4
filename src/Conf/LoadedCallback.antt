-- ===== src/Conf/LoadedCallback.antt =====
-- src/conf/conf_file.c: every configuration that a file gives is within the limits.
use hpulogc.Prelude.{Option}
use hpulogc.Conf.Result.{Result}
use hpulogc.Conf.Model.{Conf}
use hpulogc.Conf.File.{Parser}
use hpulogc.Conf.Limited.{IsLoaded}

abbrev Within : Parser → Type 0
Within ps = IsLoaded ps.conf
