-- ===== src/Log/Tests.antt =====
-- The logger of the program, with one sink for everything.
use torrent_sync.Common.{◌≡◌, false, some, [], ◌∷◌, returns, arith}
use torrent_sync.Log.{debug, info, warn, error, rank, Logger, sinks_of, set_log_level, log}
use torrent_sync.Log.Threshold.{SinkBySink, IsNoFuller, HasMore, line, log_level_mono}

abbrev a_logger : Logger
a_logger = record {
  instance_sinks = some (
      record { level = debug; written = []; flushed = 0 }
      ∷ record { level = error; written = []; flushed = 0 }
      ∷ []);
  log_level = warn;
  force_flush = false;
}

log_level_mono_example :
    (after_low after_high after_error : Logger) × (log
        (84 ∷ [])
        info
        (104 ∷ 105 ∷ [])
        (set_log_level debug a_logger)
      ≡ returns after_low)
    × (log (84 ∷ []) info (104 ∷ 105 ∷ []) (set_log_level warn a_logger) ≡ returns after_high)
    × (log (84 ∷ []) info (104 ∷ 105 ∷ []) (set_log_level error a_logger) ≡ returns after_error)
    × SinkBySink IsNoFuller (sinks_of after_low.instance_sinks) (sinks_of after_high.instance_sinks)
    × SinkBySink
        (HasMore (line (84 ∷ []) error (104 ∷ 105 ∷ [])))
        (sinks_of a_logger.instance_sinks)
        (sinks_of after_error.instance_sinks)
log_level_mono_example =
    log_level_mono (84 ∷ []) info (104 ∷ 105 ∷ []) a_logger debug warn (unfold rank in omega arith)
