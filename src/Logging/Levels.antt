-- ===== src/Logging/Levels.antt =====
-- server/webbou/logging.go: which messages a logger writes.
use web_bou.Prelude.{
  ◌≡◌, refl, ap, ◌∙◌, Bool, true, false, Option, none, some, List, [], ◌∷◌, String, if◌then◌else◌,
}
use web_bou.Prelude.Int.{ltb_ℤ}
use web_bou.Prelude.Clock.{Time}
use web_bou.Logging.{
  LogLevel, LogEntry, Logger, Any, pairs_to_map, line_of, write_line, log, debug, info, warn, error,
  fatal, debug_level, info_level, warn_level, error_level, fatal_level,
}

-- The five calls of a logger.
pub data Severity : Type 0 where
  of_debug : Severity
  of_info : Severity
  of_warn : Severity
  of_error : Severity
  of_fatal : Severity

abbrev level_of : Severity → LogLevel
level_of of_debug = debug_level
level_of of_info = info_level
level_of of_warn = warn_level
level_of of_error = error_level
level_of of_fatal = fatal_level

pub record Message (V : Type 0) : Type 0 where
  pub severity : Severity
  pub text : String
  pub fields : List (Any V)
  pub now : Time

module _ {V : Type 0} (marshal : LogEntry V → Option String) (format_time : Time → String) where
  abbrev pub call : Severity → Logger → String → List (Any V) → Time → Logger
  call of_debug = debug marshal format_time
  call of_info = info marshal format_time
  call of_warn = warn marshal format_time
  call of_error = error marshal format_time
  call of_fatal = fatal marshal format_time

  -- Newest message first, as in the output.
  abbrev pub run : Logger → List (Message V) → Logger
  run l [] = l
  run l (m ∷ ms) = call m.severity (run l ms) m.text m.fields m.now

  abbrev prepend : Option String → List String → List String
  prepend none lines = lines
  prepend (some line) lines = line ∷ lines

  -- The lines of the messages at the logger's level or above.
  abbrev pub lines_of : Logger → List (Message V) → List String
  lines_of l [] = l.output
  lines_of l (m ∷ ms) =
      let before = lines_of l ms in
      if ltb_ℤ (level_of m.severity) l.level
      then before
      else prepend
          (line_of marshal format_time l (level_of m.severity) m.text (pairs_to_map m.fields) m.now)
          before

  call-log :
      (severity : Severity) (l : Logger) (message : String) (fields : List (Any V)) (now : Time)
      → call severity l message fields now
        ≡ log marshal format_time l (level_of severity) message (pairs_to_map fields) now
  unfolding debug info warn error fatal
  call-log of_debug l message fields now = refl
  call-log of_info l message fields now = refl
  call-log of_warn l message fields now = refl
  call-log of_error l message fields now = refl
  call-log of_fatal l message fields now = refl

  -- A logger as it would be after other output.
  abbrev after : Logger → List String → Logger
  after l lines = record l { output = lines }

  log-after :
      (l : Logger) (lines : List String) (level : LogLevel) (message : String)
      (fields : List (Any V)) (now : Time)
      → log marshal format_time (after l lines) level message (pairs_to_map fields) now
        ≡ after l (
            if ltb_ℤ level l.level
            then lines
            else prepend
                (line_of marshal format_time l level message (pairs_to_map fields) now)
                lines)
  unfolding log
  log-after l lines level message fields now =
      by_test (ltb_ℤ level l.level)
        (line_of marshal format_time l level message (pairs_to_map fields) now)
    where
      by_line :
          (o : Option String)
          → write_line marshal format_time (after l lines) o ≡ after l (prepend o lines)
      by_line none = refl
      by_line (some line) = refl

      by_test :
          (b : Bool) (o : Option String)
          → (if b then after l lines else write_line marshal format_time (after l lines) o)
            ≡ after l (if b then lines else prepend o lines)
      by_test true o = refl
      by_test false o = by_line o

  -- A logger writes one line for each message at its level or above that can be encoded, in the order of
  -- the calls, and none for the others; nothing else of it changes.
  pub run-lines_of :
      (l : Logger) (ms : List (Message V)) → run l ms ≡ record l { output = lines_of l ms }
  run-lines_of l [] = refl
  run-lines_of l (m ∷ ms) =
      call-log m.severity (run l ms) m.text m.fields m.now
      ∙ ap
          (λ k.
            log marshal format_time k (level_of m.severity) m.text (pairs_to_map m.fields) m.now)
          (run-lines_of l ms)
      ∙ log-after l (lines_of l ms) (level_of m.severity) m.text m.fields m.now
