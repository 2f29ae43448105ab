-- ===== src/Logging/Default.antt =====
-- server/webbou/logging.go, the default logger of the package. `SetLogger` keeps a pointer, so the loggers
-- stand in a store under addresses; `SetLogLevel` changes the logger that is pointed to, also for those
-- that hold it themselves. Each call is one step.
use web_bou.Prelude.{
  ℕ, ◌≡◌, ◌≢◌, refl, ap, ◌∙◌, true, false, Option, List, [], ◌∷◌, String, eqb, if◌then◌else◌, arith,
}
use web_bou.Prelude.Clock.{Time}
use web_bou.Logging.{LogLevel, LogEntry, Logger, info_level}
use web_bou.Logging.Levels.{Message, call, run, lines_of, run-lines_of}

record Package : Type 0 where
  pub loggers : ℕ → Logger
  pub default_logger : ℕ

abbrev change : (Logger → Logger) → Package → Package
change f p = record p {
  loggers = λ a. if eqb a p.default_logger then f (p.loggers a) else p.loggers a;
}

-- `defaultLogger` at first, under the address 0.
unfoldable new_package : Package
new_package = record {
  loggers = λ a. record { level = info_level; output = []; component = ""; json_output = true };
  default_logger = 0;
}

unfoldable get_logger : Package → ℕ
get_logger p = p.default_logger

unfoldable set_logger : Package → ℕ → Package
set_logger p l = record p { default_logger = l }

unfoldable set_log_level : Package → LogLevel → Package
set_log_level p level = change (λ l. record l { level = level }) p

eqb_self : (a : ℕ) → eqb a a ≡ true
eqb_self a = ground arith

eqb_other : (a b : ℕ) → a ≢ b → eqb a b ≡ false
eqb_other a b n = ground (arith, n)

module _ {V : Type 0} (marshal : LogEntry V → Option String) (format_time : Time → String) where
  -- `Debug`, `Info`, `Warn`, `Error` and `Fatal` of the package, the last one before it exits.
  unfoldable log_default : Package → Message V → Package
  unfolding get_logger
  log_default p m = record p {
    loggers = λ a.
        if eqb a (get_logger p)
        then call marshal format_time m.severity (p.loggers a) m.text m.fields m.now
        else p.loggers a;
  }

  -- Newest message first.
  abbrev run_default : Package → List (Message V) → Package
  run_default p [] = p
  run_default p (m ∷ ms) = log_default (run_default p ms) m

  -- The default logger runs through the messages, and no other logger does.
  run_default-run :
      (p : Package) (ms : List (Message V))
      → ((run_default p ms).default_logger ≡ p.default_logger)
        × ((run_default p ms).loggers p.default_logger
            ≡ run marshal format_time (p.loggers p.default_logger) ms)
        × ((b : ℕ) → b ≢ p.default_logger → (run_default p ms).loggers b ≡ p.loggers b)
  unfolding log_default get_logger
  run_default-run p [] = (refl, refl, λ b n. refl)
  run_default-run p (m ∷ ms) =
      let (same, own, other) = run_default-run p ms in
      (
        same,
        rw (same, eqb_self p.default_logger)
            (ap (λ l. call marshal format_time m.severity l m.text m.fields m.now) own),
        λ b n. rw (same, eqb_other b p.default_logger n) (other b n),
      )

  -- After `SetLogger` and `SetLogLevel`, the package's messages are written by that logger, those at the
  -- new level or above and no others; and no other logger writes or changes.
  set_log_level-run :
      (p : Package) (l : ℕ) (level : LogLevel) (ms : List (Message V))
      → ((run_default (set_log_level (set_logger p l) level) ms).loggers l ≡ record (p.loggers l) {
        level = level;
        output = lines_of marshal format_time (record (p.loggers l) { level = level }) ms;
      })
        × ((b : ℕ)
            → b ≢ l
            → (run_default (set_log_level (set_logger p l) level) ms).loggers b ≡ p.loggers b)
  unfolding set_log_level set_logger
  set_log_level-run p l level ms =
      let (same, own, other) = run_default-run (set_log_level (set_logger p l) level) ms in
      (
        own
            ∙ run-lines_of marshal format_time _ ms
            ∙ ap (λ (k : Logger). record k { output = lines_of marshal format_time k ms })
                (rw (eqb_self l) refl),
        λ b n. other b n ∙ rw (eqb_other b l n) refl,
      )
