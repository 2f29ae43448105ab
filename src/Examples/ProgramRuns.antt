-- ===== src/Examples/ProgramRuns.antt =====
-- Tests of server/security.go and of the configuration, the logs and the metrics in server/webbou.
use web_bou.Prelude.{
  string_eq, ℕ, ◌*◌, min, ◌≡◌, refl, true, some, none, Option, List, [], ◌∷◌, String, arith,
}
use web_bou.Prelude.Maps.{get}
use web_bou.Prelude.Clock.{Time, hour, minute}
use web_bou.Prelude.Lock.{Locked, free, pure, ◌>>=◌}
use web_bou.Encoding.{Bytes}
use web_bou.Limits.Float.{whole}
use web_bou.Security.{RateLimiter, validate_token}
use web_bou.Security.Tokens
use web_bou.Security.Tokens.{issued, within_day, validate_token-run}
use web_bou.Security.Windows.{Requests, asked, granted, granted-asked}
use web_bou.Config.{ServerConfig, zero_server_config, default_server_config, loaded, read_error}
use web_bou.Config.Manager.{ConfigManager, new_config_manager_from_yaml, get_config, update}
use web_bou.Config.Manager.Log
use web_bou.Config.Manager.Log.{Implements, log_calls}
use web_bou.Config.Manager.Updates.{make_calls, make_calls-Implements, update_waits}
use web_bou.Logging.{new_logger, LogEntry, text, other, warn_level}
use web_bou.Logging.Levels
use web_bou.Logging.Levels.{Message, lines_of, run-lines_of}
use web_bou.Metrics.{new_metrics, new_histogram}
use web_bou.Metrics.Histograms
use web_bou.Metrics.Page.{samples, samples-run}
use web_bou.Metrics.Races

-- The tokens are texts that depend on the length of the random bytes.
abbrev encode : Bytes → String
encode [] = "none"
encode (b ∷ bs) = "some"

abbrev same_bytes : Bytes → Bytes
same_bytes bytes = bytes

abbrev token_calls : List (Tokens.Call same_bytes encode)
token_calls =
    Tokens.tick (2 * hour)
    ∷ Tokens.ask "client" 9
    ∷ Tokens.generate "s2" none 8
    ∷ Tokens.generate "s1" (some (7 ∷ [])) 5
    ∷ []

validate_token-run_example :
    validate_token (Tokens.run same_bytes encode token_calls) "some" (3 * hour)
    ≡ within_day same_bytes encode (issued same_bytes encode "some" token_calls) (3 * hour)
validate_token-run_example =
    validate_token-run same_bytes encode "some" token_calls (3 * hour)
      (omega arith, (tt, (tt, (tt, tt))))

abbrev two_a_minute : RateLimiter
two_a_minute = record { requests = []; max_requests = 2; window = minute }

abbrev asks : Requests
asks = ("a", 1) ∷ ("b", 2) ∷ ("a", 3) ∷ ("a", 4) ∷ []

unseen : get "a" two_a_minute.requests ≡ none
unfolding get
unseen = refl

granted-asked_example :
    granted "a" two_a_minute asks ≡ min (asked "a" asks) two_a_minute.max_requests
granted-asked_example =
    granted-asked "a" 1 4 asks two_a_minute (omega arith) (omega arith)
      (
        (omega arith, omega arith),
        (
          (omega arith, omega arith),
          ((omega arith, omega arith), ((omega arith, omega arith), tt)),
        ),
      )
      unseen

-- Callbacks that only answer.
abbrev answers : ℕ → Option (ServerConfig ℕ) → Locked (ConfigManager ℕ) (Option String)
answers n cfg = pure (some "refused")

abbrev config_calls : List (Log.Call ℕ)
config_calls =
    Log.on_change_call 1
    ∷ Log.update_call (some default_server_config)
    ∷ Log.watch_call "server.yaml"
    ∷ Log.reload_call (some 9) (loaded zero_server_config)
    ∷ Log.reload_call (some 9) read_error
    ∷ []

make_calls-Implements_example :
    (after : ConfigManager ℕ) × (make_calls answers config_calls free
        (new_config_manager_from_yaml none)
      ≡ some (tt, free, after))
    × Implements none after (log_calls config_calls (record { accepted = []; seen = none }))
make_calls-Implements_example =
    make_calls-Implements answers none config_calls (λ n cfg mu cm. (some "refused", refl))

-- A callback that asks for the configuration.
abbrev reads : ℕ → Option (ServerConfig ℕ) → Locked (ConfigManager ℕ) (Option String)
reads n cfg = get_config >>= (λ c. pure none)

abbrev registered : ConfigManager ℕ
registered = record { config = none; watcher = none; version = 1; on_change = some 1 }

update_waits_example : update reads (some default_server_config) free registered ≡ none
update_waits_example =
    update_waits reads 1 (some default_server_config) registered (λ c. pure none) (λ c. refl) refl

abbrev marshal : LogEntry ℕ → Option String
marshal entry = some entry.message

abbrev print_time : Time → String
print_time now = "now"

abbrev messages : List (Message ℕ)
messages =
    record {
      severity = Levels.of_error;
      text = "broken";
      fields = text "id" ∷ other 7 ∷ [];
      now = 2;
    }
    ∷ record { severity = Levels.of_info; text = "fine"; fields = []; now = 1 }
    ∷ []

run-lines_of_example :
    Levels.run marshal print_time (new_logger "server" warn_level true) messages
    ≡ record (new_logger "server" warn_level true) {
      output = lines_of marshal print_time (new_logger "server" warn_level true) messages;
    }
run-lines_of_example =
    run-lines_of marshal print_time (new_logger "server" warn_level true) messages

abbrev counts : List (Histograms.Call whole)
counts =
    Histograms.add_call "requests" 2
    ∷ Histograms.counter_call "requests"
    ∷ Histograms.observe_call "latency" 3
    ∷ Histograms.add_call "errors" 1
    ∷ Histograms.add_call "requests" 1
    ∷ []

samples-run_example :
    get "requests"
      (samples (Histograms.run whole (new_metrics whole 0 (new_histogram whole) 0) counts).counters)
    ≡ some 3
samples-run_example = samples-run whole 0 (new_histogram whole) 0 "requests" counts

-- Two goroutines add at once, and one addition is lost.
abbrev one_lost : Races.Gauge whole
one_lost = record { value = 12; adding = []; writes = Races.added 2 ∷ Races.added 1 ∷ [] }

one_lost_reached : Races.Reach whole 2 (Races.new_gauge whole 10) one_lost
one_lost_reached =
    let first = Races.next Races.here (Races.load 1 (omega arith)) in
    let both = Races.next first (Races.load 2 (omega arith)) in
    let one = Races.next both (Races.store (record { old = 10; amount = 2 } ∷ []) _ [] refl) in
    Races.next one (Races.store [] _ [] refl)

Reach-AccountsNewest_example : Races.AccountsNewest whole 10 one_lost.writes one_lost.value
Reach-AccountsNewest_example = Races.Reach-AccountsNewest whole 2 10 one_lost_reached
