-- ===== src/Logging.antt =====
-- server/webbou/logging.go: loggers and what they write. A value of any type is a text or another value;
-- the JSON encoder, which may refuse an entry, and the printing of a time are parameters. The output is
-- the list of the texts written. `Fatal` ends the program after it has logged.
pub mod Fields
pub mod Levels
pub mod Default
use web_bou.Prelude.{
  string_eq, ℕ, zero, suc, Bool, true, false, Option, none, some, List, [], ◌∷◌, String,
  if◌then◌else◌,
}
use web_bou.Prelude.Int.{ℤ, pos, negsuc, ltb_ℤ}
use web_bou.Prelude.Maps.{Map, put}
use web_bou.Prelude.Clock.{Time}
use Prim.Native.String.{◌++◌}

-- `type LogLevel int`
abbrev LogLevel : Type 0
LogLevel = ℤ

abbrev debug_level : LogLevel
debug_level = pos 0

abbrev info_level : LogLevel
info_level = pos 1

abbrev pub warn_level : LogLevel
warn_level = pos 2

abbrev error_level : LogLevel
error_level = pos 3

abbrev fatal_level : LogLevel
fatal_level = pos 4

unfoldable level_name : LogLevel → String
level_name (pos zero) = "DEBUG"
level_name (pos (suc zero)) = "INFO"
level_name (pos (suc (suc zero))) = "WARN"
level_name (pos (suc (suc (suc zero)))) = "ERROR"
level_name (pos (suc (suc (suc (suc zero))))) = "FATAL"
level_name (pos (suc (suc (suc (suc (suc n)))))) = "UNKNOWN"
level_name (negsuc n) = "UNKNOWN"

pub data Any (V : Type 0) : Type 0 where
  text : String → Any V
  other : V → Any V

module _ {V : Type 0} where
  abbrev put_pair : Any V → Any V → Map String (Any V) → Map String (Any V)
  put_pair (text key) value m = put key value m
  put_pair (other k) value m = m

  -- The loop, on the pairs that are left: a last value without a partner is dropped.
  abbrev add_pairs : List (Any V) → Map String (Any V) → Map String (Any V)
  add_pairs [] m = m
  add_pairs (k ∷ []) m = m
  add_pairs (k ∷ (value ∷ pairs)) m = add_pairs pairs (put_pair k value m)

  unfoldable pairs_to_map : List (Any V) → Map String (Any V)
  pairs_to_map pairs = add_pairs pairs []

pub record LogEntry (V : Type 0) : Type 0 where
  pub timestamp : String
  pub level : String
  pub message : String
  pub component : String
  pub fields : Map String (Any V)

pub record Logger : Type 0 where
  pub level : LogLevel
  pub output : List String
  pub component : String
  pub json_output : Bool

unfoldable pub new_logger : String → LogLevel → Bool → Logger
new_logger component level json_output = record {
  level = level;
  output = [];
  component = component;
  json_output = json_output;
}

-- The fields are not used.
unfoldable with_fields : {V : Type 0} → Logger → Map String (Any V) → Logger
with_fields l fields = record l { level = l.level }

abbrev write : Logger → String → Logger
write l line = record l { output = line ∷ l.output }

module _ {V : Type 0} (marshal : LogEntry V → Option String) (format_time : Time → String) where
  abbrev entry_of : Logger → LogLevel → String → Map String (Any V) → Time → LogEntry V
  entry_of l level message fields now = record {
    timestamp = format_time now;
    level = level_name level;
    message = message;
    component = l.component;
    fields = fields;
  }

  -- What is written for an entry, if anything.
  abbrev line_of : Logger → LogLevel → String → Map String (Any V) → Time → Option String
  line_of l level message fields now =
      let entry = entry_of l level message fields now in
      if l.json_output
      then elim (marshal entry) [ none ↦ none | some encoded ↦ some (encoded ++ "\n") ]
      else some (
          "["
          ++ (entry.timestamp
              ++ ("] " ++ (entry.level ++ (" " ++ (l.component ++ (": " ++ (message ++ "\n"))))))))

  abbrev write_line : Logger → Option String → Logger
  write_line l none = l
  write_line l (some line) = write l line

  unfoldable log : Logger → LogLevel → String → Map String (Any V) → Time → Logger
  log l level message fields now =
      if ltb_ℤ level l.level then l else write_line l (line_of l level message fields now)

  -- `Debug`, `Info`, `Warn` and `Error`, and `Fatal` before it exits.
  unfoldable debug : Logger → String → List (Any V) → Time → Logger
  debug l message fields now = log l debug_level message (pairs_to_map fields) now

  unfoldable info : Logger → String → List (Any V) → Time → Logger
  info l message fields now = log l info_level message (pairs_to_map fields) now

  unfoldable warn : Logger → String → List (Any V) → Time → Logger
  warn l message fields now = log l warn_level message (pairs_to_map fields) now

  unfoldable error : Logger → String → List (Any V) → Time → Logger
  error l message fields now = log l error_level message (pairs_to_map fields) now

  unfoldable fatal : Logger → String → List (Any V) → Time → Logger
  fatal l message fields now = log l fatal_level message (pairs_to_map fields) now
