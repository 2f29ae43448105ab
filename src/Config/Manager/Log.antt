-- ===== src/Config/Manager/Log.antt =====
-- server/webbou/config.go, `ConfigManager`: the log of configurations that the manager stands for.
use web_bou.Prelude.{
  ℕ, ◌+◌, ◌≡◌, refl, Option, none, some, List, [], ◌∷◌, length, String, ltb, if◌then◌else◌, arith,
}
use web_bou.Prelude.Clock.{Time}
use web_bou.Config.{ServerConfig, Loaded, read_error, parse_error, loaded}
use web_bou.Config.Manager.{FsWatcher, ConfigManager, changed}

abbrev pub last_seen : Option FsWatcher → Option Time
last_seen none = none
last_seen (some watcher) = some watcher.last_mod

module _ (Tls : Type 0) where
  -- The configurations accepted, newest first, and the time of the file's last change that was seen, if
  -- the file is watched.
  pub record Log : Type 0 where
    pub accepted : List (ServerConfig Tls)
    pub seen : Option Time

  pub data Call : Type 0 where
    update_call : Option (ServerConfig Tls) → Call
    on_change_call : ℕ → Call
    watch_call : String → Call
    reload_call : Option Time → Loaded (ServerConfig Tls) → Call

module _ {Tls : Type 0} where
  abbrev pub accept : Log Tls → Option (ServerConfig Tls) → Log Tls
  accept l none = l
  accept l (some cfg) = record l { accepted = cfg ∷ l.accepted }

  abbrev pub result_of : Loaded (ServerConfig Tls) → Option (ServerConfig Tls)
  result_of (loaded cfg) = some cfg
  result_of read_error = none
  result_of parse_error = none

  abbrev pub see : Log Tls → Option Time → Time → Loaded (ServerConfig Tls) → Log Tls
  see l none mod_time result = l
  see l (some last) mod_time result =
      if ltb last mod_time then accept (record l { seen = some mod_time }) (result_of result) else l

  -- What a call means for the log.
  abbrev pub log_call : Call Tls → Log Tls → Log Tls
  log_call (update_call cfg) l = accept l cfg
  log_call (on_change_call callback) l = l
  log_call (watch_call path) l = record l { seen = some 0 }
  log_call (reload_call none result) l = l
  log_call (reload_call (some mod_time) result) l = see l l.seen mod_time result

  abbrev pub log_calls : List (Call Tls) → Log Tls → Log Tls
  log_calls [] l = l
  log_calls (c ∷ cs) l = log_calls cs (log_call c l)

  abbrev newest : Option (ServerConfig Tls) → List (ServerConfig Tls) → Option (ServerConfig Tls)
  newest first [] = first
  newest first (cfg ∷ cfgs) = some cfg

  -- The manager holds the newest configuration, counts the accepted ones, and knows what was seen.
  pub record Implements (first : Option (ServerConfig Tls)) (cm : ConfigManager Tls) (l : Log Tls)
      : Type 0 where
    pub current : cm.config ≡ newest first l.accepted
    pub counted : cm.version ≡ 1 + length l.accepted
    pub watched : last_seen cm.watcher ≡ l.seen

  pub changed-on_change :
      (cfg : Option (ServerConfig Tls)) (cm : ConfigManager Tls)
      → (changed cfg cm).on_change ≡ cm.on_change
  changed-on_change none cm = refl
  changed-on_change (some new_cfg) cm = refl

  pub changed-Implements :
      (first cfg : Option (ServerConfig Tls)) (cm : ConfigManager Tls) (l : Log Tls)
      → Implements first cm l
      → Implements first (changed cfg cm) (accept l cfg)
  changed-Implements first none cm l h = h
  changed-Implements first (some cfg) cm l h = record {
    current = refl;
    counted = omega (arith, h.counted);
    watched = h.watched;
  }
