-- ===== src/Config/Manager.antt =====
-- server/webbou/config.go, `ConfigManager`: its lock is modelled, since `Update` calls a function that may
-- use the manager while the lock is held. A callback is a number, and what it does is a parameter.
pub mod Log
pub mod Updates
use web_bou.Prelude.{
  ℕ, ◌+◌, ◌≡◌, refl, Bool, true, false, Option, none, some, List, [], ◌∷◌, String, ltb,
  if◌then◌else◌,
}
use web_bou.Prelude.Clock.{Time}
use web_bou.Prelude.Lock.{
  Locked, RwMutex, free, ◌>>=◌, ◌>>◌, pure, read, write, rlock, runlock, lock, unlock,
}
use web_bou.Config.{ServerConfig, Loaded, read_error, parse_error, loaded}

pub record FsWatcher : Type 0 where
  pub path : String
  pub last_mod : Time

module _ (Tls : Type 0) where
  -- `version` is an int without its wrap-around.
  pub record ConfigManager : Type 0 where
    pub config : Option (ServerConfig Tls)
    pub watcher : Option FsWatcher
    pub version : ℕ
    pub on_change : Option ℕ

module _ {Tls : Type 0} where
  unfoldable pub new_config_manager_from_yaml : Option (ServerConfig Tls) → ConfigManager Tls
  new_config_manager_from_yaml cfg = record {
    config = cfg;
    watcher = none;
    version = 1;
    on_change = none;
  }

  unfoldable pub get_config : Locked (ConfigManager Tls) (Option (ServerConfig Tls))
  get_config = do rlock; cm ← read; runlock; pure cm.config

  unfoldable version_of : Locked (ConfigManager Tls) ℕ
  version_of = do rlock; cm ← read; runlock; pure cm.version

  unfoldable set_on_change : ℕ → Locked (ConfigManager Tls) (Unit {0})
  set_on_change callback = do
    lock
    cm ← read
    write (record cm { on_change = some callback })
    unlock

  -- The goroutine that asks `reload_if_changed` is not part of the state.
  unfoldable watch : String → Locked (ConfigManager Tls) (Unit {0})
  watch path = do
    lock
    cm ← read
    write (record cm { watcher = some (record { path = path; last_mod = 0 }) })
    unlock

  abbrev changed : Option (ServerConfig Tls) → ConfigManager Tls → ConfigManager Tls
  changed none cm = cm
  changed (some new_cfg) cm = record cm { config = some new_cfg; version = cm.version + 1 }

  -- `call n cfg` is the function numbered n on its argument: an error is a text.
  module _ (call : ℕ → Option (ServerConfig Tls) → Locked (ConfigManager Tls) (Option String)) where
    abbrev notify :
        Option ℕ → Option (ServerConfig Tls) → Locked (ConfigManager Tls) (Option String)
    notify none cfg = pure none
    notify (some callback) cfg = call callback cfg

    unfoldable pub update : Option (ServerConfig Tls) → Locked (ConfigManager Tls) (Option String)
    update new_cfg = do
      lock
      cm ← read
      let after = changed new_cfg cm
      write after
      err ← notify after.on_change after.config
      unlock
      pure err

    abbrev update_loaded : Loaded (ServerConfig Tls) → Locked (ConfigManager Tls) (Unit {0})
    update_loaded read_error = pure tt
    update_loaded parse_error = pure tt
    update_loaded (loaded new_cfg) = do err ← update (some new_cfg); pure tt

    abbrev reload :
        Option FsWatcher → Time → Loaded (ServerConfig Tls) → Locked (ConfigManager Tls) (Unit {0})
    reload none mod_time result = pure tt
    reload (some watcher) mod_time result =
        if ltb watcher.last_mod mod_time
        then (do
          cm ← read
          write (record cm { watcher = some (record watcher { last_mod = mod_time }) })
          update_loaded result)
        else pure tt

    -- `stat` is the time of the file's last change, where there is one; `result` what loading it gives.
    unfoldable reload_if_changed :
        Option Time → Loaded (ServerConfig Tls) → Locked (ConfigManager Tls) (Unit {0})
    reload_if_changed none result = pure tt
    reload_if_changed (some mod_time) result = do cm ← read; reload cm.watcher mod_time result
