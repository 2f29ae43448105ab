-- ===== src/Config/Manager/Updates.antt =====
-- server/webbou/config.go, `ConfigManager`: the manager implements a log of configurations, where its
-- callbacks leave it alone; a callback that asks the manager waits forever.
use web_bou.Prelude.{
  ℕ, ◌≡◌, refl, ap, subst, ◌∙◌, Bool, true, false, Option, none, some, List, [], ◌∷◌, String, ltb,
  if◌then◌else◌,
}
use web_bou.Prelude.Clock.{Time}
use web_bou.Prelude.Lock.{Locked, RwMutex, free, ◌>>=◌, ◌>>◌, bind_returns, bind_waits, pure}
use web_bou.Config.{ServerConfig, Loaded, read_error, parse_error, loaded}
use web_bou.Config.Manager.{
  FsWatcher, ConfigManager, new_config_manager_from_yaml, get_config, set_on_change, watch, changed,
  notify, update, update_loaded, reload, reload_if_changed,
}
use web_bou.Config.Manager.Log.{
  last_seen, Log, Call, update_call, on_change_call, watch_call, reload_call, accept, result_of,
  see, log_call, log_calls, Implements, changed-Implements, changed-on_change,
}

module _ {Tls : Type 0} where
  module _ (call : ℕ → Option (ServerConfig Tls) → Locked (ConfigManager Tls) (Option String)) where
    -- One call of the manager; an error of `Update` is dropped, as `reloadIfChanged` does.
    abbrev make_call : Call Tls → Locked (ConfigManager Tls) (Unit {0})
    make_call (update_call cfg) = do err ← update call cfg; pure tt
    make_call (on_change_call callback) = set_on_change callback
    make_call (watch_call path) = watch path
    make_call (reload_call stat result) = reload_if_changed call stat result

    abbrev pub make_calls : List (Call Tls) → Locked (ConfigManager Tls) (Unit {0})
    make_calls [] = pure tt
    make_calls (c ∷ cs) = do make_call c; make_calls cs

    -- Every callback returns, and leaves the manager and its lock as they are.
    abbrev IsQuiet : Type 0
    IsQuiet =
        (n : ℕ) (cfg : Option (ServerConfig Tls)) (mu : RwMutex) (cm : ConfigManager Tls)
        → (err : Option String) × (call n cfg mu cm ≡ some (err, mu, cm))

    notify_returns :
        (o : Option ℕ) (cfg : Option (ServerConfig Tls)) (mu : RwMutex) (cm : ConfigManager Tls)
        → IsQuiet
        → (err : Option String) × (notify call o cfg mu cm ≡ some (err, mu, cm))
    notify_returns none cfg mu cm quiet = (none, refl)
    notify_returns (some callback) cfg mu cm quiet = quiet callback cfg mu cm

    update_returns :
        (cfg : Option (ServerConfig Tls)) (cm : ConfigManager Tls)
        → IsQuiet
        → (err : Option String) × (update call cfg free cm ≡ some (err, free, changed cfg cm))
    unfolding update
    update_returns cfg cm quiet =
        let (err, e) =
          notify_returns (changed cfg cm).on_change (changed cfg cm).config
            (record { readers = 0; writer = true }) (changed cfg cm) quiet in
        (err, bind_returns (notify call (changed cfg cm).on_change (changed cfg cm).config) _ e)

    -- What a step of the manager and its counterpart have in common.
    abbrev Matches :
        Option (ServerConfig Tls)
        → Locked (ConfigManager Tls) (Unit {0})
        → ConfigManager Tls
        → Log Tls
        → Type 0
    Matches first m cm l =
        (after : ConfigManager Tls) × (m free cm ≡ some (tt, free, after))
        × Implements first after l

    update_loaded-Matches :
        (first : Option (ServerConfig Tls)) (result : Loaded (ServerConfig Tls))
        (cm : ConfigManager Tls) (l : Log Tls)
        → IsQuiet
        → Implements first cm l
        → Matches first (update_loaded call result) cm (accept l (result_of result))
    update_loaded-Matches first read_error cm l quiet h = (cm, refl, h)
    update_loaded-Matches first parse_error cm l quiet h = (cm, refl, h)
    update_loaded-Matches first (loaded cfg) cm l quiet h =
        let (err, e) = update_returns (some cfg) cm quiet in
        (
          changed (some cfg) cm,
          bind_returns (update call (some cfg)) _ e,
          changed-Implements first (some cfg) cm l h,
        )

    reload-Matches :
        (first : Option (ServerConfig Tls)) (w : Option FsWatcher) (mod_time : Time)
        → (result : Loaded (ServerConfig Tls)) → (cm : ConfigManager Tls) → (l : Log Tls) → IsQuiet
        → Implements first cm l
        → Matches first (reload call w mod_time result) cm (see l (last_seen w) mod_time result)
    reload-Matches first none mod_time result cm l quiet h = (cm, refl, h)
    reload-Matches first (some watcher) mod_time result cm l quiet h =
        let seen =
          update_loaded-Matches first result
            (record cm { watcher = some (record watcher { last_mod = mod_time }) })
            (record l { seen = some mod_time }) quiet
            (record { current = h.current; counted = h.counted; watched = refl }) in
        if_matches _ _ _ _ (ltb watcher.last_mod mod_time) seen (cm, refl, h)
      where
        if_matches :
            (m k : Locked (ConfigManager Tls) (Unit {0})) (i j : Log Tls) (b : Bool)
            → Matches first m cm i
            → Matches first k cm j
            → Matches first (if b then m else k) cm (if b then i else j)
        if_matches m k i j true x y = x
        if_matches m k i j false x y = y

    make_call-Implements :
        (first : Option (ServerConfig Tls)) (c : Call Tls) (cm : ConfigManager Tls) (l : Log Tls)
        → IsQuiet
        → Implements first cm l
        → Matches first (make_call c) cm (log_call c l)
    unfolding set_on_change watch reload_if_changed
    make_call-Implements first (update_call cfg) cm l quiet h =
        let (err, e) = update_returns cfg cm quiet in
        (changed cfg cm, bind_returns (update call cfg) _ e, changed-Implements first cfg cm l h)
    make_call-Implements first (on_change_call callback) cm l quiet h =
        (_, refl, record { current = h.current; counted = h.counted; watched = h.watched })
    make_call-Implements first (watch_call path) cm l quiet h =
        (_, refl, record { current = h.current; counted = h.counted; watched = refl })
    make_call-Implements first (reload_call none result) cm l quiet h = (cm, refl, h)
    make_call-Implements first (reload_call (some mod_time) result) cm l quiet h =
        subst
          (λ seen.
            Matches first (reload call cm.watcher mod_time result) cm (see l seen mod_time result))
          h.watched (reload-Matches first cm.watcher mod_time result cm l quiet h)

    -- The manager implements the log, where its callbacks leave it alone: no call waits forever, and
    -- after any calls the current configuration is the last that was accepted, by `Update` or by a
    -- reload of a file that changed, and the version is one more than the number of those, even where a
    -- callback returns an error.
    pub make_calls-Implements :
        (first : Option (ServerConfig Tls)) (cs : List (Call Tls))
        → IsQuiet
        → (after : ConfigManager Tls) × (make_calls cs free (new_config_manager_from_yaml first)
            ≡ some (tt, free, after))
          × Implements first after (log_calls cs (record { accepted = []; seen = none }))
    unfolding new_config_manager_from_yaml
    make_calls-Implements first cs quiet =
        every cs _ _ (record { current = refl; counted = refl; watched = refl })
      where
        every :
            (cs : List (Call Tls)) (cm : ConfigManager Tls) (l : Log Tls)
            → Implements first cm l
            → Matches first (make_calls cs) cm (log_calls cs l)
        every [] cm l h = (cm, refl, h)
        every (c ∷ cs) cm l h =
            let (middle, e, k) = make_call-Implements first c cm l quiet h in
            let (last, f, i) = every cs middle (log_call c l) k in
            (last, bind_returns (make_call c) _ e ∙ f, i)

    notify_waits :
        (callback : ℕ) (o : Option ℕ) (cfg : Option (ServerConfig Tls)) (cm : ConfigManager Tls)
        → (rest : Option (ServerConfig Tls) → Locked (ConfigManager Tls) (Option String))
        → ((c : Option (ServerConfig Tls)) → call callback c ≡ (get_config >>= rest))
        → o ≡ some callback
        → notify call o cfg (record { readers = 0; writer = true }) cm ≡ none
    unfolding get_config
    notify_waits callback o cfg cm rest asks e =
        ap (λ o. notify call o cfg (record { readers = 0; writer = true }) cm) e
        ∙ ap (λ m. m (record { readers = 0; writer = true }) cm) (asks cfg)

    -- A callback that begins by asking the manager for its configuration makes `Update` wait forever: it
    -- runs under the write lock.
    pub update_waits :
        (callback : ℕ) (cfg : Option (ServerConfig Tls)) (cm : ConfigManager Tls)
        → (rest : Option (ServerConfig Tls) → Locked (ConfigManager Tls) (Option String))
        → ((c : Option (ServerConfig Tls)) → call callback c ≡ (get_config >>= rest))
        → cm.on_change ≡ some callback
        → update call cfg free cm ≡ none
    unfolding update get_config
    update_waits callback cfg cm rest asks e =
        let own : (changed cfg cm).on_change ≡ some callback = changed-on_change cfg cm ∙ e in
        let blocked =
          notify_waits callback (changed cfg cm).on_change (changed cfg cm).config (changed cfg cm)
            rest asks own in
        bind_waits (notify call (changed cfg cm).on_change (changed cfg cm).config) _ blocked
