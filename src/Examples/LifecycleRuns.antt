-- ===== src/Examples/LifecycleRuns.antt =====
-- Tests of the goroutines of server/webbou/server.go.
use web_bou.Prelude.{string_eq, ◌+◌, ◌≡◌, ◌≢◌, refl, some, [], ◌∷◌, ◌++◌, String}
use web_bou.Limits.Float
use web_bou.Crypto.{Aead}
use web_bou.Crypto.Engine.{Libraries, new_crypto_engine}
use web_bou.Server.Create.{Parts, new_server}
use web_bou.Server.Program.{default_flags, serving, main, config_of, main-stopped}
use web_bou.Server.Lifecycle.{
  Listener, quic_listener, if_set, with_listeners, tcp_listener, accepting, open_listener, finished,
  Server, listen, accept_connection, accept_closed, connection_done, shutdown_again,
  shutdown_selects, shutdown_closes, close_tcp, close_quic, wait_done, context_done, Reach, here,
  next, after_start, start, started,
}
use web_bou.Server.Lifecycle.Stopping.{running, loops_running}
use web_bou.Server.Lifecycle.Late.{IsLate, late_listener}

-- A connection comes.
abbrev served : (s : Server) × Reach (after_start (tcp_listener ∷ [])) s
served =
    let opened = next here (listen tcp_listener refl) in
    (_, next opened (accept_connection tcp_listener refl refl))

-- `Shutdown` closes the listener, the connection goes, the loop returns.
abbrev stopped : (s : Server) × Reach served.0 s
stopped =
    let shut = next (next here (shutdown_selects refl)) (shutdown_closes 0 refl refl) in
    let closed = next (next shut (close_tcp refl)) (close_quic refl) in
    let gone = next closed (connection_done 0 1 refl refl) in
    let returned = next gone (accept_closed tcp_listener refl refl 0 refl) in
    (_, next returned (wait_done refl refl))

-- Another goroutine asks for a shutdown.
abbrev asked_again : (s : Server) × Reach stopped.0 s
asked_again = (_, next here (shutdown_again refl))

abbrev whole_run : Reach (after_start (tcp_listener ∷ [])) stopped.0
whole_run =
    let opened = next here (listen tcp_listener refl) in
    let accepted = next opened (accept_connection tcp_listener refl refl) in
    let shut = next (next accepted (shutdown_selects refl)) (shutdown_closes 0 refl refl) in
    let closed = next (next shut (close_tcp refl)) (close_quic refl) in
    let gone = next closed (connection_done 0 1 refl refl) in
    let returned = next gone (accept_closed tcp_listener refl refl 0 refl) in
    next returned (wait_done refl refl)

-- `Shutdown` closes what it finds, which is no listener, and the loop opens its own.
abbrev unseen : (s : Server) × Reach (after_start (tcp_listener ∷ [])) s
unseen =
    let shut = next (next here (shutdown_selects refl)) (shutdown_closes 0 refl refl) in
    let closed = next (next shut (close_tcp refl)) (close_quic refl) in
    (_, next closed (listen tcp_listener refl))

unseen-IsLate : IsLate tcp_listener unseen.0
unseen-IsLate = record { counted = refl; accepts = refl; opened = refl; closed = refl; passed = tt }

-- The time given to `Shutdown` is over, and the server still accepts a connection.
abbrev after_late : (s : Server) × Reach unseen.0 s
after_late = (_, next (next here (context_done refl)) (accept_connection tcp_listener refl refl))

late_listener_example :
    (after_late.0.loops tcp_listener ≡ accepting)
    × (after_late.0.fields tcp_listener ≡ open_listener)
    × (after_late.0.stopper ≢ finished)
late_listener_example = late_listener tcp_listener unseen-IsLate after_late.1

-- An AEAD that only passes on what it gets.
abbrev plain_aead : Aead
plain_aead = record {
  nonce_size = 2;
  seal = λ nonce plain. plain;
  unseal = λ nonce sealed. some sealed;
  unseal-seal = λ nonce plain size. refl;
}

abbrev plain_crypto : Libraries
plain_crypto = record {
  Cert = String;
  scalar_base_mult = λ bytes. bytes;
  new_x = λ key. some plain_aead;
  new_x-size = λ key size. (plain_aead, refl);
  load_x509_key_pair = λ cert_file key_file. some cert_file;
  sum256 = λ bytes. bytes;
}

serving_default :
    (server : Parts plain_crypto Float.whole) × (main plain_crypto Float.whole default_flags
        (some (1 ∷ []))
        (some (2 ∷ []))
        8000
        9500
        10
      ≡ serving server (tcp_listener ∷ []))
unfolding main new_server new_crypto_engine start default_flags config_of
serving_default = (_, refl)

main-stopped_example :
    (with_listeners
        (if_set default_flags.quic_addr quic_listener ++ if_set default_flags.tcp_addr tcp_listener)
      ≡ started (tcp_listener ∷ []))
    × (stopped.0.wait_group ≡ loops_running stopped.0.loops + stopped.0.connections)
    × (stopped.0.stopper ≡ finished
        → ((l : Listener) → running (asked_again.0.loops l) ≡ 0) × (asked_again.0.connections ≡ 0))
main-stopped_example =
    main-stopped plain_crypto Float.whole default_flags (some (1 ∷ [])) (some (2 ∷ [])) 8000 9500 10
      serving_default.0 (tcp_listener ∷ []) serving_default.1 whole_run asked_again.1
