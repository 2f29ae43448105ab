-- ===== src/Server/Network/Moves.antt =====
-- server/webbou/server.go: what each kind of step makes of the counts of connections and sessions.
use web_bou.Prelude.{
  string_eq, ℕ, ◌≤◌, ◌≡◌, ◌∙◌, true, false, Option, some, none, List, ◌∷◌, ◌++◌, String, ◌==◌,
  if◌then◌else◌, arith, sum, sum-at, sum-change,
}
use text.Mathlib.TextEquality.{eq_iff}
use web_bou.Prelude.Maps.{get, get-put, get-delete}
use web_bou.Limits.Connections.{
  allow_connection, get_connection_count, count-allow, count-refused, count-release, allow_below,
  max_per_ip-allow, max_per_ip-release,
}
use web_bou.Server.{Session, new_session}
use web_bou.Server.Tcp.{Limiter, Server, create_session, close_session}
use web_bou.Server.Network.{Live, admitted, serving, leaving, quic, System, ask, release}

-- A TCP connection of this address, from its admission to its release.
abbrev pub tcp_from : String → Live → ℕ
tcp_from a (admitted addr) = if addr == a then 1 else 0
tcp_from a (serving id addr reader session) = if addr == a then 1 else 0
tcp_from a (leaving addr) = if addr == a then 1 else 0
tcp_from a (quic id session) = 0

-- A connection with this session.
abbrev pub user_of : String → Live → ℕ
user_of j (admitted addr) = 0
user_of j (serving id addr reader session) = if id == j then 1 else 0
user_of j (leaving addr) = 0
user_of j (quic id session) = if id == j then 1 else 0

abbrev pub stored : Option Session → ℕ
stored none = 0
stored (some session) = 1

-- The counts are those of the admitted connections, and the stored sessions are those of the
-- connections between their `createSession` and `closeSession`, one for each.
pub record IsConsistent {lim : Limiter} (limit : ℕ) (s : System lim) : Type 0 where
  pub fixed : s.server.conn_limiter.max_per_ip ≡ limit
  pub within : (a : String) → sum (tcp_from a) s.live ≤ limit
  pub counted :
      (a : String) → get_connection_count s.server.conn_limiter a ≡ sum (tcp_from a) s.live
  pub owned : (id : String) → stored (get id s.server.sessions) ≡ sum (user_of id) s.live

module _ {lim : Limiter} {limit : ℕ} (s : System lim) (c : IsConsistent limit s) where
  -- A connection moves on, and neither the limiter nor the map of sessions changes.
  pub move-IsConsistent :
      (server : Server lim) (before later : List Live) (l k : Live)
      → s.live ≡ before ++ l ∷ later
      → server.conn_limiter ≡ s.server.conn_limiter
      → server.sessions ≡ s.server.sessions
      → ((a : String) → tcp_from a k ≡ tcp_from a l)
      → ((id : String) → user_of id k ≡ user_of id l)
      → IsConsistent limit (record { server = server; live = before ++ k ∷ later })
  move-IsConsistent server before later l k e same_limiter same_sessions same_from same_user =
      record {
        fixed = rw same_limiter c.fixed;
        within = λ a.
            omega
              (arith, c.within a, sum-change (tcp_from a) s.live before l k later e, same_from a);
        counted = λ a. rw same_limiter (
            omega
              (arith, c.counted a, sum-change (tcp_from a) s.live before l k later e, same_from a));
        owned = λ id. rw same_sessions (
            omega
              (arith, c.owned id, sum-change (user_of id) s.live before l k later e, same_user id));
      }

  pub allow-IsConsistent :
      (addr : String)
      → (allow_connection s.server.conn_limiter addr).1 ≡ true
      → IsConsistent limit (record { server = ask s.server addr; live = admitted addr ∷ s.live })
  unfolding ask
  allow-IsConsistent addr allowed =
      let crl = s.server.conn_limiter in
      record {
        fixed = max_per_ip-allow crl addr ∙ c.fixed;
        within = λ a. ground (
          arith,
          c.within a,
          c.counted addr,
          c.counted a,
          c.fixed,
          allow_below crl addr allowed,
          eq_iff addr a,
        );
        counted = λ a.
            ground
              (arith, c.counted addr, c.counted a, count-allow crl addr a allowed, eq_iff addr a);
        owned = λ id. omega (arith, c.owned id);
      }

  pub refuse-IsConsistent :
      (addr : String)
      → (allow_connection s.server.conn_limiter addr).1 ≡ false
      → IsConsistent limit (record { server = ask s.server addr; live = s.live })
  unfolding ask
  refuse-IsConsistent addr refused = record {
    fixed = max_per_ip-allow s.server.conn_limiter addr ∙ c.fixed;
    within = c.within;
    counted = λ a. count-refused s.server.conn_limiter addr a refused ∙ c.counted a;
    owned = c.owned;
  }

  pub release-IsConsistent :
      (before later : List Live) (addr : String)
      → s.live ≡ before ++ leaving addr ∷ later
      → IsConsistent limit (record { server = release s.server addr; live = before ++ later })
  unfolding release
  release-IsConsistent before later addr e =
      let crl = s.server.conn_limiter in
      let one = λ (a : String). sum-at (tcp_from a) s.live before (leaving addr) later e in
      record {
        fixed = max_per_ip-release crl addr ∙ c.fixed;
        within = λ a. omega (arith, c.within a, one a);
        counted = λ a. ground (
          arith,
          c.counted a,
          c.counted addr,
          one a,
          one addr,
          count-release crl addr a,
          eq_iff addr a,
        );
        owned = λ id.
            omega (arith, c.owned id, sum-at (user_of id) s.live before (leaving addr) later e);
      }

  pub open-IsConsistent :
      (before later : List Live) (addr id : String) (k : Live)
      → s.live ≡ before ++ admitted addr ∷ later
      → get id s.server.sessions ≡ none
      → ((a : String) → tcp_from a k ≡ tcp_from a (admitted addr))
      → ((j : String) → user_of j k ≡ (if id == j then 1 else 0))
      → IsConsistent limit
          (record { server = (create_session s.server id).0; live = before ++ k ∷ later })
  unfolding create_session
  open-IsConsistent before later addr id k e fresh same_from own = record {
    fixed = c.fixed;
    within = λ a. omega (
      arith,
      c.within a,
      sum-change (tcp_from a) s.live before (admitted addr) k later e,
      same_from a,
    );
    counted = λ a. omega (
      arith,
      c.counted a,
      sum-change (tcp_from a) s.live before (admitted addr) k later e,
      same_from a,
    );
    owned = λ j. ground (
      arith,
      fresh,
      c.owned j,
      own j,
      sum-change (user_of j) s.live before (admitted addr) k later e,
      get-put id j (new_session id) s.server.sessions,
      eq_iff id j,
    );
  }

  pub accept-IsConsistent :
      (id : String)
      → get id s.server.sessions ≡ none
      → IsConsistent limit (record {
        server = (create_session s.server id).0;
        live = quic id (new_session id) ∷ s.live;
      })
  unfolding create_session
  accept-IsConsistent id fresh = record {
    fixed = c.fixed;
    within = λ a. omega (arith, c.within a);
    counted = λ a. omega (arith, c.counted a);
    owned = λ j.
        ground
          (arith, fresh, c.owned j, get-put id j (new_session id) s.server.sessions, eq_iff id j);
  }

  -- The deferred `closeSession` over TCP.
  pub close-IsConsistent :
      (before later : List Live) (id addr : String) (l : Live)
      → s.live ≡ before ++ l ∷ later
      → ((a : String) → tcp_from a l ≡ (if addr == a then 1 else 0))
      → ((j : String) → user_of j l ≡ (if id == j then 1 else 0))
      → IsConsistent limit
          (record { server = close_session s.server id; live = before ++ leaving addr ∷ later })
  unfolding close_session
  close-IsConsistent before later id addr l e from own = record {
    fixed = c.fixed;
    within = λ a.
        omega (
          arith,
          c.within a,
          sum-change (tcp_from a) s.live before l (leaving addr) later e,
          from a,
        );
    counted = λ a. omega (
      arith,
      c.counted a,
      sum-change (tcp_from a) s.live before l (leaving addr) later e,
      from a,
    );
    owned = λ j. ground (
      arith,
      c.owned j,
      own j,
      sum-change (user_of j) s.live before l (leaving addr) later e,
      get-delete id j s.server.sessions,
    );
  }

  pub close_quic-IsConsistent :
      (before later : List Live) (id : String) (session : Session)
      → s.live ≡ before ++ quic id session ∷ later
      → IsConsistent limit (record { server = close_session s.server id; live = before ++ later })
  unfolding close_session
  close_quic-IsConsistent before later id session e = record {
    fixed = c.fixed;
    within =
        λ a. omega (arith, c.within a, sum-at (tcp_from a) s.live before (quic id session) later e);
    counted = λ a.
        omega (arith, c.counted a, sum-at (tcp_from a) s.live before (quic id session) later e);
    owned = λ j. ground (
      arith,
      c.owned j,
      sum-at (user_of j) s.live before (quic id session) later e,
      get-delete id j s.server.sessions,
    );
  }
