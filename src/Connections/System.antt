-- ===== src/Connections/System.antt =====
-- main.go: `serveTCPProxy` and `trackConnectionState`: all connections of the proxy, whose moves come
-- in any order, and what `activeConns` counts.
use edge_proxy_go.Base.{
  ℕ, ◌+◌, ◌≡◌, ◌≢◌, refl, ap, sym, subst, ◌∙◌, Bool, true, false, List, [], ◌∷◌, ◌++◌, none, arith,
  All,
}
use edge_proxy_go.Proxy.Recorder.{
  Stats, no_stats, LogEntry, ConnState, state_new, state_active, state_idle, state_hijacked,
  state_closed, track_connection_state, record_request,
}
use edge_proxy_go.Connections.Tcp.{
  Socket, TcpConn, spawned, IsServed, HasSockets, in_service, Move, Move-HasSockets, Move-active,
}

-- A connection of the HTTP server, with the state that it was last reported in, or of the TCP proxy.
pub data Conn : Type 0 where
  http : ConnState → Conn
  tcp : TcpConn → Conn

-- The counters, all connections that were accepted, and whether the listener is open.
pub record Listening : Type 0 where
  pub stats : Stats
  pub conns : List Conn
  pub accepting : Bool

-- A client that was just accepted, and the handler that `serveTCPProxy` starts for it.
unfoldable pub accept_tcp : Socket → Listening → Listening
accept_tcp client l = record l {
  conns = tcp record { client = client; upstream = none; phase = spawned } ∷ l.conns;
}

-- The HTTP server calls `ConnState` with `StateNew` for a connection that it has accepted.
unfoldable pub accept_http : Listening → Listening
accept_http l = record l {
  stats = track_connection_state state_new l.stats;
  conns = http state_new ∷ l.conns;
}

-- After these states the HTTP server reports no other.
abbrev pub IsLast : ConnState → Type 0
IsLast state_closed = Unit
IsLast state_hijacked = Unit
IsLast _ = ⊥

-- The moves of a process, from its start: in TCP mode those of `serveTCPProxy` and its handlers, in
-- HTTP mode the changes that the server reports. A request changes the other counters.
pub data Runs : Listening → Type 0 where
  begins : Runs record { stats = no_stats; conns = []; accepting = true }
  accepts_tcp :
      {l : Listening} (client : Socket)
      → Runs l
      → l.accepting ≡ true
      → IsServed false client
      → Runs (accept_tcp client l)
  accepts_http : {l : Listening} → Runs l → l.accepting ≡ true → Runs (accept_http l)
  changes :
      {l : Listening} {conns : List Conn} (before after : List Conn) (old new : ConnState)
      → Runs l
      → l.conns ≡ before ++ http old ∷ after
      → ¬ IsLast old
      → new ≢ state_new
      → conns ≡ before ++ http new ∷ after
      → Runs (record l { stats = track_connection_state new l.stats; conns = conns })
  moves :
      {l : Listening} {s : Stats} {conns : List Conn} (before after : List Conn) (c d : TcpConn)
      → Runs l
      → l.conns ≡ before ++ tcp c ∷ after
      → Move l.stats c s d
      → conns ≡ before ++ tcp d ∷ after
      → Runs (record l { stats = s; conns = conns })
  requests :
      {l : Listening} (entry : LogEntry)
      → Runs l
      → Runs (record l { stats = record_request entry entry.limited l.stats })
  closes : {l : Listening} → Runs l → Runs (record l { accepting = false })

-- What a connection counts: an HTTP connection unless it is closed or hijacked, and a TCP handler
-- between its two updates of the counter.
unfoldable pub weight : Conn → ℕ
weight (http state_closed) = 0
weight (http state_hijacked) = 0
weight (http state_new) = 1
weight (http state_active) = 1
weight (http state_idle) = 1
weight (tcp c) = in_service c.phase

unfoldable pub open_conns : List Conn → ℕ
open_conns [] = 0
open_conns (c ∷ cs) = weight c + open_conns cs

abbrev pub HasItsSockets : Conn → Type 0
HasItsSockets (http state) = Unit
HasItsSockets (tcp c) = HasSockets c

-- The connection in the middle of a list.
open_conns-middle :
    (before after : List Conn) (c : Conn)
    → open_conns (before ++ c ∷ after) ≡ weight c + open_conns (before ++ after)
unfolding open_conns
open_conns-middle [] after c = refl
open_conns-middle (b ∷ before) after c = omega (arith, open_conns-middle before after c)

All-middle :
    (P : Conn → Type 0) (before after : List Conn) (c d : Conn)
    → (P c → P d)
    → All P (before ++ c ∷ after)
    → All P (before ++ d ∷ after)
All-middle P [] after c d f (p, ps) = (f p, ps)
All-middle P (b ∷ before) after c d f (p, ps) = (p, All-middle P before after c d f ps)

-- A number of connections, with one of them taken out, and put back.
taken :
    {conns : List Conn} {n : ℕ} (before after : List Conn) (c : Conn)
    → conns ≡ before ++ c ∷ after
    → n ≡ open_conns conns
    → n ≡ weight c + open_conns (before ++ after)
taken before after c e h = h ∙ ap open_conns e ∙ open_conns-middle before after c

replaced :
    {conns : List Conn} {n : ℕ} (before after : List Conn) (c : Conn)
    → conns ≡ before ++ c ∷ after
    → n ≡ weight c + open_conns (before ++ after)
    → n ≡ open_conns conns
replaced before after c e h = h ∙ sym (open_conns-middle before after c) ∙ ap open_conns (sym e)

change-active :
    (old new : ConnState) (s : Stats) (others : ℕ)
    → ¬ IsLast old
    → new ≢ state_new
    → s.active_conns ≡ weight (http old) + others
    → (track_connection_state new s).active_conns ≡ weight (http new) + others
unfolding track_connection_state weight
change-active state_closed new s others l n h = absurd (l tt)
change-active state_hijacked new s others l n h = absurd (l tt)
change-active old state_new s others l n h = absurd (n refl)
change-active state_new state_active s others l n h = omega arith
change-active state_new state_idle s others l n h = omega arith
change-active state_new state_hijacked s others l n h = omega arith
change-active state_new state_closed s others l n h = omega arith
change-active state_active state_active s others l n h = omega arith
change-active state_active state_idle s others l n h = omega arith
change-active state_active state_hijacked s others l n h = omega arith
change-active state_active state_closed s others l n h = omega arith
change-active state_idle state_active s others l n h = omega arith
change-active state_idle state_idle s others l n h = omega arith
change-active state_idle state_hijacked s others l n h = omega arith
change-active state_idle state_closed s others l n h = omega arith

-- However the moves of the connections are interleaved, `activeConns` is the number of the HTTP
-- connections that were last reported neither closed nor hijacked, and of the TCP handlers that are
-- between their two updates of it. (A handler that is spawned and has not made the first, or that
-- has made the second and has not yet closed its client, does not count.) And each handler has its sockets as its
-- phase asks for: the upstream is open exactly while it copies, and can be written to exactly until
-- the copy to it has ended; the client is open until the handler returns.
pub Runs-active :
    {l : Listening}
    → Runs l
    → (l.stats.active_conns ≡ open_conns l.conns) × All HasItsSockets l.conns
unfolding open_conns weight in_service accept_tcp accept_http track_connection_state record_request
Runs-active begins = (refl, tt)
Runs-active (accepts_tcp client r a s) =
    let (n, hs) = Runs-active r in (omega (arith, n), ((s, refl), hs))
Runs-active (accepts_http r a) = let (n, hs) = Runs-active r in (omega (arith, n), (tt, hs))
Runs-active (changes {l} before after old new r e f n g) =
    let (m, hs) = Runs-active r in
    (
      replaced before after (http new) g (
          change-active old new l.stats (open_conns (before ++ after)) f n
            (taken before after (http old) e m)),
      subst (All HasItsSockets) (sym g) (
          All-middle HasItsSockets before after (http old) (http new) (λ _. tt)
            (subst (All HasItsSockets) e hs)),
    )
Runs-active (moves before after c d r e move g) =
    let (m, hs) = Runs-active r in
    (
      replaced before after (tcp d) g
          (Move-active (open_conns (before ++ after)) move (taken before after (tcp c) e m)),
      subst (All HasItsSockets) (sym g) (
          All-middle HasItsSockets before after (tcp c) (tcp d) (Move-HasSockets move)
            (subst (All HasItsSockets) e hs)),
    )
Runs-active (requests entry r) = Runs-active r
Runs-active (closes r) = Runs-active r
