-- ===== src/Connections/Tcp.antt =====
-- main.go: `handleTCPProxyConnection`, as the moves of its goroutines. Between two moves other
-- connections may move. The bytes that `io.Copy` copies are not modelled, but that a copy ends.
use edge_proxy_go.Base.{
  ℕ, suc, ◌+◌, ◌-◌, ◌≡◌, refl, ap, subst, Bool, true, false, not, ◌&&◌, Option, none, some, arith,
  ltb, if◌then◌else◌,
}
use edge_proxy_go.Proxy.Recorder.{Stats}

-- A `net.Conn`: whether it is a `*net.TCPConn`, as it is not under TLS, whether it is open, and
-- whether it can still be written to.
pub record Socket : Type 0 where
  pub is_tcp : Bool
  pub is_open : Bool
  pub writable : Bool

-- Where the handler is: spawned by `serveTCPProxy`, counted in `activeConns`, copying (with whether
-- the copy to the backend and the copy to the client have ended), past `upstream.Close`, no longer
-- counted, and returned.
pub data Phase : Type 0 where
  spawned counted leaving left returned : Phase
  copying : Bool → Bool → Phase

pub record TcpConn : Type 0 where
  pub client : Socket
  pub upstream : Option Socket
  pub phase : Phase

-- `activeConns++`
unfoldable pub enter : Stats → Stats
enter s = record s { active_conns = suc s.active_conns }

-- The deferred `activeConns--`.
unfoldable pub leave : Stats → Stats
leave s = if ltb 0 s.active_conns then record s { active_conns = s.active_conns - 1 } else s

-- `if tcp, ok := conn.(*net.TCPConn); ok { tcp.CloseWrite() }`
unfoldable pub close_write : Socket → Socket
close_write s = if s.is_tcp then record s { writable = false } else s

unfoldable pub close_socket : Socket → Socket
close_socket s = record s { is_open = false; writable = false }

abbrev pub on_upstream : (Socket → Socket) → Option Socket → Option Socket
on_upstream f none = none
on_upstream f (some u) = some (f u)

-- `net.DialTimeout`: on an error the handler returns.
unfoldable pub dial : Option Socket → TcpConn → TcpConn
dial none c = record c { phase = leaving }
dial (some u) c = record c { upstream = some u; phase = copying false false }

-- The goroutine that copies to the backend, at its end; `down` tells if the other one has ended.
unfoldable pub end_up : Bool → TcpConn → TcpConn
end_up down c = record c {
  upstream = on_upstream close_write c.upstream;
  phase = copying true down;
}

-- The goroutine that copies to the client, at its end.
unfoldable pub end_down : Bool → TcpConn → TcpConn
end_down up c = record c { client = close_write c.client; phase = copying up true }

-- `wg.Wait()` is over, and the deferred `upstream.Close()` is run.
unfoldable pub hang_up : TcpConn → TcpConn
hang_up c = record c { upstream = on_upstream close_socket c.upstream; phase = leaving }

-- The deferred `client.Close()`, the last that the handler does.
unfoldable pub return_from : TcpConn → TcpConn
return_from c = record c { client = close_socket c.client; phase = returned }

-- What `net.DialTimeout` gives for "tcp".
unfoldable pub IsDialed : Option Socket → Type 0
IsDialed none = Unit
IsDialed (some u) = (u.is_tcp ≡ true) × (u.is_open ≡ true) × (u.writable ≡ true)

-- The moves of a connection's goroutines, with the counters before and after.
pub data Move (s : Stats) (c : TcpConn) : Stats → TcpConn → Type 0 where
  enters : c.phase ≡ spawned → Move s c (enter s) (record c { phase = counted })
  dials : (u : Option Socket) → c.phase ≡ counted → IsDialed u → Move s c s (dial u c)
  ends_up : (down : Bool) → c.phase ≡ copying false down → Move s c s (end_up down c)
  ends_down : (up : Bool) → c.phase ≡ copying up false → Move s c s (end_down up c)
  hangs_up : c.phase ≡ copying true true → Move s c s (hang_up c)
  leaves : c.phase ≡ leaving → Move s c (leave s) (record c { phase = left })
  returns : c.phase ≡ left → Move s c s (return_from c)

-- The upstream is not there, or it is closed.
abbrev pub IsHungUp : Option Socket → Type 0
IsHungUp none = Unit
IsHungUp (some u) = u.is_open ≡ false

-- The upstream while it is copied from and to: the proxy can write to it until its copy has ended.
abbrev pub IsConnected : Bool → Option Socket → Type 0
IsConnected up none = ⊥
IsConnected up (some u) = (u.is_tcp ≡ true) × (u.is_open ≡ true) × (u.writable ≡ not up)

-- A client that the proxy can write to, unless `down` and it is not under TLS.
abbrev pub IsServed : Bool → Socket → Type 0
IsServed down c = (c.is_open ≡ true) × (c.writable ≡ not (down && c.is_tcp))

-- The sockets in each phase.
abbrev pub Sockets : Phase → Socket → Option Socket → Type 0
Sockets spawned c u = IsServed false c × (u ≡ none)
Sockets counted c u = IsServed false c × (u ≡ none)
Sockets (copying up down) c u = IsServed down c × IsConnected up u
Sockets leaving c u = (c.is_open ≡ true) × IsHungUp u
Sockets left c u = (c.is_open ≡ true) × IsHungUp u
Sockets returned c u = (c.is_open ≡ false) × IsHungUp u

abbrev pub HasSockets : TcpConn → Type 0
HasSockets c = Sockets c.phase c.client c.upstream

-- The handlers that `activeConns` counts.
unfoldable pub in_service : Phase → ℕ
in_service spawned = 0
in_service counted = 1
in_service (copying up down) = 1
in_service leaving = 1
in_service left = 0
in_service returned = 0

at_phase : {p : Phase} (c : TcpConn) → c.phase ≡ p → HasSockets c → Sockets p c.client c.upstream
at_phase c e h = subst (λ q. Sockets q c.client c.upstream) e h

dial-HasSockets :
    (u : Option Socket) (c : TcpConn)
    → IsDialed u
    → Sockets counted c.client c.upstream
    → HasSockets (dial u c)
unfolding dial IsDialed
dial-HasSockets none c d (served, e) = (served.0, rw e tt)
dial-HasSockets (some u) c d (served, e) = (served, d)

close_write-IsServed : (c : Socket) → IsServed false c → IsServed true (close_write c)
unfolding close_write
close_write-IsServed c h = ground arith

close_write-IsConnected :
    (u : Option Socket) → IsConnected false u → IsConnected true (on_upstream close_write u)
unfolding close_write
close_write-IsConnected none h = h
close_write-IsConnected (some u) h = ground arith

close_socket-IsHungUp : (u : Option Socket) → IsHungUp (on_upstream close_socket u)
unfolding close_socket
close_socket-IsHungUp none = tt
close_socket-IsHungUp (some u) = refl

-- Every move keeps the sockets in the state that its phase asks for.
pub Move-HasSockets : {s t : Stats} {c d : TcpConn} → Move s c t d → HasSockets c → HasSockets d
unfolding end_up end_down hang_up return_from close_socket
Move-HasSockets {c} (enters e) h = at_phase c e h
Move-HasSockets {c} (dials u e fresh) h = dial-HasSockets u c fresh (at_phase c e h)
Move-HasSockets {c} (ends_up down e) h =
    let (served, connected) = at_phase c e h in
    (served, close_write-IsConnected c.upstream connected)
Move-HasSockets {c} (ends_down up e) h =
    let (served, connected) = at_phase c e h in (close_write-IsServed c.client served, connected)
Move-HasSockets {c} (hangs_up e) h =
    let (served, connected) = at_phase c e h in (served.0, close_socket-IsHungUp c.upstream)
Move-HasSockets {c} (leaves e) h = at_phase c e h
Move-HasSockets {c} (returns e) h = (refl, (at_phase c e h).1)

-- What a move adds to the connections in service is what it adds to `activeConns`, where that
-- counts the connection.
pub Move-active :
    {s t : Stats} {c d : TcpConn} (others : ℕ)
    → Move s c t d
    → s.active_conns ≡ in_service c.phase + others
    → t.active_conns ≡ in_service d.phase + others
unfolding enter leave dial end_up end_down hang_up return_from in_service
Move-active {s} {c} others (enters e) h = omega (arith, ap in_service e)
Move-active {s} {c} others (dials none e fresh) h = omega (arith, ap in_service e)
Move-active {s} {c} others (dials (some u) e fresh) h = omega (arith, ap in_service e)
Move-active {s} {c} others (ends_up down e) h = omega (arith, ap in_service e)
Move-active {s} {c} others (ends_down up e) h = omega (arith, ap in_service e)
Move-active {s} {c} others (hangs_up e) h = omega (arith, ap in_service e)
Move-active {s} {c} others (leaves e) h = ground (arith, ap in_service e)
Move-active {s} {c} others (returns e) h = omega (arith, ap in_service e)
