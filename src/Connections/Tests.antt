-- ===== src/Connections/Tests.antt =====
-- A connection of the TCP proxy and one of the HTTP server, and the theorem about them.
use edge_proxy_go.Base.{◌≡◌, refl, true, false, [], ◌∷◌, none, some, All}
use edge_proxy_go.Proxy.Recorder.{state_new}
use edge_proxy_go.Connections.Tcp.{
  Socket, TcpConn, counted, dial, enters, dials, end_down, ends_down, close_write, IsDialed,
}
use edge_proxy_go.Connections.System.{
  http, Listening, Runs, begins, accepts_tcp, accepts_http, moves, accept_tcp, accept_http,
  open_conns, HasItsSockets, Runs-active,
}

abbrev plain : Socket
plain = record { is_tcp = true; is_open = true; writable = true }

abbrev tls : Socket
tls = record { is_tcp = false; is_open = true; writable = true }

abbrev entered : TcpConn
entered = record { client = tls; upstream = none; phase = counted }

-- A client under TLS, whose backend has sent all.
run : (l : Listening) × Runs l
unfolding accept_tcp accept_http
run =
    let accepted = accepts_tcp tls (accepts_http begins refl) refl (refl, refl) in
    let first = moves [] (http state_new ∷ []) _ entered accepted refl (enters refl) refl in
    let second =
      moves [] (http state_new ∷ []) entered (dial (some plain) entered) first refl
        (dials (some plain) refl (unfold IsDialed in (refl, refl, refl))) refl in
    (_, moves [] (http state_new ∷ []) _ _ second refl (ends_down false (unfold dial in refl)) refl)

-- The end of the backend's data is not passed on to a client under TLS: its connection stays open for
-- writing, and the client does not see the end.
tls_stays_writable : (end_down false (dial (some plain) entered)).client ≡ tls
unfolding end_down dial close_write
tls_stays_writable = refl

Runs-active_example :
    ((run.0).stats.active_conns ≡ open_conns (run.0).conns) × All HasItsSockets (run.0).conns
Runs-active_example = Runs-active run.1
