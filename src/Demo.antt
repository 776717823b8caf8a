-- ===== src/Demo.antt =====
-- cmd/backend/main.go: the backend that the proxy is tried with.

mod Tests
use Prim.Native.String
use edge_proxy_go.Base.{ℕ, Bool, true, false, List, [], ◌∷◌, String, if◌then◌else◌, ◌==ₛ◌}

-- The handler that `http.ServeMux` finds for a path: a pattern that does not end in a slash is for
-- that path alone, and "/" is for all others.
pub data Page : Type 0 where
  health hello home other : Page

unfoldable pub page_of : String → Page
page_of path =
    if path ==ₛ "/health"
    then health
    else if path ==ₛ "/hello"
    then hello
    else if path ==ₛ "/home"
    then home
    else other

-- The body that the handler writes, with status 200.
unfoldable pub body_of : String → Page → String
body_of port health = "ok"
body_of port hello = String.◌++◌ "Hello from " port
body_of port home = "This is the home page"
body_of port other = String.◌++◌ "Hello from " port

unfoldable pub reply : String → String → ℕ × String
unfolding page_of body_of
reply port path = (200, body_of port (page_of path))

-- The exit code for `os.Args`; `serves` is true if `ListenAndServe` ends without an error, or with
-- that of a server that was closed.
unfoldable pub main : (String → Bool) → List String → ℕ
main serves (program ∷ port ∷ rest) = if serves port then 0 else 1
main serves _ = 1
