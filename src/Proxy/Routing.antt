-- ===== src/Proxy/Routing.antt =====
-- main.go: `matchRoute` and `routeBackendSet`.
use edge_proxy_go.Base.{
  ◌<◌, ◌≤◌, ◌≡◌, refl, ap, Bool, true, false, ◌&&◌, Option, none, some, List, [], ◌∷◌, ◌++◌, map,
  String, len, starts_with, arith, ltb, if◌then◌else◌, All, All-imp, Bool-cases, inl, inr,
}
use edge_proxy_go.Config.Types.{BackendConfig, RouteConfig}

-- The test in the loop. Two paths that pass the prefix test are prefixes of one text, so counting
-- characters orders them as counting bytes does.
unfoldable pub beats : String → Option RouteConfig → RouteConfig → Bool
beats path none r = starts_with path r.path
beats path (some matched) r = starts_with path r.path && ltb (len matched.path) (len r.path)

unfoldable pub match_from : String → Option RouteConfig → List RouteConfig → Option RouteConfig
match_from path matched [] = matched
match_from path matched (r ∷ rs) =
    match_from path (if beats path matched r then some r else matched) rs

unfoldable pub match_route : String → List RouteConfig → Option RouteConfig
match_route path routes = match_from path none routes

-- The nil map, which allows every backend, is `none`.
unfoldable pub route_backend_set : Option RouteConfig → Option (List String)
route_backend_set none = none
route_backend_set (some route) = some (map (λ (b : BackendConfig). b.address) route.backends)

-- `r` does not fit the path, or its prefix is shorter than that of `m`.
abbrev pub IsShorter : String → RouteConfig → RouteConfig → Type 0
IsShorter path m r = starts_with path r.path ≡ true → len r.path < len m.path

abbrev pub IsNotLonger : String → RouteConfig → RouteConfig → Type 0
IsNotLonger path m r = starts_with path r.path ≡ true → len r.path ≤ len m.path

-- `m` fits the path, those before it that do are shorter, and those after it are not longer.
pub record Longest (path : String) (routes : List RouteConfig) (m : RouteConfig) : Type 0 where
  pub before : List RouteConfig
  pub after : List RouteConfig
  pub stands : routes ≡ before ++ m ∷ after
  pub fits : starts_with path m.path ≡ true
  pub first : All (IsShorter path m) before
  pub longest : All (IsNotLonger path m) after

abbrev pub IsMatch : String → List RouteConfig → Option RouteConfig → Type 0
IsMatch path routes none = All (λ r. starts_with path r.path ≡ false) routes
IsMatch path routes (some m) = Longest path routes m

-- What the loop does from a match so far: it keeps it, or goes over to a route that beats it.
data Outcome (path : String) (matched : Option RouteConfig) (rs : List RouteConfig)
    : Option RouteConfig → Type 0 where
  keeps : All (λ r. beats path matched r ≡ false) rs → Outcome path matched rs matched
  found :
      (m : RouteConfig)
      → beats path matched m ≡ true
      → Longest path rs m
      → Outcome path matched rs (some m)

beats_trans :
    (path : String) (matched : Option RouteConfig) (r m : RouteConfig)
    → beats path matched r ≡ true
    → beats path (some r) m ≡ true
    → (beats path matched m ≡ true) × IsShorter path m r
unfolding beats
beats_trans path none r m h h' = ground arith
beats_trans path (some b) r m h h' = ground arith

beaten :
    (path : String) (matched : Option RouteConfig) (r m : RouteConfig)
    → beats path matched r ≡ false
    → beats path matched m ≡ true
    → IsShorter path m r
unfolding beats
beaten path none r m h h' = ground arith
beaten path (some b) r m h h' = ground arith

not_longer :
    (path : String) (m r : RouteConfig) → beats path (some m) r ≡ false → IsNotLonger path m r
unfolding beats
not_longer path m r h = ground arith

fits_of :
    (path : String) (matched : Option RouteConfig) (r : RouteConfig)
    → beats path matched r ≡ true
    → starts_with path r.path ≡ true
unfolding beats
fits_of path none r h = h
fits_of path (some b) r h = ground arith

found_first :
    (path : String) (matched : Option RouteConfig) (r : RouteConfig) (rs : List RouteConfig)
    → beats path matched r ≡ true
    → (o : Option RouteConfig) → Outcome path (some r) rs o
    → Outcome path matched (r ∷ rs) o
found_first path matched r rs b _ (keeps h) = found r b record {
  before = [];
  after = rs;
  stands = refl;
  fits = fits_of path matched r b;
  first = tt;
  longest = All-imp _ _ rs (λ x. not_longer path r x) h;
}
found_first path matched r rs b _ (found m b' l) =
    let (on, shorter) = beats_trans path matched r m b b' in
    found m on record {
      before = r ∷ l.before;
      after = l.after;
      stands = ap (λ x. r ∷ x) l.stands;
      fits = l.fits;
      first = (shorter, l.first);
      longest = l.longest;
    }

kept_first :
    (path : String) (matched : Option RouteConfig) (r : RouteConfig) (rs : List RouteConfig)
    → beats path matched r ≡ false
    → (o : Option RouteConfig) → Outcome path matched rs o
    → Outcome path matched (r ∷ rs) o
kept_first path matched r rs b _ (keeps h) = keeps (b, h)
kept_first path matched r rs b _ (found m b' l) = found m b' record {
  before = r ∷ l.before;
  after = l.after;
  stands = ap (λ x. r ∷ x) l.stands;
  fits = l.fits;
  first = (beaten path matched r m b b', l.first);
  longest = l.longest;
}

match_from-Outcome :
    (path : String) (matched : Option RouteConfig) (rs : List RouteConfig)
    → Outcome path matched rs (match_from path matched rs)
unfolding match_from
match_from-Outcome path matched [] = keeps tt
match_from-Outcome path matched (r ∷ rs) = elim (Bool-cases (beats path matched r)) [
  | inl b ↦ rw b (found_first path matched r rs b _ (match_from-Outcome path (some r) rs))
  | inr b ↦ rw b (kept_first path matched r rs b _ (match_from-Outcome path matched rs))
]

IsMatch-of_Outcome :
    (path : String) (rs : List RouteConfig) (o : Option RouteConfig)
    → Outcome path none rs o
    → IsMatch path rs o
unfolding beats
IsMatch-of_Outcome path rs _ (keeps h) = h
IsMatch-of_Outcome path rs _ (found m b l) = l

-- `matchRoute` gives the first of the routes with the longest prefix of the path, and no route only
-- if no route's path is a prefix.
pub match_route-IsMatch :
    (path : String) (routes : List RouteConfig) → IsMatch path routes (match_route path routes)
unfolding match_route
match_route-IsMatch path routes =
    IsMatch-of_Outcome path routes _ (match_from-Outcome path none routes)
