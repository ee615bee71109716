-- ===== src/TestServer/Routing.antt =====
-- internal/ynabtest/server.go: routes and resolve, against the coverage table and the requests of
-- the services.
use ynab_go.Base.{
  ◌≡◌, refl, sym, ap, ◌∙◌, true, false, ◌&&◌, Option-cases, inl, inr, Option, none, some, List, [],
  ◌∷◌, ◌++◌, map, arith, All, Bytes, codes, bytes_eq, is_nil, if◌then◌else◌,
}
use ynab_go.Std.Maps.{Map, lookup}
use ynab_go.Std.Strings.{Lacks}
use ynab_go.Transport.Path.{IsText, unescape, segments_of}
use ynab_go.Transport.Path.Received.{segments-received}
use ynab_go.Date.{Day, AddDate}
use ynab_go.Plan.{path}
use ynab_go.Client.Call.Guard.{any_nil}
use ynab_go.Services.{Operation, prepare}
use ynab_go.Services.Requests.{Endpoint, ready}
use ynab_go.Services.Ids.{id_arguments}
use ynab_go.Contract.{Row, contains, row_id}
use ynab_go.Contract.Table.{table}
use ynab_go.Contract.Pattern.{match_string, path_regexp}
use ynab_go.Contract.Rows.{operation_id, matching, wire_segments}
use ynab_go.Contract.Rows.Coverage.{prepare-IsCovered}
use ynab_go.TestServer.{
  FixtureSpec, Route, Request, fixtures, row_routes, table_routes, routes, serves, resolve,
}

abbrev pub route_spec : Option Route → Option FixtureSpec
route_spec none = none
route_spec (some rt) = some rt.spec

-- The first fixture without a body key, or with one that the body has.
abbrev pub first_served : List Bytes → List FixtureSpec → Option FixtureSpec
first_served keys [] = none
first_served keys (fs ∷ specs) =
    if (if is_nil fs.body_key then true else contains keys fs.body_key)
    then some fs
    else first_served keys specs

abbrev or_else : {A : Type 0} → Option A → Option A → Option A
or_else none b = b
or_else (some a) b = some a

abbrev pub fixtures_for : Map (List FixtureSpec) → Bytes → List FixtureSpec
fixtures_for served id = elim (lookup id served) [ none ↦ [] | some specs ↦ specs ]

-- The first fixture over rows, by their ids.
abbrev first_of : Map (List FixtureSpec) → List Bytes → List Bytes → Option FixtureSpec
first_of served keys [] = none
first_of served keys (id ∷ ids) =
    or_else (first_served keys (fixtures_for served id)) (first_of served keys ids)

resolve-row :
    (top_keys : Bytes → List Bytes) (q : Request) (op : Row) (specs : List FixtureSpec)
    (rts : List Route)
    → route_spec (resolve top_keys q (row_routes op specs ++ rts)) ≡ (
        if bytes_eq op.method q.method && match_string (path_regexp op.path) q.path
        then or_else (first_served (top_keys q.body) specs) (route_spec (resolve top_keys q rts))
        else route_spec (resolve top_keys q rts))
unfolding resolve serves row_routes
resolve-row top_keys q op [] rts = ground arith
resolve-row top_keys q op (fs ∷ specs) rts = ground (arith, resolve-row top_keys q op specs rts)

resolve-table :
    (top_keys : Bytes → List Bytes) (q : Request) (served : Map (List FixtureSpec))
    (rows : List Row) (rts : List Route)
    → table_routes served rows ≡ some rts
    → route_spec (resolve top_keys q rts)
      ≡ first_of served (top_keys q.body) (map row_id (matching q.method (segments_of q.path) rows))
unfolding table_routes matching match_string resolve
resolve-table top_keys q served [] rts h =
    let e : [] ≡ rts = cc h in ap (λ l. route_spec (resolve top_keys q l)) (sym e)
resolve-table top_keys q served (op ∷ rows) rts h = elim (Option-cases (lookup op.id served)) [
  | inl lacking ↦ absurd (ground (arith, lacking))
  | inr (specs, found) ↦ elim (Option-cases (table_routes served rows)) [
    | inl lacking ↦ absurd (ground (arith, found, lacking))
    | inr (rest, made) ↦
        let e : row_routes op specs ++ rest ≡ rts = ground (arith, found, made) in
        ap (λ l. route_spec (resolve top_keys q l)) (sym e)
        ∙ (resolve-row top_keys q op specs rest
            ∙ ground (arith, found, resolve-table top_keys q served rows rest made))
  ]
]

-- The routes of the package's own fixtures.
abbrev pub all_routes : List Route
all_routes = elim (routes fixtures table) [ none ↦ [] | some rts ↦ rts ]

-- `routes` does not panic on the coverage table and the fixtures: each row has its fixtures, and the
-- two have the same length.
pub routes_total : routes fixtures table ≡ some all_routes
unfolding routes table_routes row_routes bytes_eq lookup
routes_total = refl

table_routes_total : table_routes fixtures table ≡ some all_routes
unfolding routes
table_routes_total = routes_total

-- The request of an endpoint as the handler reads it: net/http decodes the path that JoinPath made.
abbrev pub incoming : Bytes → Endpoint → Bytes → Request
incoming id r body = record {
  method = r.method;
  path = unescape (b'/' ∷ path id r.segments);
  query = r.query;
  body = body;
}

or_else-none : {A : Type 0} (o : Option A) → or_else o none ≡ o
or_else-none none = refl
or_else-none (some a) = refl

module _ (today : Day) (add_date : AddDate) where
  -- For every operation of a plan (of its services, Settings or Export) that its own checks let
  -- through, with a plan id and id arguments that are not empty, and segments that are texts of
  -- bytes without a slash: the fake server resolves its request, received over the wire with any
  -- body, to the first fixture listed under the operationId of the method's doc line whose body key
  -- the body has, and to no route if there is none.
  pub resolve-prepare :
      (top_keys : Bytes → List Bytes) (id : Bytes) (op : Operation) (r : Endpoint) (body : Bytes)
      → prepare today add_date op ≡ ready r
      → any_nil (id ∷ id_arguments op) ≡ false
      → All IsText (id ∷ r.segments)
      → All (Lacks b'/') (id ∷ r.segments)
      → route_spec (resolve top_keys (incoming id r body) all_routes)
        ≡ first_served (top_keys body) (fixtures_for fixtures (operation_id op))
  unfolding path
  resolve-prepare top_keys id op r body h full text plain =
      let seen : segments_of (incoming id r body).path ≡ wire_segments id r =
        segments-received (codes "plans") (id ∷ r.segments) (ground arith, text)
          (ground arith, plain) in
      let one = (prepare-IsCovered today add_date id op r h full).0 in
      resolve-table top_keys (incoming id r body) fixtures table all_routes table_routes_total
      ∙ (ap (λ segs. first_of fixtures (top_keys body) (map row_id (matching r.method segs table)))
            seen
          ∙ (ap (λ ids. first_of fixtures (top_keys body) ids) one
              ∙ or_else-none
                  (first_served (top_keys body) (fixtures_for fixtures (operation_id op)))))
