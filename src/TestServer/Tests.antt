-- ===== src/TestServer/Tests.antt =====
-- The theorems on the fake server at concrete requests.
use ynab_go.Base.{◌≡◌, refl, Option, some, List, [], ◌∷◌, map, arith, Bytes, codes}
use ynab_go.Client.Call.{nil_body}
use ynab_go.Services.Tests.{today, add_date}
use ynab_go.Services.{scheduled_get, prepare}
use ynab_go.Services.Requests.{Endpoint, ready}
use ynab_go.Contract.Rows.{operation_id}
use ynab_go.TestServer.{
  Request, fixtures, resolve, injected, serve, new_server, fail_with, arrive, run,
}
use ynab_go.TestServer.Routing.{
  route_spec, first_served, fixtures_for, all_routes, incoming, resolve-prepare,
}
use ynab_go.TestServer.Injection.{run-fail_with}

abbrev scheduled : Endpoint
scheduled = record {
  method = codes "GET";
  segments = codes "scheduled_transactions" ∷ codes "s1" ∷ [];
  query = [];
  payload = nil_body;
}

scheduled_ready : prepare today add_date (scheduled_get (codes "s1")) ≡ ready scheduled
unfolding prepare
scheduled_ready = refl

abbrev no_keys : Bytes → List Bytes
no_keys body = []

resolve-prepare_example :
    route_spec (resolve no_keys (incoming (codes "home") scheduled []) all_routes)
    ≡ first_served [] (fixtures_for fixtures (operation_id (scheduled_get (codes "s1"))))
resolve-prepare_example =
    resolve-prepare today add_date no_keys (codes "home") (scheduled_get (codes "s1")) scheduled []
      scheduled_ready refl (ground arith) (ground arith)

abbrev request : Request
request = incoming (codes "home") scheduled []

abbrev file : Bytes → Option Bytes
file name = some (codes "{}")

run-fail_with_example :
    run no_keys file all_routes
      (map arrive (request ∷ request ∷ []))
      (fail_with 503 (codes "503") (codes "service_unavailable") new_server)
    ≡ (
      new_server,
      injected 503 (codes "503") (codes "service_unavailable")
          ∷ map (serve no_keys file all_routes) (request ∷ []),
    )
run-fail_with_example =
    run-fail_with no_keys file all_routes 503 (codes "503") (codes "service_unavailable") new_server
      request (request ∷ []) (omega arith)
