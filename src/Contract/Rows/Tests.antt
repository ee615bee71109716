-- ===== src/Contract/Rows/Tests.antt =====
-- The coverage of the table at a concrete operation.
use ynab_go.Base.{◌≡◌, refl, [], ◌∷◌, codes}
use ynab_go.Client.Call.{nil_body}
use ynab_go.Services.Tests.{today, add_date}
use ynab_go.Services.{scheduled_get, prepare}
use ynab_go.Services.Requests.{Endpoint, ready}
use ynab_go.Contract.Rows.{operation_id, IsCoveredBy}
use ynab_go.Contract.Rows.Coverage.{prepare-IsCovered}

abbrev scheduled : Endpoint
scheduled = record {
  method = codes "GET";
  segments = codes "scheduled_transactions" ∷ codes "s1" ∷ [];
  query = [];
  payload = nil_body;
}

scheduled_ready : prepare today add_date (scheduled_get (codes "s1")) ≡ ready scheduled
unfolding prepare
scheduled_ready = refl

prepare-IsCovered_example :
    IsCoveredBy (operation_id (scheduled_get (codes "s1"))) (codes "home") scheduled
prepare-IsCovered_example =
    prepare-IsCovered today add_date (codes "home") (scheduled_get (codes "s1")) scheduled
      scheduled_ready refl
