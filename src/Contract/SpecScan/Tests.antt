-- ===== src/Contract/SpecScan/Tests.antt =====
-- Two operations of the specification.
use ynab_go.Base.{◌≡◌, true, false, some, [], ◌∷◌, map, All, arith, codes}
use ynab_go.Contract.SpecScan.{scan_spec}
use ynab_go.Contract.SpecScan.Layout.{Listed, IsListed, spec_lines, to_op}
use ynab_go.Contract.SpecScan.RoundTrip.{ops_of, scan_spec-spec_lines}

abbrev plans : Listed
plans = record {
  path = codes "plans";
  verb = codes "get";
  id = codes "getPlans";
  params = codes "include_accounts" ∷ [];
  has_body = false;
}

abbrev create : Listed
create = record {
  path = codes "plans/{plan_id}/payees";
  verb = codes "post";
  id = codes "createPayee";
  params = [];
  has_body = true;
}

both-IsListed : All IsListed (plans ∷ create ∷ [])
both-IsListed = ground arith

scan_spec-spec_lines_example :
    ops_of (scan_spec (spec_lines (plans ∷ create ∷ []))) ≡ some (map to_op (plans ∷ create ∷ []))
scan_spec-spec_lines_example = scan_spec-spec_lines plans (create ∷ []) both-IsListed
