-- ===== src/Contract/Tests.antt =====
-- The theorem at a small table.
use ynab_go.Base.{◌≡◌, ◌↔◌, false, List, [], ◌∷◌, map, All, codes}
use ynab_go.Contract.{Row, SpecOp, row_id, op_id, diff_spec}
use ynab_go.Contract.Index.{IsDistinct}
use ynab_go.Contract.Soundness.{IsSpecified, IsImplemented, diff_spec_iff}

abbrev table : List Row
table =
    record {
      id = codes "getUser";
      method = codes "GET";
      path = codes "/user";
      query_params = [];
      go_methods = codes "Client.User" ∷ [];
    }
    ∷ []

abbrev spec : List SpecOp
spec =
    record {
      id = codes "getUser";
      method = codes "GET";
      path = codes "/user";
      query_params = codes "page" ∷ [];
      has_body = false;
    }
    ∷ []

diff_spec_iff_example : (diff_spec table spec ≡ []) ↔ (
    IsDistinct (map row_id table)
    × (IsDistinct (map op_id spec)
        × (All (IsSpecified spec) table × All (IsImplemented table) spec)))
diff_spec_iff_example = diff_spec_iff table spec
