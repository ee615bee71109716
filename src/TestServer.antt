-- ===== src/TestServer.antt =====
-- internal/ynabtest/server.go: the fake API that the endpoint tests run against. The files of
-- testdata and the decoder of a body's top-level keys (encoding/json) are parameters.

pub mod Routing
pub mod Injection
pub mod Names
mod Tests
use ynab_go.Base.{
  ℕ, Bool, true, false, not, ◌&&◌, Option, none, some, List, [], ◌∷◌, ◌++◌, Bytes, codes, bytes_eq,
  is_nil, ◌==◌, if◌then◌else◌, length,
}
use ynab_go.Std.Maps.{Map, lookup}
use ynab_go.Std.Url.{Values, get}
use ynab_go.Contract.{Row, contains}
use ynab_go.Contract.Pattern.{Piece, path_regexp, match_string}

-- `fixtureSpec`.
pub record FixtureSpec : Type 0 where
  pub fixture : Bytes
  pub delta_fixture : Bytes
  pub status : ℕ
  pub body_key : Bytes

-- The composite literals of `fixtures`.
abbrev plain : Bytes → FixtureSpec
plain f = record { fixture = f; delta_fixture = []; status = 0; body_key = [] }

abbrev with_delta : Bytes → Bytes → FixtureSpec
with_delta f d = record { fixture = f; delta_fixture = d; status = 0; body_key = [] }

abbrev created : Bytes → FixtureSpec
created f = record { fixture = f; delta_fixture = []; status = 201; body_key = [] }

abbrev keyed : Bytes → Bytes → FixtureSpec
keyed f key = record { fixture = f; delta_fixture = []; status = 201; body_key = key }

-- `fixtures`.
abbrev pub fixtures : Map (List FixtureSpec)
fixtures =
    (codes "getUser", plain (codes "user/get.json") ∷ [])
    ∷ (codes "getPlans", plain (codes "plans/list.json") ∷ [])
    ∷ (
      codes "getPlanById",
      with_delta (codes "plans/export.json") (codes "plans/export_delta.json") ∷ [],
    )
    ∷ (codes "getPlanSettingsById", plain (codes "plans/settings.json") ∷ [])
    ∷ (codes "getPlanMonths", plain (codes "months/list.json") ∷ [])
    ∷ (codes "getPlanMonth", plain (codes "months/get.json") ∷ [])
    ∷ (
      codes "getAccounts",
      with_delta (codes "accounts/list.json") (codes "accounts/list_delta.json") ∷ [],
    )
    ∷ (codes "createAccount", created (codes "accounts/create.json") ∷ [])
    ∷ (codes "getAccountById", plain (codes "accounts/get.json") ∷ [])
    ∷ (
      codes "getCategories",
      with_delta (codes "categories/list.json") (codes "categories/list_delta.json") ∷ [],
    )
    ∷ (codes "createCategory", created (codes "categories/create.json") ∷ [])
    ∷ (codes "getCategoryById", plain (codes "categories/get.json") ∷ [])
    ∷ (codes "updateCategory", plain (codes "categories/update.json") ∷ [])
    ∷ (codes "getMonthCategoryById", plain (codes "categories/get_for_month.json") ∷ [])
    ∷ (codes "updateMonthCategory", plain (codes "categories/assign.json") ∷ [])
    ∷ (codes "createCategoryGroup", created (codes "categories/group_create.json") ∷ [])
    ∷ (codes "updateCategoryGroup", plain (codes "categories/group_rename.json") ∷ [])
    ∷ (
      codes "getPayees",
      with_delta (codes "payees/list.json") (codes "payees/list_delta.json") ∷ [],
    )
    ∷ (codes "createPayee", created (codes "payees/create.json") ∷ [])
    ∷ (codes "getPayeeById", plain (codes "payees/get.json") ∷ [])
    ∷ (codes "updatePayee", plain (codes "payees/rename.json") ∷ [])
    ∷ (codes "getPayeeLocations", plain (codes "payee_locations/list.json") ∷ [])
    ∷ (codes "getPayeeLocationById", plain (codes "payee_locations/get.json") ∷ [])
    ∷ (codes "getPayeeLocationsByPayee", plain (codes "payee_locations/by_payee.json") ∷ [])
    ∷ (codes "getMoneyMovements", plain (codes "money_movements/list.json") ∷ [])
    ∷ (codes "getMoneyMovementsByMonth", plain (codes "money_movements/by_month.json") ∷ [])
    ∷ (codes "getMoneyMovementGroups", plain (codes "money_movements/groups.json") ∷ [])
    ∷ (
      codes "getMoneyMovementGroupsByMonth",
      plain (codes "money_movements/groups_by_month.json") ∷ [],
    )
    ∷ (codes "getTransactions", plain (codes "transactions/list.json") ∷ [])
    ∷ (
      codes "createTransaction",
      keyed (codes "transactions/create.json") (codes "transaction")
          ∷ keyed (codes "transactions/batch.json") (codes "transactions")
          ∷ [],
    )
    ∷ (codes "updateTransactions", plain (codes "transactions/batch.json") ∷ [])
    ∷ (codes "importTransactions", created (codes "transactions/import_ids.json") ∷ [])
    ∷ (codes "getTransactionById", plain (codes "transactions/get.json") ∷ [])
    ∷ (codes "updateTransaction", plain (codes "transactions/update.json") ∷ [])
    ∷ (codes "deleteTransaction", plain (codes "transactions/delete.json") ∷ [])
    ∷ (codes "getTransactionsByAccount", plain (codes "transactions/list.json") ∷ [])
    ∷ (codes "getTransactionsByCategory", plain (codes "transactions/hybrid.json") ∷ [])
    ∷ (codes "getTransactionsByPayee", plain (codes "transactions/hybrid.json") ∷ [])
    ∷ (codes "getTransactionsByMonth", plain (codes "transactions/list.json") ∷ [])
    ∷ (codes "getScheduledTransactions", plain (codes "scheduled/list.json") ∷ [])
    ∷ (codes "createScheduledTransaction", created (codes "scheduled/create.json") ∷ [])
    ∷ (codes "getScheduledTransactionById", plain (codes "scheduled/get.json") ∷ [])
    ∷ (codes "updateScheduledTransaction", plain (codes "scheduled/update.json") ∷ [])
    ∷ (codes "deleteScheduledTransaction", plain (codes "scheduled/delete.json") ∷ [])
    ∷ []

-- `route`.
pub record Route : Type 0 where
  pub method : Bytes
  pub pattern : List Piece
  pub spec : FixtureSpec

-- The inner loop of `routes`.
unfoldable pub row_routes : Row → List FixtureSpec → List Route
unfolding path_regexp
row_routes op [] = []
row_routes op (fs ∷ specs) =
    record { method = op.method; pattern = path_regexp op.path; spec = fs } ∷ row_routes op specs

-- The loop over the table, `none` where a row has no fixtures and the Go code panics.
unfoldable pub table_routes : Map (List FixtureSpec) → List Row → Option (List Route)
unfolding row_routes
table_routes served [] = some []
table_routes served (op ∷ rows) =
    let rest = table_routes served rows in
    (elim (lookup op.id served) [
      | none ↦ none
      | some specs ↦ elim rest [ none ↦ none | some rts ↦ some (row_routes op specs ++ rts) ]
    ])

-- `routes`.
unfoldable pub routes : Map (List FixtureSpec) → List Row → Option (List Route)
unfolding table_routes
routes served table = if length served == length table then table_routes served table else none

-- What the handler reads of a request; `path` is the decoded URL.Path.
pub record Request : Type 0 where
  pub method : Bytes
  pub path : Bytes
  pub query : Values
  pub body : Bytes

module _ (top_keys : Bytes → List Bytes) where
  -- The conditions of the loop of `resolve` on one route.
  unfoldable pub serves : Request → Route → Bool
  serves r rt =
      bytes_eq rt.method r.method
      && (match_string rt.pattern r.path
          && (if is_nil rt.spec.body_key
              then true
              else contains (top_keys r.body) rt.spec.body_key))

  -- `resolve`.
  unfoldable pub resolve : Request → List Route → Option Route
  unfolding serves
  resolve r [] = none
  resolve r (rt ∷ rts) = let rest = resolve r rts in if serves r rt then some rt else rest

-- The injected failure of a `Server`.
pub record Server : Type 0 where
  pub fail_status : ℕ
  pub fail_id : Bytes
  pub fail_name : Bytes

-- What `NewServer` leaves in those fields.
abbrev pub new_server : Server
new_server = record { fail_status = 0; fail_id = []; fail_name = [] }

-- `FailWith`.
unfoldable pub fail_with : ℕ → Bytes → Bytes → Server → Server
fail_with status id name s = record { fail_status = status; fail_id = id; fail_name = name }

-- An answer of the handler, its body by what it was made from.
pub data Answer : Type 0 where
  injected : ℕ → Bytes → Bytes → Answer
  no_route : Answer
  unreadable : Bytes → Answer
  serving : ℕ → Bytes → Answer

-- The status code that the handler writes.
abbrev pub answer_status : Answer → ℕ
answer_status (injected status id name) = status
answer_status no_route = 404
answer_status (unreadable f) = 500
answer_status (serving status raw) = status

-- The fixture of a route for a request: the delta one under a cursor.
unfoldable pub chosen_fixture : FixtureSpec → Values → Bytes
chosen_fixture fs q =
    if not (is_nil fs.delta_fixture)
    then elim (get (codes "last_knowledge_of_server") q) [
      | none ↦ fs.fixture
      | some v ↦ if is_nil v then fs.fixture else fs.delta_fixture
    ]
    else fs.fixture

pub data Step : Type 0 where
  inject : ℕ → Bytes → Bytes → Step
  arrive : Request → Step

module _ (top_keys : Bytes → List Bytes) (read_file : Bytes → Option Bytes) (rts : List Route) where
  -- `handle` after the injection.
  unfoldable pub serve : Request → Answer
  unfolding chosen_fixture resolve
  serve r = elim (resolve top_keys r rts) [
    | none ↦ no_route
    | some rt ↦
        let fixture = chosen_fixture rt.spec r.query in
        elim (read_file fixture) [
          | none ↦ unreadable fixture
          | some raw ↦ serving (if rt.spec.status == 0 then 200 else rt.spec.status) raw
        ]
  ]

  -- `handle`: the server's next state, and the answer.
  unfoldable pub handle : Request → Server → Server × Answer
  unfolding serve
  handle r s = (
    new_server,
    if not (s.fail_status == 0) then injected s.fail_status s.fail_id s.fail_name else serve r,
  )

  -- The server over calls of FailWith and requests, in the order in which they take its lock.
  unfoldable pub run : List Step → Server → Server × List Answer
  unfolding handle fail_with
  run [] s = (s, [])
  run (inject status id name ∷ steps) s = run steps (fail_with status id name s)
  run (arrive r ∷ steps) s =
      let (next, answer) = handle r s in
      let (last, answers) = run steps next in (last, answer ∷ answers)

-- The two fixtures of a route, in the order of `FixtureNames`.
abbrev pub fixtures_of : Route → List Bytes
fixtures_of rt = rt.spec.fixture ∷ rt.spec.delta_fixture ∷ []

-- The inner loop of `FixtureNames`; `names` also stands for its set `seen`.
unfoldable pub add_names : List Bytes → List Bytes → List Bytes
unfolding contains
add_names names [] = names
add_names names (f ∷ fs) =
    add_names (if not (is_nil f) && not (contains names f) then names ++ (f ∷ []) else names) fs

-- `FixtureNames`.
unfoldable pub fixture_names : List Bytes → List Route → List Bytes
unfolding add_names
fixture_names names [] = names
fixture_names names (rt ∷ rts) = fixture_names (add_names names (fixtures_of rt)) rts
