-- ===== src/Services/Tests.antt =====
-- The theorems at concrete operations.
use ynab_go.Base.{ℕ, ◌/◌, ◌≡◌, ◌↔◌, refl, Option, none, [], ◌∷◌, arith, Bytes, codes}
use ynab_go.Base.Int.{pos, pos_part, ◌+ℤ◌}
use ynab_go.Errors.{WireError}
use ynab_go.Transport.Tests.{server}
use ynab_go.Client.Tests.{plain}
use ynab_go.Client.Call.{Envelope, payload_of, nil_body, Result, api_error}
use ynab_go.Optional.{unset}
use ynab_go.Date.{Day, AddDate}
use ynab_go.Services.{scheduled_get, prepare, perform}
use ynab_go.Services.Requests.{Endpoint, ready}
use ynab_go.Services.Ids.{perform-silent}
use ynab_go.Services.Scheduled.{
  ScheduledSpec, validate_scheduled, IsInWindow, validate_scheduled_iff, Listing,
}
use ynab_go.Transactions.{payee_name_max, memo_max}
use ynab_go.Transactions.Valid.{IsWithin}

abbrev pub today : Day
today = record { year = pos 2026; month = pos 3; day = pos 1 }

-- Enough of AddDate for the first of a month and a number of months that years divide.
abbrev pub add_date : AddDate
add_date years months days d = record d { year = d.year +ℤ years +ℤ pos (pos_part months / 12) }

abbrev wire : Bytes → Option WireError
wire b = none

abbrev envelope : Bytes → Envelope ℕ
envelope b = payload_of 1

abbrev nameless : Endpoint
nameless = record {
  method = codes "GET";
  segments = codes "scheduled_transactions" ∷ [] ∷ [];
  query = [];
  payload = nil_body;
}

nameless_ready : prepare today add_date (scheduled_get []) ≡ ready nameless
unfolding prepare
nameless_ready = refl

perform-silent_example :
    (perform wire envelope plain server (codes "home") today add_date (scheduled_get [])).trace ≡ []
perform-silent_example =
    perform-silent today add_date wire envelope plain server (codes "home") (scheduled_get [])
      nameless nameless_ready (ground arith) refl

abbrev rent : ScheduledSpec
rent = record { date = today; payee_name = unset; memo = unset }

validate_scheduled_iff_example : (validate_scheduled today add_date (codes "op") rent ≡ none) ↔ (
    IsInWindow today add_date today
    × (IsWithin payee_name_max rent.payee_name × IsWithin memo_max rent.memo))
validate_scheduled_iff_example = validate_scheduled_iff today add_date (codes "op") rent

abbrev missing : Result ℕ (Listing ℕ)
missing =
    api_error (record {
      status_code = 404;
      id = codes "404.2";
      name = [];
      detail = [];
      retry_after = pos 0;
    })
