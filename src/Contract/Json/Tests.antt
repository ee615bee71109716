-- ===== src/Contract/Json/Tests.antt =====
-- Two spellings of one document.
use ynab_go.Base.{◌≡◌, ◌↔◌, true, [], codes, arith}
use ynab_go.Contract.Json.{
  Json, null, number, object, no_members, member, diff_documents, deep_equal,
}
use ynab_go.Contract.Json.Under.{IsWell}
use ynab_go.Contract.Json.Same.{diff_documents_iff}

abbrev first : Json
first =
    object (member (codes "amount") (number (codes "1500")) (member (codes "memo") null no_members))

abbrev second : Json
second =
    object (member (codes "memo") null (member (codes "amount") (number (codes "1500")) no_members))

first-IsWell : IsWell first
unfolding IsWell
first-IsWell = ground arith

second-IsWell : IsWell second
unfolding IsWell
second-IsWell = ground arith

diff_documents_iff_example : (diff_documents first second ≡ []) ↔ (deep_equal first second ≡ true)
diff_documents_iff_example = diff_documents_iff first second first-IsWell second-IsWell
