-- ===== src/Std/Url.antt =====
-- net/url: Values with one value for each key, and the percent escapes.
use ynab_go.Base.{
  ℕ, ◌+◌, ◌-◌, ◌/◌, ◌%◌, Bool, true, false, ◌&&◌, ◌||◌, Option, none, some, List, [], ◌∷◌, ◌++◌,
  map, Bytes, codes, bytes_eq, ◌==◌, ltb, leb, if◌then◌else◌,
}
use ynab_go.Std.Strings.{join}

-- url.Values; `[]` is also nil, which every reader takes alike.
abbrev pub Values : Type 0
Values = List (Bytes × Bytes)

-- Values.Set.
unfoldable pub set : Bytes → Bytes → Values → Values
set k v [] = (k, v) ∷ []
set k v ((j, w) ∷ q) = if bytes_eq j k then (k, v) ∷ q else (j, w) ∷ set k v q

-- Values.Get, with `none` for a key that is not there.
unfoldable pub get : Bytes → Values → Option Bytes
get k [] = none
get k ((j, w) ∷ q) = if bytes_eq j k then some w else get k q

hex_digit : ℕ → ℕ
hex_digit n = if ltb n 10 then b'0' + n else b'A' + (n - 10)

unfoldable pub percent : ℕ → Bytes
unfolding hex_digit
percent c = b'%' ∷ hex_digit (c / 16) ∷ hex_digit (c % 16) ∷ []

-- Letters, digits and - _ . ~
unfoldable pub is_unreserved : ℕ → Bool
is_unreserved c =
    (leb b'a' c && leb c b'z')
    || ((leb b'A' c && leb c b'Z')
        || ((leb b'0' c && leb c b'9') || (c == b'-' || (c == b'_' || (c == b'.' || c == b'~')))))

-- The reserved bytes that PathEscape leaves alone: $ & + = : @
unfoldable pub is_path_safe : ℕ → Bool
is_path_safe c = c == b'$' || (c == b'&' || (c == b'+' || (c == b'=' || (c == b':' || c == b'@'))))

unfoldable pub escape_path_byte : ℕ → Bytes
escape_path_byte c = if is_unreserved c || is_path_safe c then c ∷ [] else percent c

-- url.PathEscape.
unfoldable pub path_escape : Bytes → Bytes
unfolding escape_path_byte
path_escape [] = []
path_escape (c ∷ s) = escape_path_byte c ++ path_escape s

escape_query_byte : ℕ → Bytes
unfolding is_unreserved percent
escape_query_byte c = if is_unreserved c then c ∷ [] else if c == b' ' then b'+' ∷ [] else percent c

-- url.QueryEscape.
unfoldable pub query_escape : Bytes → Bytes
unfolding escape_query_byte
query_escape [] = []
query_escape (c ∷ s) = escape_query_byte c ++ query_escape s

less : Bytes → Bytes → Bool
less [] [] = false
less [] (b ∷ t) = true
less (a ∷ s) [] = false
less (a ∷ s) (b ∷ t) = ltb a b || (a == b && less s t)

insert_sorted : Bytes × Bytes → Values → Values
insert_sorted e [] = e ∷ []
insert_sorted e (d ∷ q) = if less d.0 e.0 then d ∷ insert_sorted e q else e ∷ d ∷ q

sort : Values → Values
sort [] = []
sort (e ∷ q) = insert_sorted e (sort q)

-- Values.Encode: by key, `k=v` joined by `&`.
unfoldable pub encode : Values → Bytes
unfolding sort insert_sorted less query_escape
encode q = join (codes "&") (map (λ e. query_escape e.0 ++ b'=' ∷ query_escape e.1) (sort q))
