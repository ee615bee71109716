-- ===== src/Contract/Pattern.antt =====
-- internal/contract/table.go: `PathRegexp`. The expression is anchored, so it matches a path exactly
-- if the path has the template's number of segments, each is not empty where the template has a
-- parameter, and is the template's text elsewhere.
use ynab_go.Base.{
  Bool, true, false, not, ◌&&◌, List, [], ◌∷◌, map, Bytes, codes, bytes_eq, is_nil, if◌then◌else◌,
}
use ynab_go.Std.Strings.{has_prefix, has_suffix}
use ynab_go.Transport.Path.{segments_of}

-- `[^/]+`, or a quoted text.
pub data Piece : Type 0 where
  any_segment : Piece
  literal : Bytes → Piece

unfoldable pub piece : Bytes → Piece
unfolding has_prefix has_suffix
piece seg = if has_prefix (codes "{") seg && has_suffix b'}' seg then any_segment else literal seg

-- `PathRegexp`.
unfoldable pub path_regexp : Bytes → List Piece
unfolding piece
path_regexp template = map piece (segments_of template)

unfoldable pub match_piece : Piece → Bytes → Bool
match_piece any_segment s = not (is_nil s)
match_piece (literal t) s = bytes_eq t s

unfoldable pub match_pieces : List Piece → List Bytes → Bool
unfolding match_piece
match_pieces [] [] = true
match_pieces [] (s ∷ r) = false
match_pieces (p ∷ ps) [] = false
match_pieces (p ∷ ps) (s ∷ r) = match_piece p s && match_pieces ps r

-- Regexp.MatchString.
unfoldable pub match_string : List Piece → Bytes → Bool
unfolding match_pieces
match_string ps path = match_pieces ps (segments_of path)
