-- ===== src/Transport/Path/Received.antt =====
-- internal/transport/transport.go: JoinPath against URL.Path, which a Go server decodes before it
-- looks at the slashes.
use ynab_go.Base.{
  ◌≡◌, refl, ap, ◌∙◌, Bool-cases, inl, inr, List, [], ◌∷◌, ◌++◌, arith, All, Bytes, codes, bytes_eq,
  bytes_eq_iff,
}
use ynab_go.Std.Strings.{join, Lacks}
use ynab_go.Std.Url.{path_escape, escape_path_byte}
use ynab_go.Transport.Path.{
  escape_segment, escape_segment-IsSafe, join_path, IsText, unescape, unescape-byte, unescape_plain,
  segments_of, segments-join,
}
use ynab_go.Base.{append_assoc}

unescape-escaped : (s t : Bytes) → IsText s → unescape (path_escape s ++ t) ≡ s ++ unescape t
unfolding path_escape
unescape-escaped [] t h = refl
unescape-escaped (c ∷ s) t h =
    ap unescape (append_assoc (escape_path_byte c) (path_escape s) t)
    ∙ unescape-byte c (path_escape s ++ t) h.0
    ∙ ap (λ u. c ∷ u) (unescape-escaped s t h.1)

unescape-segment : (s t : Bytes) → IsText s → unescape (escape_segment s ++ t) ≡ s ++ unescape t
unfolding escape_segment unescape
unescape-segment s t h = elim (Bool-cases (bytes_eq s (codes "."))) [
  | inl dot ↦ rw (dot, (bytes_eq_iff s (codes ".")).0 dot) refl
  | inr other ↦ elim (Bool-cases (bytes_eq s (codes ".."))) [
    | inl dots ↦ rw (other, dots, (bytes_eq_iff s (codes "..")).0 dots) refl
    | inr plain ↦ rw (other, plain) (unescape-escaped s t h)
  ]
]

pub unescape-join_path :
    (s : Bytes) (r : List Bytes)
    → All IsText (s ∷ r)
    → unescape (join_path (s ∷ r)) ≡ join (codes "/") (s ∷ r)
unfolding join_path join
unescape-join_path s [] h = (escape_segment-IsSafe s h.0).0
unescape-join_path s (t ∷ r) h =
    unescape-segment s (b'/' ∷ join_path (t ∷ r)) h.0
    ∙ ap (λ u. s ++ u)
        (unescape_plain b'/' (join_path (t ∷ r)) (ground arith)
          ∙ ap (λ u. b'/' ∷ u) (unescape-join_path t r h.1))

-- The segments that a server finds in the decoded path, where none of them holds a slash.
pub segments-received :
    (s : Bytes) (r : List Bytes)
    → All IsText (s ∷ r)
    → All (Lacks b'/') (s ∷ r)
    → segments_of (unescape (b'/' ∷ join_path (s ∷ r))) ≡ [] ∷ s ∷ r
segments-received s r text plain =
    ap segments_of (
      unescape_plain b'/' (join_path (s ∷ r)) (ground arith)
      ∙ ap (λ u. b'/' ∷ u) (unescape-join_path s r text))
    ∙ ap (λ u. [] ∷ u) (segments-join s r plain)
