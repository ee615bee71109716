-- ===== src/Transport/Path.antt =====
-- internal/transport/transport.go: JoinPath, and that a segment cannot leave its place.
pub mod Received
use ynab_go.Base.{
  ℕ, ◌+◌, ◌-◌, ◌<◌, ◌≡◌, ◌≢◌, refl, ap, ◌∙◌, true, false, List, [], ◌∷◌, ◌++◌, map, leb, ◌*◌,
  Bool-cases, inl, inr, sym, arith, All, All-append, Bytes, codes, bytes_eq, bytes_eq_iff, ◌==◌,
  if◌then◌else◌, is_nil,
}
use ynab_go.Std.Strings.{join, Lacks}
use ynab_go.Std.Url.{path_escape, escape_path_byte, is_unreserved, is_path_safe, percent}

pub escape_segment : Bytes → Bytes
escape_segment s =
    if bytes_eq s (codes ".")
    then codes "%2E"
    else if bytes_eq s (codes "..")
    then codes "%2E%2E"
    else path_escape s

unfoldable pub join_path : List Bytes → Bytes
unfolding escape_segment
join_path segments = join (codes "/") (map escape_segment segments)

escape_path_byte-Lacks : (c : ℕ) → c < 256 → Lacks b'/' (escape_path_byte c)
unfolding escape_path_byte is_unreserved is_path_safe percent
escape_path_byte-Lacks c h = ground arith

-- What a server does to a path: it cuts at every slash and decodes each segment.
abbrev cons_head : ℕ → List Bytes → List Bytes
cons_head c [] = (c ∷ []) ∷ []
cons_head c (s ∷ r) = (c ∷ s) ∷ r

abbrev pub segments_of : Bytes → List Bytes
segments_of [] = [] ∷ []
segments_of (c ∷ s) = if c == b'/' then [] ∷ segments_of s else cons_head c (segments_of s)

abbrev hex_value : ℕ → ℕ
hex_value c = if leb c b'9' then c - b'0' else c - b'A' + 10

pub unescape : Bytes → Bytes
unescape [] = []
unescape (c ∷ []) = c ∷ []
unescape (c ∷ d ∷ []) = c ∷ d ∷ []
unescape (c ∷ a ∷ b ∷ s) = elim (c == b'%') [
  | true ↦ (hex_value a * 16 + hex_value b) ∷ unescape s
  | false ↦ c ∷ unescape (a ∷ b ∷ s)
]

abbrev pub IsText : Bytes → Type 0
IsText = All (λ c. c < 256)

pub unescape_plain : (c : ℕ) (s : Bytes) → c ≢ b'%' → unescape (c ∷ s) ≡ c ∷ unescape s
unfolding unescape
unescape_plain c [] h = refl
unescape_plain c (a ∷ []) h = refl
unescape_plain c (a ∷ b ∷ s) h = ground arith

unescape-percent : (c : ℕ) (s : Bytes) → c < 256 → unescape (percent c ++ s) ≡ c ∷ unescape s
unfolding unescape percent
unescape-percent c s h = ground arith

pub unescape-byte :
    (c : ℕ) (s : Bytes) → c < 256 → unescape (escape_path_byte c ++ s) ≡ c ∷ unescape s
unfolding escape_path_byte is_unreserved is_path_safe
unescape-byte c s h = ground (arith, unescape-percent c s h, unescape_plain c s)

unescape-path_escape : (s : Bytes) → IsText s → unescape (path_escape s) ≡ s
unfolding path_escape unescape
unescape-path_escape [] h = refl
unescape-path_escape (c ∷ s) h =
    unescape-byte c (path_escape s) h.0 ∙ ap (λ t. c ∷ t) (unescape-path_escape s h.1)

path_escape-Lacks : (s : Bytes) → IsText s → Lacks b'/' (path_escape s)
unfolding path_escape
path_escape-Lacks [] h = tt
path_escape-Lacks (c ∷ s) h =
    All-append (λ d. d ≢ b'/') (escape_path_byte c) (path_escape s) (escape_path_byte-Lacks c h.0)
      (path_escape-Lacks s h.1)

-- Only a text that is itself decoded to `t` could be escaped to it.
escaped_ne : (s t : Bytes) → IsText s → bytes_eq s t ≡ false → unescape t ≡ t → path_escape s ≢ t
escaped_ne s t h other fixed e =
    let same : s ≡ t = sym (unescape-path_escape s h) ∙ ap unescape e ∙ fixed in
    ground (arith, (bytes_eq_iff s t).1 same)

-- A segment is decoded to itself, holds no slash, and is no dot segment.
abbrev pub IsSafeFor : Bytes → Bytes → Type 0
IsSafeFor s t = (unescape t ≡ s) × Lacks b'/' t × (t ≢ codes ".") × (t ≢ codes "..")

pub escape_segment-IsSafe : (s : Bytes) → IsText s → IsSafeFor s (escape_segment s)
unfolding escape_segment
escape_segment-IsSafe s h = elim (Bool-cases (bytes_eq s (codes "."))) [
  | inl dot ↦
      rw dot (
        (unfold unescape in sym ((bytes_eq_iff _ _).0 dot)),
        omega arith,
        ground arith,
        ground arith,
      )
  | inr not_dot ↦ elim (Bool-cases (bytes_eq s (codes ".."))) [
    | inl dots ↦
        rw (not_dot, dots)
          (
            (unfold unescape in sym ((bytes_eq_iff _ _).0 dots)),
            omega arith,
            ground arith,
            ground arith,
          )
    | inr not_dots ↦
        rw (not_dot, not_dots)
          (
            unescape-path_escape s h,
            path_escape-Lacks s h,
            escaped_ne s (codes ".") h not_dot (unfold unescape in refl),
            escaped_ne s (codes "..") h not_dots (unfold unescape in refl),
          )
  ]
]

-- Only the empty segment is escaped to nothing.
pub escape-cons : (c : ℕ) (s : Bytes) → IsText (c ∷ s) → is_nil (escape_segment (c ∷ s)) ≡ false
unfolding unescape
escape-cons c s h =
    let safe = escape_segment-IsSafe (c ∷ s) h in full (escape_segment (c ∷ s)) safe.0
  where
    full : (t : Bytes) → unescape t ≡ c ∷ s → is_nil t ≡ false
    full [] e = ground arith
    full (d ∷ t) e = refl

pub escaped_nil : (s : Bytes) → IsText s → is_nil (escape_segment s) ≡ is_nil s
unfolding bytes_eq escape_segment path_escape
escaped_nil [] h = refl
escaped_nil (c ∷ s) h = escape-cons c s h

pub segments-append : (s t : Bytes) → Lacks b'/' s → segments_of (s ++ b'/' ∷ t) ≡ s ∷ segments_of t
segments-append [] t h = refl
segments-append (c ∷ s) t h = ground (arith, segments-append s t h.1)

segments_one : (s : Bytes) → Lacks b'/' s → segments_of s ≡ s ∷ []
segments_one [] h = refl
segments_one (c ∷ s) h = ground (arith, segments_one s h.1)

pub segments-join :
    (s : Bytes) (r : List Bytes)
    → All (Lacks b'/') (s ∷ r)
    → segments_of (join (codes "/") (s ∷ r)) ≡ s ∷ r
unfolding join
segments-join s [] h = segments_one s h.0
segments-join s (t ∷ r) h =
    segments-append s (join (codes "/") (t ∷ r)) h.0 ∙ ap (λ u. s ∷ u) (segments-join t r h.1)

pub escaped-Lacks :
    (segments : List Bytes) → All IsText segments → All (Lacks b'/') (map escape_segment segments)
escaped-Lacks [] h = tt
escaped-Lacks (s ∷ r) h = ((escape_segment-IsSafe s h.0).1, escaped-Lacks r h.1)

decoded :
    (segments : List Bytes)
    → All IsText segments
    → map unescape (map escape_segment segments) ≡ segments
decoded [] h = refl
decoded (s ∷ r) h = cc ((escape_segment-IsSafe s h.0).0, decoded r h.1)

-- No dot segment, which a server would resolve before it decodes.
abbrev pub IsPlainSegment : Bytes → Type 0
IsPlainSegment t = (t ≢ codes ".") × (t ≢ codes "..")

no_dots :
    (segments : List Bytes) → All IsText segments → All IsPlainSegment (map escape_segment segments)
no_dots [] h = tt
no_dots (s ∷ r) h = let safe = escape_segment-IsSafe s h.0 in ((safe.2, safe.3), no_dots r h.1)

-- Whatever bytes the segments hold, a server that cuts a joined path at its slashes and decodes each
-- piece sees exactly these segments, and no piece is a dot segment.
pub join_path_lem :
    (s : Bytes) (r : List Bytes)
    → All IsText (s ∷ r)
    → (map unescape (segments_of (join_path (s ∷ r))) ≡ s ∷ r)
      × All IsPlainSegment (segments_of (join_path (s ∷ r)))
unfolding join_path
join_path_lem s r h =
    rw (segments-join (escape_segment s) (map escape_segment r) (escaped-Lacks (s ∷ r) h))
      (decoded (s ∷ r) h, no_dots (s ∷ r) h)
