-- ===== src/Auth/Paths.antt =====
-- The paths that a browser may be sent to after it signs in: `safeReturnPath` of
-- api/internal/auth/service.go. The parser of net/url is a parameter. strings.ToLower is written for
-- the letters of ASCII: no other letter has the lower_ascii case 'f', 'c', '2', '5' or '%'.
use plaiflowapp.Base.{
  ◌+◌, Bool, true, false, not, ◌&&◌, ◌||◌, List, [], ◌∷◌, Option, none, some, String, str_eq, leb,
  ◌==◌, if◌then◌else◌, Text, codes, any,
}

pub record Url : Type 0 where
  pub is_abs : Bool
  pub host : String
  pub has_user : Bool
  pub fragment : String
  pub path : String

-- `strings.HasPrefix`
abbrev pub has_prefix : Text → Text → Bool
has_prefix s [] = true
has_prefix [] (c ∷ p) = false
has_prefix (d ∷ s) (c ∷ p) = (d == c) && has_prefix s p

-- `strings.Contains`
abbrev pub contains : Text → Text → Bool
contains [] p = has_prefix [] p
contains (c ∷ s) p = has_prefix (c ∷ s) p || contains s p

abbrev pub lower_ascii : Text → Text
lower_ascii [] = []
lower_ascii (c ∷ s) = (if leb b'A' c && leb c b'Z' then c + 32 else c) ∷ lower_ascii s

abbrev pub allowed_prefixes : List String
allowed_prefixes = "/setup" ∷ "/organizations" ∷ "/account" ∷ "/invite/" ∷ "/o/" ∷ []

-- The first test: of the text itself.
unfoldable pub is_local : Text → Bool
is_local v =
    has_prefix v (codes "/")
    && not (has_prefix v (codes "//"))
    && not (contains v (codes "\\"))
    && not (contains (lower_ascii v) (codes "%2f"))
    && not (contains (lower_ascii v) (codes "%5c"))

-- The second test: of what the parser makes of it.
unfoldable pub is_plain : Option Url → Bool
is_plain none = false
is_plain (some u) =
    not u.is_abs
    && str_eq u.host ""
    && not u.has_user
    && str_eq u.fragment ""
    && not (contains (codes u.path) (codes ".."))

-- `none` is a refusal.
unfoldable pub safe_return_path : (String → Option Url) → String → Option String
safe_return_path parse value =
    if str_eq value ""
    then some "/organizations"
    else if not (is_local (codes value))
    then none
    else if not (is_plain (parse value))
    then none
    else if any (λ p. str_eq value p || has_prefix (codes value) (codes p)) allowed_prefixes
    then some value
    else none
