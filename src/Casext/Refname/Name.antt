-- ===== src/Casext/Refname/Name.antt =====
-- oci/casext/refname.go: refnameRegex and IsValidReferenceName.
use umoci.Base.{ℕ, Bool, ◌||◌, ◌&&◌, String, codes, leb, ◌==◌}
use umoci.Casext.Refname.Regex.{Regex, one_of, either, both, star, plus, is_match}

-- [A-Za-z0-9]
abbrev pub is_alphanum : ℕ → Bool
is_alphanum c =
    (leb b'A' c && leb c b'Z') || ((leb b'a' c && leb c b'z') || (leb b'0' c && leb c b'9'))

-- [-._:@+]
abbrev pub is_separator : ℕ → Bool
is_separator c = c == b'-' || (c == b'.' || (c == b'_' || (c == b':' || (c == b'@' || c == b'+'))))

abbrev pub char : ℕ → Regex
char a = one_of (λ c. c == a)

-- [A-Za-z0-9]+(([-._:@+]|--)[A-Za-z0-9]+)*
abbrev pub component_regex : Regex
component_regex = both (plus (one_of is_alphanum)) (
    star (
      both (either (one_of is_separator) (both (char b'-') (char b'-')))
        (plus (one_of is_alphanum))))

-- refnameRegex
abbrev pub refname_regex : Regex
refname_regex = both component_regex (star (both (char b'/') component_regex))

-- IsValidReferenceName; regexp.MatchString of the anchored expression is the matcher of Regex.
unfoldable pub is_valid_reference_name : String → Bool
unfolding is_match
is_valid_reference_name refname = is_match refname_regex (codes refname)
