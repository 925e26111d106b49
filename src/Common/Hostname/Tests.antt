-- ===== src/Common/Hostname/Tests.antt =====
-- The theorems on hostnames at small texts, with an encoder that leaves a text as it is.
use tailroute.Base.{◌≡◌, ◌↔◌, refl, Result, ok, true, List, [], ◌∷◌, Any}
use tailroute.Base.Keys.{list_key, nat_key, list_eq, member, Distinct}
use tailroute.Base.Text.{
  Text, trim, split, contains, contains_text, to_ascii_lowercase, lower_char, byte_len, starts_with,
  starts_with_char, ends_with_char, trim_start_by, trim_end_by, is_whitespace, text,
}
use tailroute.Common.Hostname.{
  NormalizedHostname, check_chars, check_label, check_labels, validate_hostname_syntax,
  normalize_hostname, parse_parts, parse_host_list,
}
use tailroute.Common.Hostname.Grammar.{IsHostname, validate_hostname_syntax_iff}
use tailroute.Common.Hostname.Laws.{Accepts, normalize_hostname_iff, normalize_hostname_idem}
use tailroute.Common.Hostname.Hosts.{names, NormalizesTo, parse_host_list-names}

abbrev encode : Text → Result Text Text
encode t = ok t

abbrev host : NormalizedHostname
host = record { as_str = b'a' ∷ b'.' ∷ b'b' ∷ [] }

-- ` A.b`
abbrev spaced : Text
spaced = b' ' ∷ b'A' ∷ b'.' ∷ b'b' ∷ []

validate_hostname_syntax_example :
    (validate_hostname_syntax host.as_str ≡ ok tt) ↔ IsHostname host.as_str
validate_hostname_syntax_example = validate_hostname_syntax_iff host.as_str

normalize_hostname_example :
    (normalize_hostname encode spaced ≡ ok host) ↔ Accepts encode spaced host.as_str
normalize_hostname_example = normalize_hostname_iff encode spaced host

normalized : normalize_hostname encode spaced ≡ ok host
unfolding normalize_hostname validate_hostname_syntax check_chars check_label check_labels trim
    trim_start_by trim_end_by is_whitespace contains contains_text starts_with to_ascii_lowercase
    lower_char byte_len split starts_with_char ends_with_char list_eq text
normalized = refl

encoded_again :
    (t ascii : Text)
    → encode t ≡ ok ascii
    → encode (to_ascii_lowercase ascii) ≡ ok (to_ascii_lowercase ascii)
encoded_again t ascii e = refl

normalize_hostname_idem_example : normalize_hostname encode host.as_str ≡ ok host
normalize_hostname_idem_example =
    normalize_hostname_idem encode encoded_again spaced host normalized

-- `a,A`
abbrev hosts_text : Text
hosts_text = b'a' ∷ b',' ∷ b'A' ∷ []

abbrev hosts : List NormalizedHostname
hosts = record { as_str = b'a' ∷ [] } ∷ []

parsed : parse_host_list encode hosts_text ≡ ok hosts
unfolding parse_host_list parse_parts normalize_hostname validate_hostname_syntax check_chars
    check_label check_labels trim trim_start_by trim_end_by is_whitespace contains contains_text
    starts_with to_ascii_lowercase lower_char byte_len split starts_with_char ends_with_char list_eq
    text member
parsed = refl

parse_host_list-names_example :
    Distinct (names hosts)
    × ((t : Text)
        → (member t (names hosts) ≡ true) ↔ Any (NormalizesTo encode t) (split b',' hosts_text))
parse_host_list-names_example = parse_host_list-names encode hosts_text hosts parsed
