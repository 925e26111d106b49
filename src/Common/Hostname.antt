-- ===== src/Common/Hostname.antt =====
-- crates/tailsvc-common/src/hostname.rs. `idna::domain_to_ascii` is a parameter; its error is the
-- text that the error displays.
pub mod Grammar
pub mod Laws
pub mod Hosts
mod Tests
use tailroute.Base.{
  ℕ, Result, ok, err, ◌>>=◌, ◌>>◌, map_err, Bool, not, ◌&&◌, ◌||◌, List, [], ◌∷◌, ◌++◌, ltb, nat_eq,
  is_empty, if◌then◌else◌,
}
use tailroute.Base.Keys.{member, list_key, nat_key}
use tailroute.Base.Text.{
  Text, text, trim, contains, contains_text, to_ascii_lowercase, byte_len, split, starts_with_char,
  ends_with_char, is_ascii_alphanumeric,
}
use tailroute.Common.Errors.{Error, invalid_hostname}

-- A hostname that `normalize_hostname` has accepted.
pub record NormalizedHostname : Type 0 where
  pub as_str : Text

-- The loop over the characters of a label.
check_chars : Text → Result Unit Error
check_chars [] = ok tt
check_chars (c ∷ s) =
    if not (is_ascii_alphanumeric c) && not (nat_eq c b'-')
    then err (invalid_hostname (text "invalid char: " ++ c ∷ []))
    else check_chars s

check_label : Text → Result Unit Error
check_label label =
    if is_empty label
    then err (invalid_hostname (text "empty label"))
    else if ltb 63 (byte_len label)
    then err (invalid_hostname (text "label too long"))
    else if starts_with_char b'-' label || ends_with_char b'-' label
    then err (invalid_hostname (text "label hyphen placement"))
    else check_chars label

-- The loop over the labels.
check_labels : List Text → Result Unit Error
check_labels [] = ok tt
check_labels (label ∷ labels) = do check_label label; check_labels labels

pub validate_hostname_syntax : Text → Result Unit Error
validate_hostname_syntax host =
    if ltb 253 (byte_len host)
    then err (invalid_hostname (text "too long"))
    else if ends_with_char b'.' host
    then err (invalid_hostname (text "trailing dot not allowed"))
    else check_labels (split b'.' host)

module _ (domain_to_ascii : Text → Result Text Text) where
  pub normalize_hostname : Text → Result NormalizedHostname Error
  normalize_hostname input =
      let trimmed = trim input in
      if is_empty trimmed
      then err (invalid_hostname (text "empty"))
      else if contains b':' trimmed
      then err (invalid_hostname (text "port not allowed in hostname"))
      else if contains b'/' trimmed
      then err (invalid_hostname (text "path not allowed in hostname"))
      else if contains_text (text "://") trimmed
      then err (invalid_hostname (text "scheme not allowed in hostname"))
      else (do
        ascii ← map_err (λ e. invalid_hostname (text "idna: " ++ e)) (domain_to_ascii trimmed)
        let lower = to_ascii_lowercase ascii
        validate_hostname_syntax lower
        ok (record { as_str = lower }))

  -- The loop of `parse_host_list`; `seen` is the hash set.
  parse_parts :
      List Text → List NormalizedHostname → List Text → Result (List NormalizedHostname) Error
  parse_parts [] out seen = ok out
  parse_parts (part ∷ parts) out seen = do
    h ← normalize_hostname part
    let fresh = not (member h.as_str seen)
    parse_parts parts (if fresh then out ++ h ∷ [] else out)
        (if fresh then h.as_str ∷ seen else seen)

  pub parse_host_list : Text → Result (List NormalizedHostname) Error
  parse_host_list raw = do
    out ← parse_parts (split b',' raw) [] []
    (if is_empty out
        then err (invalid_hostname (text "at least one hostname required"))
        else ok out)
