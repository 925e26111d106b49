-- ===== src/Common/Errors.antt =====
-- crates/tailsvc-common/src/error.rs
use tailroute.Base.{◌++◌}
use tailroute.Base.Text.{Text, text}

pub data Error : Type 0 where
  invalid_hostname invalid_backend label_parse ambiguous_backend : Text → Error
  auth : Error
  conflict other : Text → Error

-- `Display`
unfoldable pub display : Error → Text
display (invalid_hostname e) = text "invalid hostname: " ++ e
display (invalid_backend e) = text "invalid backend URL: " ++ e
display (label_parse e) = text "label parse error: " ++ e
display (ambiguous_backend e) = text "ambiguous backend resolution: " ++ e
display auth = text "authentication failed"
display (conflict e) = text "conflict: " ++ e
display (other e) = e
