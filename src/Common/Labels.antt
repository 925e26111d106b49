-- ===== src/Common/Labels.antt =====
-- crates/tailsvc-common/src/labels.rs. The map of labels is the list of its entries, in the order in
-- which they are met.
use tailroute.Base.{
  ℕ, Result, ok, err, ◌>>=◌, to_option, ok_or, not, ◌&&◌, Option, none, some, List, ◌++◌, leb,
  is_empty, find, and_then, if◌then◌else◌,
}
use tailroute.Base.Text.{Text, text, trim, eq_ignore_ascii_case}
use tailroute.Base.Text.Numbers.{parse_unsigned}
use tailroute.Common.Errors.{Error, label_parse}
use tailroute.Common.Hostname.{NormalizedHostname, parse_host_list}
use tailroute.Common.Backend.{Backend, Url, parse_backend_url}
use Prim.Native.Nat.{◌^◌, ◌-◌}

pub record ServiceLabels : Type 0 where
  pub hosts : List NormalizedHostname
  pub port : Option ℕ
  pub backend : Option Backend
  pub network : Option Text

abbrev pub prefix : Text
prefix = text "tailsvc."

-- The value of the first entry whose key is `tailsvc.name`, in any case.
unfoldable pub label : Text → List (Text × Text) → Option Text
label name labels =
    and_then (find (λ (k, _). eq_ignore_ascii_case k (prefix ++ name)) labels) (λ (_, v). some v)

unfoldable pub parse_port : Text → Result ℕ Error
parse_port s = do
  n ← ok_or (parse_unsigned (2 ^ 32 - 1) (trim s)) (label_parse (text "invalid port"))
  (if not (leb 1 n && leb n 65535) then err (label_parse (text "port out of range")) else ok n)

abbrev pub nonempty : Text → Option Text
nonempty s = if is_empty s then none else some s

module _ (domain_to_ascii : Text → Result Text Text) (url_parse : Text → Result Url Text) where
  unfoldable pub labels_from_map : List (Text × Text) → Option ServiceLabels
  labels_from_map labels = and_then (label (text "enable") labels) (λ enable.
      if not (eq_ignore_ascii_case enable (text "true"))
      then none
      else and_then (label (text "hosts") labels) (λ hosts_raw.
        and_then (to_option (parse_host_list domain_to_ascii hosts_raw)) (λ hosts. some (record {
          hosts = hosts;
          port = and_then (label (text "port") labels) (λ v. to_option (parse_port v));
          backend =
              and_then (label (text "backend") labels)
                (λ v. to_option (parse_backend_url url_parse v));
          network = and_then (label (text "network") labels) (λ v. nonempty (trim v));
        }))))

unfoldable pub validate_service_labels : ServiceLabels → Result Unit Error
validate_service_labels labels =
    if is_empty labels.hosts then err (label_parse (text "no hosts")) else ok tt
