-- ===== src/Proxy/Handle/Entries.antt =====
-- The entries that a header map of crates/tailsvc-proxy/src/proxy.rs has of one name.
use tailroute.Base.{
  ◌≡◌, refl, ◌∙◌, inl, inr, not, Option, none, some, [], ◌∷◌, ◌++◌, retain, Bool-cases, arith,
  if◌then◌else◌,
}
use mathlib.Core.List.{append-nil}
use tailroute.Base.Keys.{◌==◌, list_key, nat_key, list_eq_iff}
use tailroute.Base.Text.{Text}
use tailroute.Base.Table.{get}
use tailroute.Proxy.Handle.{HeaderMap, header_insert, insert_some}

-- All entries of a name, in order.
abbrev pub entries : Text → HeaderMap → HeaderMap
entries j headers = retain (λ (n, _). n == j) headers

entries-append :
    (j : Text) (headers rest : HeaderMap)
    → entries j (headers ++ rest) ≡ entries j headers ++ entries j rest
entries-append j [] rest = refl
entries-append j ((n, v) ∷ headers) rest = ground (arith, entries-append j headers rest)

entries-retain :
    (name j : Text) (headers : HeaderMap)
    → entries j (retain (λ (n, _). not (n == name)) headers)
      ≡ (if name == j then [] else entries j headers)
entries-retain name j [] = ground arith
entries-retain name j ((n, v) ∷ headers) =
    ground (
      arith,
      entries-retain name j headers,
      list_eq_iff n name,
      list_eq_iff n j,
      list_eq_iff name j,
    )

pub entries-header_insert :
    (name value j : Text) (headers : HeaderMap)
    → entries j (header_insert name value headers)
      ≡ (if name == j then (name, value) ∷ [] else entries j headers)
unfolding header_insert
entries-header_insert name value j headers =
    entries-append j (retain (λ (n, _). not (n == name)) headers) ((name, value) ∷ [])
    ∙ rw (entries-retain name j headers) (elim (Bool-cases (name == j)) [
      | inl same ↦ rw same refl
      | inr other ↦ rw other (append-nil (entries j headers))
    ])

-- The entries of a name after an optional insertion.
abbrev pub overridden : Text → Option Text → Text → HeaderMap → HeaderMap
overridden name none j before = before
overridden name (some v) j before = if name == j then (name, v) ∷ [] else before

pub entries-insert_some :
    (name : Text) (value : Option Text) (j : Text) (headers : HeaderMap)
    → entries j (insert_some name value headers) ≡ overridden name value j (entries j headers)
entries-insert_some name none j headers = refl
entries-insert_some name (some v) j headers = entries-header_insert name v j headers

pub first : HeaderMap → Option Text
first [] = none
first ((n, v) ∷ headers) = some v

pub get-entries : (j : Text) (headers : HeaderMap) → get j headers ≡ first (entries j headers)
unfolding get first
get-entries j [] = refl
get-entries j ((n, v) ∷ headers) = ground (arith, get-entries j headers)
