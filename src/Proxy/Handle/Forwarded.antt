-- ===== src/Proxy/Handle/Forwarded.antt =====
-- The headers that `inject_forwarded_headers` of crates/tailsvc-proxy/src/proxy.rs leaves.
use tailroute.Base.{
  ◌≡◌, refl, ap, sym, ◌∙◌, inl, inr, true, false, not, Bool, ◌&&◌, Option, none, some, List, [],
  ◌∷◌, ◌++◌, and_then, is_empty, Bool-cases, arith, if◌then◌else◌,
}
use mathlib.Core.List.{append_assoc}
use tailroute.Base.Headers.{is_visible, to_str}
use tailroute.Base.Keys.{◌==◌, list_key, nat_key, list_eq, member, ==_refl}
use tailroute.Base.Text.{Text, text}
use tailroute.Base.Table.{get}
use tailroute.Proxy.Handle.Entries.{
  entries, entries-header_insert, entries-insert_some, overridden, get-entries, first,
}
use tailroute.Proxy.Handle.{
  HeaderMap, header_insert, insert_some, forwarded_for, inject_forwarded_headers,
}

abbrev for : Text
for = text "x-forwarded-for"

abbrev pub own_names : List Text
own_names =
    text "host" ∷ text "x-forwarded-proto" ∷ text "x-forwarded-host" ∷ text "x-forwarded-for" ∷ []

-- What stands in front of the peer's address: the client's list, if it is text and not empty.
abbrev pub passed : Option Text → Text
passed none = []
passed (some v) = if is_visible v && not (is_empty v) then v ++ text ", " else []

-- The entry with the original `Host`, or what the client sent where there is none.
abbrev pub sent_or : Text → Option Text → HeaderMap → HeaderMap
sent_or name none sent = sent
sent_or name (some v) sent = (name, v) ∷ []

forwarded_for-passed :
    (o : Option Text) (peer_ip : Text)
    → forwarded_for (and_then o to_str) peer_ip ≡ passed o ++ peer_ip
unfolding forwarded_for to_str
forwarded_for-passed none peer_ip = refl
forwarded_for-passed (some v) peer_ip = elim (Bool-cases (is_visible v)) [
  | inl seen ↦ rw seen (shown v)
  | inr hidden ↦ rw hidden refl
]
  where
    shown :
        (v : Text)
        → (if is_empty v then peer_ip else v ++ (text ", " ++ peer_ip))
          ≡ (if not (is_empty v) then v ++ text ", " else []) ++ peer_ip
    shown [] = refl
    shown (c ∷ v) = ap (λ t. c ∷ t) (sym (append_assoc v (text ", ") peer_ip))

all-append : (s t : Text) → is_visible s ≡ true → is_visible t ≡ true → is_visible (s ++ t) ≡ true
all-append [] t hs ht = ht
all-append (c ∷ s) t hs ht = ground (arith, all-append s t)

and_left : (a b : Bool) → (a && b) ≡ true → a ≡ true
and_left true b h = refl
and_left false b h = cc

passed-visible : (o : Option Text) → is_visible (passed o) ≡ true
unfolding text
passed-visible none = refl
passed-visible (some v) = elim (Bool-cases (is_visible v && not (is_empty v))) [
  | inl seen ↦ rw seen (all-append v (text ", ") (and_left _ _ seen) refl)
  | inr hidden ↦ rw hidden refl
]

module _ (headers : HeaderMap) (peer_ip : Text) (host : Option Text) where
  -- The headers before the last insertion.
  abbrev marked : HeaderMap
  marked = insert_some (text "x-forwarded-host") host (
      header_insert (text "x-forwarded-proto") (text "http")
        (insert_some (text "host") host headers))

  -- The entries of a name among them, from what the client sent under it.
  abbrev value : Option Text → Text → HeaderMap → HeaderMap
  value h j sent = overridden (text "x-forwarded-host") h j (
      if text "x-forwarded-proto" == j
      then (text "x-forwarded-proto", text "http") ∷ []
      else overridden (text "host") h j sent)

  entries-marked : (j : Text) → entries j marked ≡ value host j (entries j headers)
  entries-marked j =
      entries-insert_some (text "x-forwarded-host") host j _
      ∙ ap (overridden (text "x-forwarded-host") host j) (
          entries-header_insert (text "x-forwarded-proto") (text "http") j _
          ∙ ap
              (λ t.
                if text "x-forwarded-proto" == j
                then (text "x-forwarded-proto", text "http") ∷ []
                else t)
              (entries-insert_some (text "host") host j headers))

  value_own : (h : Option Text) (sent : HeaderMap) → value h for sent ≡ sent
  unfolding text list_eq
  value_own none sent = refl
  value_own (some v) sent = refl

  get-marked : get for marked ≡ get for headers
  get-marked =
      get-entries for marked
      ∙ ap first (entries-marked for ∙ value_own host (entries for headers))
      ∙ sym (get-entries for headers)

  -- The value of `x-forwarded-for` that is set.
  abbrev list : Text
  list = passed (get for headers) ++ peer_ip

  entries-inject :
      is_visible peer_ip ≡ true
      → (j : Text)
      → entries j (inject_forwarded_headers headers peer_ip host)
        ≡ (if for == j then (for, list) ∷ [] else value host j (entries j headers))
  unfolding inject_forwarded_headers to_str
  entries-inject seen j =
      let whole : forwarded_for (and_then (get for marked) to_str) peer_ip ≡ list =
        ap (λ o. forwarded_for (and_then o to_str) peer_ip) get-marked
        ∙ forwarded_for-passed (get for headers) peer_ip in
      let is_text : is_visible list ≡ true =
        all-append (passed (get for headers)) peer_ip (passed-visible (get for headers)) seen in
      rw (whole, is_text)
        (entries-header_insert for list j marked
          ∙ ap (λ t. if for == j then (for, list) ∷ [] else t) (entries-marked j))

  value_host :
      (h : Option Text) (sent : HeaderMap)
      → (if for == text "host" then (for, list) ∷ [] else value h (text "host") sent)
        ≡ sent_or (text "host") h sent
  unfolding text list_eq
  value_host none sent = refl
  value_host (some v) sent = refl

  value_proto :
      (h : Option Text) (sent : HeaderMap)
      → (if for == text "x-forwarded-proto"
          then (for, list) ∷ []
          else value h (text "x-forwarded-proto") sent)
        ≡ (text "x-forwarded-proto", text "http") ∷ []
  unfolding text list_eq
  value_proto none sent = refl
  value_proto (some v) sent = refl

  value_xhost :
      (h : Option Text) (sent : HeaderMap)
      → (if for == text "x-forwarded-host"
          then (for, list) ∷ []
          else value h (text "x-forwarded-host") sent)
        ≡ sent_or (text "x-forwarded-host") h sent
  unfolding text list_eq
  value_xhost none sent = refl
  value_xhost (some v) sent = refl

  value_other :
      (h : Option Text) (j : Text) (sent : HeaderMap)
      → member j own_names ≡ false
      → (if for == j then (for, list) ∷ [] else value h j sent) ≡ sent
  unfolding member
  value_other none j sent other = ground arith
  value_other (some v) j sent other = ground arith

  -- The entries of the headers that a backend receives, if the peer's address is visible text: one
  -- `host` and one `x-forwarded-host` with the original `Host` where the request has one, and as the
  -- client sent them where not; one `x-forwarded-proto` with `http`; one `x-forwarded-for` with the
  -- peer's address behind the client's list, which is dropped if it is empty or no text; and those of
  -- each other name as the client sent them.
  pub forwarded_headers :
      (j : Text)
      → is_visible peer_ip ≡ true
      → member j own_names ≡ false
      → (entries (text "host") (inject_forwarded_headers headers peer_ip host)
          ≡ sent_or (text "host") host (entries (text "host") headers))
        × (entries (text "x-forwarded-proto") (inject_forwarded_headers headers peer_ip host)
            ≡ (text "x-forwarded-proto", text "http") ∷ [])
        × (entries (text "x-forwarded-host") (inject_forwarded_headers headers peer_ip host)
            ≡ sent_or (text "x-forwarded-host") host (entries (text "x-forwarded-host") headers))
        × (entries (text "x-forwarded-for") (inject_forwarded_headers headers peer_ip host)
            ≡ (text "x-forwarded-for", passed (get (text "x-forwarded-for") headers) ++ peer_ip)
              ∷ [])
        × (entries j (inject_forwarded_headers headers peer_ip host) ≡ entries j headers)
  forwarded_headers j seen other = (
    entries-inject seen (text "host") ∙ value_host host _,
    entries-inject seen (text "x-forwarded-proto") ∙ value_proto host _,
    entries-inject seen (text "x-forwarded-host") ∙ value_xhost host _,
    entries-inject seen for ∙ rw (==_refl for) refl,
    entries-inject seen j ∙ value_other host j _ other,
  )
