-- ===== src/Dns/Cache.antt =====
-- The response cache of crates/tailsvc-dns/src/server.rs.
use tailroute.Base.{ℕ, ◌+◌, Option, none, some, List, leb, nat_eq, if◌then◌else◌}
use tailroute.Base.Keys.{list_key, nat_key, pair_key}
use tailroute.Base.Text.{Text, to_ascii_lowercase}
use tailroute.Base.Table.{Table, get, insert, remove}

pub data ResponseCode : Type 0 where
  no_error serv_fail nx_domain refused : ResponseCode

pub data RData : Type 0 where
  address : ℕ → RData
  other : Text → RData

-- A resource record.
pub record Record : Type 0 where
  pub name : Text
  pub ttl : ℕ
  pub rdata : RData

pub record CacheEntry : Type 0 where
  pub records : List Record
  pub rcode : ResponseCode
  pub expires : ℕ

abbrev pub ResponseCache : Type 0
ResponseCache = Table (Text × ℕ) CacheEntry

-- An entry that has run out is removed.
abbrev pub unless_expired :
    Text × ℕ → ℕ → ResponseCache → Option CacheEntry → Option CacheEntry × ResponseCache
unless_expired key now cache none = (none, cache)
unless_expired key now cache (some ent) =
    if leb ent.expires now then (none, remove key cache) else (some ent, cache)

unfoldable pub cache_get : Text → ℕ → ℕ → ResponseCache → Option CacheEntry × ResponseCache
cache_get name qtype now cache =
    let key : Text × ℕ = (to_ascii_lowercase name, qtype) in
    unless_expired key now cache (get key cache)

unfoldable pub cache_put :
    Text → ℕ → List Record → ResponseCode → ℕ → ℕ → ResponseCache → ResponseCache
cache_put name qtype records rcode ttl now cache =
    if nat_eq ttl 0
    then cache
    else insert (to_ascii_lowercase name, qtype)
        (record { records = records; rcode = rcode; expires = now + ttl }) cache
