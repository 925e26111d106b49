-- ===== src/Docker.antt =====
-- The crate `tailsvc-docker` (crates/tailsvc-docker/src): which backend a discovered container has.
-- The Docker client is not modelled; what it reports of a container is a record.
pub mod Resolve
pub mod Inspect
pub mod Candidate
use tailroute.Base.{ℕ, Option, List}
use tailroute.Base.Text.{Text}
use tailroute.Base.Table.{Table}
use tailroute.Common.Labels.{ServiceLabels}

pub record PublishedPort : Type 0 where
  pub container_port : ℕ
  pub host_ip : Text
  pub host_port : ℕ

pub record DiscoveredService : Type 0 where
  pub container_id : Text
  pub container_name : Text
  pub labels : ServiceLabels
  pub network_mode : Option Text
  pub published_ports : List PublishedPort
  pub networks : Table Text Text
  pub exposed_ports : List ℕ
