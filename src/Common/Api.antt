-- ===== src/Common/Api.antt =====
-- crates/tailsvc-common/src/api.rs: the messages between the agents, the controller and the admin.
-- Instants are numbers of nanoseconds, and `Vec` is a list.
use tailroute.Base.{ℕ, Bool, Option, List}
use tailroute.Base.Text.{Text}

pub record EnrollRequest : Type 0 where
  pub display_name : Text
  pub tailscale_ipv4 : Text
  pub docker_engine_id : Text

pub record EnrollResponse : Type 0 where
  pub agent_id : Text
  pub agent_token : Text
  pub heartbeat_interval_seconds : ℕ
  pub lease_ttl_seconds : ℕ

pub record HeartbeatRouteRef : Type 0 where
  pub hostname : Text
  pub backend_fingerprint : Text

pub record HeartbeatRequest : Type 0 where
  pub tailscale_ipv4 : Text
  pub routes : List HeartbeatRouteRef

pub record RouteEntry : Type 0 where
  pub hostname : Text
  pub backend : Text
  pub container_id : Option Text
  pub container_name : Option Text

pub record PutRoutesRequest : Type 0 where
  pub routes : List RouteEntry

pub record RouteConflict : Type 0 where
  pub hostname : Text
  pub owner_agent_id : Text
  pub lease_expires_at : ℕ

pub record PutRoutesResponse : Type 0 where
  pub accepted : List Text
  pub conflicts : List RouteConflict

pub record AdminAgentView : Type 0 where
  pub agent_id : Text
  pub display_name : Text
  pub tailscale_ipv4 : Text
  pub docker_engine_id : Text
  pub created_at : ℕ
  pub last_seen_at : Option ℕ
  pub status : Text

pub record AdminRouteView : Type 0 where
  pub hostname : Text
  pub agent_id : Text
  pub tailscale_ipv4 : Text
  pub backend : Text
  pub container_id : Option Text
  pub container_name : Option Text
  pub lease_expires_at : ℕ

-- A row of the dashboard: the lease's state, and what the probe of the route found.
pub record AdminRouteHealthView : Type 0 where
  pub hostname : Text
  pub agent_id : Text
  pub tailscale_ipv4 : Text
  pub backend : Text
  pub container_id : Option Text
  pub container_name : Option Text
  pub lease_expires_at : ℕ
  pub registration : Text
  pub http_probe : Text
  pub probe_ms : Option ℕ
  pub probe_detail : Option Text

pub record AdminDashboard : Type 0 where
  pub routes : List AdminRouteHealthView
  pub agents : List AdminAgentView

pub record CreateEnrollmentTokenResponse : Type 0 where
  pub token : Text
  pub expires_at : Option ℕ

pub record DiscoveredContainerDto : Type 0 where
  pub identity_key : Text
  pub container_id : Text
  pub container_name : Text
  pub image : Text
  pub network_mode : Option Text
  pub suggested_backend : Option Text
  pub published_ports : List ℕ
  pub exposed_ports : List ℕ
  pub compose_project : Option Text
  pub compose_service : Option Text
  pub has_tailsvc_labels : Bool

pub record DiscoveryReportRequest : Type 0 where
  pub services : List DiscoveredContainerDto

pub record DesiredEnabledService : Type 0 where
  pub id : Text
  pub identity_key : Text
  pub hostnames : List Text
  pub backend : Text
  pub container_name : Option Text

pub record DesiredServicesResponse : Type 0 where
  pub services : List DesiredEnabledService

pub record AdminDiscoveryItem : Type 0 where
  pub agent_id : Text
  pub agent_name : Text
  pub tailscale_ipv4 : Text
  pub identity_key : Text
  pub container_id : Text
  pub container_name : Text
  pub image : Text
  pub suggested_backend : Option Text
  pub published_ports : List ℕ
  pub exposed_ports : List ℕ
  pub has_tailsvc_labels : Bool
  pub enabled : Bool
  pub enabled_id : Option Text
  pub hostnames : List Text
  pub backend : Option Text
  pub discovery_updated_at : Option Text

pub record EnableServiceRequest : Type 0 where
  pub agent_id : Text
  pub identity_key : Text
  pub container_name : Option Text
  pub hostnames : List Text
  pub backend : Text

pub record EnableServiceResponse : Type 0 where
  pub id : Text
