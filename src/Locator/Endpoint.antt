-- ===== src/Locator/Endpoint.antt =====
-- The endpoints that a host publishes: internal/locator/endpoint.go.
use warptweet.Prelude.{ℕ, Bool, false, ◌||◌, ◌&&◌, ◌==◌, Result, ok, err, ◌>>=◌, ◌>>◌, reject}
use warptweet.Locator.Host.{Net, DialHost, HostError, parse_dial_host, canonical_host, host_equal}

-- `DialEndpoint`
pub record DialEndpoint : Type 0 where
  pub host : DialHost
  pub port : ℕ

-- `PublishedEndpointSet`
pub record PublishedEndpointSet : Type 0 where
  pub generation : ℕ
  pub data_endpoint : DialEndpoint
  pub enrollment : DialEndpoint

pub data EndpointError : Type 0 where
  generation_zero port_zero shared_locator : EndpointError
  data_host enrollment_host : HostError → EndpointError

-- `err` with the error of the host in it
abbrev pub in_host {ℓ} :
    {A : Type ℓ} → (HostError → EndpointError) → Result HostError A → Result EndpointError A
in_host wrap (ok a) = ok a
in_host wrap (err e) = err (wrap e)

module _ (net : Net) where
  -- `DialEndpoint.Equal`
  unfoldable pub endpoint_equal : DialEndpoint → DialEndpoint → Bool
  endpoint_equal endpoint other =
      endpoint.port == other.port && host_equal net endpoint.host other.host

  -- `SamePublishedLocators`
  unfoldable pub same_published_locators : PublishedEndpointSet → PublishedEndpointSet → Bool
  same_published_locators left right =
      endpoint_equal left.data_endpoint right.data_endpoint
      && endpoint_equal left.enrollment right.enrollment

  -- `PublishedEndpointSet.Canonical`
  unfoldable pub canonical_set : PublishedEndpointSet → Result EndpointError PublishedEndpointSet
  canonical_set set = do
    reject (set.generation == 0) generation_zero
    reject (set.data_endpoint.port == 0 || set.enrollment.port == 0) port_zero
    data_text ← in_host data_host (canonical_host net set.data_endpoint.host)
    enroll_text ← in_host enrollment_host (canonical_host net set.enrollment.host)
    data_to ← in_host data_host (parse_dial_host net data_text)
    enroll_to ← in_host enrollment_host (parse_dial_host net enroll_text)
    let data_at : DialEndpoint = record { host = data_to; port = set.data_endpoint.port }
    let enroll_at : DialEndpoint = record { host = enroll_to; port = set.enrollment.port }
    reject (endpoint_equal data_at enroll_at) shared_locator
    ok (record { generation = set.generation; data_endpoint = data_at; enrollment = enroll_at })

  abbrev pub both_sets :
      Result EndpointError PublishedEndpointSet → Result EndpointError PublishedEndpointSet → Bool
  both_sets (ok left) (ok right) =
      left.generation == right.generation && same_published_locators left right
  both_sets _ _ = false

  -- `PublishedEndpointSet.Equal`
  unfoldable pub set_equal : PublishedEndpointSet → PublishedEndpointSet → Bool
  set_equal set other = both_sets (canonical_set set) (canonical_set other)
