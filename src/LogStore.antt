-- ===== src/LogStore.antt =====
-- core/logstore.go: the ring buffer of security events, its worker, and the queries. The country of an event
-- is a parameter, as is the sampling under load.
pub mod Ring
pub mod Newest
mod Tests
use mango_waf.Common.{ℕ, List}
use mango_waf.Common.Bytes.{Str}

-- `SecurityLogEvent`
pub record Event : Type 0 where
  pub id : ℕ
  pub timestamp : Str
  pub kind : Str
  pub client_ip : Str
  pub domain : Str
  pub method : Str
  pub path : Str
  pub status : ℕ
  pub action : Str
  pub rule : Str
  pub desc : Str
  pub country_code : Str
  pub country_name : Str

-- The channel holds the events that the worker has not yet taken.
pub record LogStore : Type 0 where
  pub events : List Event
  pub head : ℕ
  pub max_cap : ℕ
  pub channel : List Event
