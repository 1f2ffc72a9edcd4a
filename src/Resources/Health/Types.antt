-- ===== src/Resources/Health/Types.antt =====
-- The requests and the responses of spooled/resources/health.go, and the requests as JSON.
use spooled_sdk_go.Common.{Bool, Text}

pub record HealthResponse : Type 0 where
  pub status : Text
  pub database : Bool
  pub cache : Bool
  pub timestamp : Text
