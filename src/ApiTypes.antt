-- ===== src/ApiTypes.antt =====
-- spooled/types: the requests and the responses as a package of their own, one module for each file, and
-- common.go here. A type whose fields, tags and order are those of the type of the same name in
-- spooled/resources is the record that the resources have; the others are records here.
pub mod Jobs
pub mod Queues
pub mod Workers
pub mod Schedules
pub mod Workflows
pub mod ApiKeys
pub mod Organizations
pub mod Webhooks
pub mod Admin
pub mod Login
pub mod Billing
pub mod Dashboard
pub mod Requests
pub mod Alike
use spooled_sdk_go.Common.{Bool, Option, some, ℤ, Text}
use spooled_sdk_go.Resources.Values
use spooled_sdk_go.Resources.Values.{Time}

abbrev pub JsonObject : Type 0
JsonObject = Values.JsonObject

pub record PaginationParams : Type 0 where
  pub limit : Option ℤ
  pub offset : Option ℤ
  pub order_by : Option Text
  pub order_dir : Option Text

-- `Int`, `String`, `Bool` and `Time`: a pointer to a new variable with the value.
abbrev pub int : ℤ → Option ℤ
int v = some v

abbrev pub string : Text → Option Text
string v = some v

abbrev pub bool : Bool → Option Bool
bool v = some v

abbrev pub time : Time → Option Time
time v = some v
