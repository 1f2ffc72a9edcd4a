-- ===== src/ApiTypes/Billing.antt =====
-- spooled/types/billing.go. A type that has the fields of the same name and tags in spooled/resources is the
-- record of the resources.
use spooled_sdk_go.Resources.Billing.Types

abbrev pub BillingStatus : Type 0
BillingStatus = Types.BillingStatus

abbrev pub CreatePortalRequest : Type 0
CreatePortalRequest = Types.CreatePortalRequest

abbrev pub CreatePortalResponse : Type 0
CreatePortalResponse = Types.CreatePortalResponse
