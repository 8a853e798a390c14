-- ===== src/Payments/Providers.antt =====
-- The provider interface of app/payments/providers.py. What a provider answers may depend on all
-- the calls that it has had; its answer is a response or an exception with its text.
use mpesa_mcp_server.Common.{String, Option, List}
use mpesa_mcp_server.Common.Int.{ℤ}
use mpesa_mcp_server.Common.Dict.{Dict}
use mpesa_mcp_server.Common.Json.{Json}
use mpesa_mcp_server.Common.Exec.{Result}

pub record PaymentInitiationResponse : Type 0 where
  pub provider : String
  pub rail : String
  pub checkout_request_id : String
  pub merchant_request_id : String
  pub provider_transaction_id : Option String
  pub provider_reference : Option String
  pub response_code : String
  pub response_description : String
  pub status : String
  pub error_category : Option String
  pub raw_response : Option (Dict Json)

pub record PaymentStatusResponse : Type 0 where
  pub provider : String
  pub rail : String
  pub checkout_request_id : String
  pub provider_transaction_id : Option String
  pub provider_reference : Option String
  pub result_code : String
  pub result_description : String
  pub status : String
  pub error_category : Option String
  pub raw_response : Option (Dict Json)

-- The keyword arguments of `initiate_payment`.
pub record PaymentRequest : Type 0 where
  pub phone_number : String
  pub amount : ℤ
  pub account_reference : String
  pub description : String

pub data ProviderCall : Type 0 where
  initiate : PaymentRequest → ProviderCall
  check_status : String → ProviderCall

pub record PaymentProvider : Type 0 where
  pub initiate_payment : List ProviderCall → PaymentRequest → Result PaymentInitiationResponse
  pub check_transaction_status : List ProviderCall → String → Result PaymentStatusResponse
