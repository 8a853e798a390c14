-- ===== src/Payments/Adapters.antt =====
-- The adapters of app/payments/providers.py: Daraja behind the provider interface, and the mock of
-- another rail. The text of an AttributeError leaves out the name of the type.
pub mod Laws
use mpesa_mcp_server.Common.{String, none, some, List, [], ◌∷◌}
use mpesa_mcp_server.Common.Exec.{Result, ok, err, exception, Exec, ◌>>=◌}
use mpesa_mcp_server.Common.Text.{concat}
use mpesa_mcp_server.Payments.Providers.{
  PaymentRequest, PaymentInitiationResponse, PaymentStatusResponse, ProviderCall, initiate,
  check_status, PaymentProvider,
}
use mpesa_mcp_server.Daraja.Calls.{
  Surroundings, Client, Call, Outcome, returned, raised, ClientError, http_status_error,
  timeout_exception, connect_exception, http_exception, circuit_breaker_open, provider_error,
  value_error, attribute_error, new_client, pure,
}
use mpesa_mcp_server.Daraja.Calls as Calls
use mpesa_mcp_server.Daraja.Client.Push.{StkPushResponse, initiate_stk_push}
use mpesa_mcp_server.Daraja.Client.Status
use mpesa_mcp_server.Daraja.Client.Status.{TransactionStatusResponse}
use mpesa_mcp_server.World.{Env, World, new_id}

-- `DarajaPaymentProvider.initiate_payment`, from the client's response
abbrev pub daraja_initiation : StkPushResponse → PaymentInitiationResponse
daraja_initiation response = record {
  provider = "daraja";
  rail = "mpesa";
  checkout_request_id = response.checkout_request_id;
  merchant_request_id = response.merchant_request_id;
  provider_transaction_id = some response.checkout_request_id;
  provider_reference = some response.merchant_request_id;
  response_code = response.response_code;
  response_description = response.response_description;
  status = response.status;
  error_category = response.error_category;
  raw_response = response.raw_response;
}

-- `DarajaPaymentProvider.check_transaction_status`, from the client's response
abbrev pub daraja_status : String → TransactionStatusResponse → PaymentStatusResponse
daraja_status transaction_reference response = record {
  provider = "daraja";
  rail = "mpesa";
  checkout_request_id = response.checkout_request_id;
  provider_transaction_id = some response.checkout_request_id;
  provider_reference = some transaction_reference;
  result_code = response.result_code;
  result_description = response.result_description;
  status = response.status;
  error_category = response.error_category;
  raw_response = response.raw_response;
}

-- `str(exc)`
abbrev pub client_error_text : ClientError → String
client_error_text (http_status_error r) = r.error_text
client_error_text (timeout_exception text) = text
client_error_text (connect_exception text) = text
client_error_text (http_exception text) = text
client_error_text circuit_breaker_open = "Daraja provider circuit breaker is open."
client_error_text (provider_error message category) = message
client_error_text (value_error text) = text
client_error_text attribute_error = "object has no attribute 'get'"

-- An outcome of the client as its caller sees it.
abbrev pub result_of : {A : Type 0} → Outcome A → Result A
result_of (returned a) = ok a
result_of (raised e) = err (exception (client_error_text e))

module _ (env : Surroundings) where
  unfoldable pub daraja_initiate_payment : PaymentRequest → Call PaymentInitiationResponse
  daraja_initiate_payment request =
      Calls.◌>>=◌ (initiate_stk_push env request) (λ response. pure (daraja_initiation response))

  unfoldable pub daraja_check_transaction_status : String → Call PaymentStatusResponse
  daraja_check_transaction_status reference =
      Calls.◌>>=◌ (Status.check_transaction_status env reference)
        (λ response. pure (daraja_status reference response))

  -- The client after a call of the provider, and after all its calls.
  abbrev pub client_after_call : ProviderCall → Client → Client
  client_after_call (initiate request) s = (daraja_initiate_payment request s).1
  client_after_call (check_status reference) s = (daraja_check_transaction_status reference s).1

  abbrev pub client_after : List ProviderCall → Client → Client
  client_after [] s = s
  client_after (call ∷ calls) s = client_after calls (client_after_call call s)

  -- `DarajaPaymentProvider` over a client: it answers from what its calls have made of the client.
  abbrev pub daraja_payment_provider : PaymentProvider
  daraja_payment_provider = record {
    initiate_payment = λ calls request.
        result_of (daraja_initiate_payment request (client_after calls new_client)).0;
    check_transaction_status = λ calls reference.
        result_of (daraja_check_transaction_status reference (client_after calls new_client)).0;
  }

-- `AirtelMoneyMockProvider.initiate_payment`; `new_id` stands for `uuid4().hex`
unfoldable pub airtel_initiate_payment : Env → PaymentRequest → Exec World PaymentInitiationResponse
unfolding new_id
airtel_initiate_payment env request = do
  transaction_hex ← new_id env
  reference_hex ← new_id env
  let provider_transaction_id : String = concat ("airtel_txn_" ∷ transaction_hex ∷ [])
  let provider_reference : String = concat ("airtel_ref_" ∷ reference_hex ∷ [])
  λ w. (
    ok (record {
      provider = "airtel";
      rail = "airtel_money";
      checkout_request_id = provider_transaction_id;
      merchant_request_id = provider_reference;
      provider_transaction_id = some provider_transaction_id;
      provider_reference = some provider_reference;
      response_code = "0";
      response_description = "Airtel Money mock payment accepted for processing.";
      status = "pending";
      error_category = none;
      raw_response = none;
    }),
    w,
  )

-- `AirtelMoneyMockProvider.check_transaction_status`
unfoldable pub airtel_check_transaction_status : String → PaymentStatusResponse
airtel_check_transaction_status transaction_reference = record {
  provider = "airtel";
  rail = "airtel_money";
  checkout_request_id = transaction_reference;
  provider_transaction_id = some transaction_reference;
  provider_reference = some transaction_reference;
  result_code = "0";
  result_description = "Airtel Money mock status query accepted.";
  status = "query_accepted";
  error_category = none;
  raw_response = none;
}
