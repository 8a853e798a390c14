-- ===== src/Receipts/Service/Laws.antt =====
-- For which transactions app/services/receipt_service.py gives a receipt, and what it says.
use mpesa_mcp_server.Common.{
  String, true, ◌≡◌, ◌≢◌, refl, sym, ap, ◌∙◌, ◌⊎◌, inl, inr, Option, none, some, ◌==◌, eq_iff,
  eq_of_test, test_of_ne, arith, Bool-cases, Option-cases,
}
use mpesa_mcp_server.Common.Exec.{Result, ok, err}
use mpesa_mcp_server.Storage.Records.{PendingTransaction}
use mpesa_mcp_server.Storage.Repository.{find_by_checkout_request_id}
use mpesa_mcp_server.Audit.Logger.{log_event}
use mpesa_mcp_server.Receipts.Generator.{Receipt, receipt_of, generate}
use mpesa_mcp_server.Receipts.Service.{
  ReceiptServiceResponse, refused, generate_found, deliver, generate_receipt,
}
use mpesa_mcp_server.World.{Env, World, increment, now, new_id}

module _ (env : Env) where
  -- What a receipt promises: the transaction that is found by the checkout request is completed and
  -- has the M-Pesa number that the receipt tells, with the transaction's identifiers, amount and
  -- phone number, as completed; the receipt's identifier and time are the next of their kind.
  abbrev pub IsReceiptFor : String → World → Receipt → Type 0
  IsReceiptFor checkout_request_id w r =
      (t : PendingTransaction) × (find_by_checkout_request_id checkout_request_id w ≡ some t)
      × (t.status ≡ "completed")
      × (t.mpesa_receipt_number ≡ some r.mpesa_receipt_number)
      × (r.transaction_id ≡ t.transaction_id)
      × (r.checkout_request_id ≡ t.checkout_request_id)
      × (r.amount ≡ t.amount)
      × (r.phone_number ≡ t.phone_number)
      × (r.status ≡ "completed")
      × (r.receipt_id ≡ env.new_id w.ids_issued)
      × (r.issued_at ≡ env.clock w.clock_reads)

  -- A completed transaction with a number gets a receipt, counted and with no other effect on the
  -- stores.
  pub generate_receipt_completed :
      (id number : String) (t : PendingTransaction) (w : World)
      → id ≢ ""
      → find_by_checkout_request_id id w ≡ some t
      → t.status ≡ "completed"
      → t.mpesa_receipt_number ≡ some number
      → let (answer, v) = generate_receipt env id w in
        let r = receipt_of t number (env.new_id w.ids_issued) (env.clock w.clock_reads) in
        (answer
          ≡ ok (record {
            status = "generated";
            allowed = true;
            reason = "Receipt generated successfully.";
            receipt = some r;
          }))
        × (v.transactions ≡ w.transactions)
        × (v.approvals ≡ w.approvals)
        × (v.provider_calls ≡ w.provider_calls)
  unfolding generate_receipt generate_found deliver generate log_event increment now new_id
  generate_receipt_completed id number t w given found done numbered =
      let test = test_of_ne id "" given in
      let completed : (t.status == "completed") ≡ true = (eq_iff t.status "completed").1 done in
      rw (test, found, completed, numbered) (refl, refl, refl, refl)

  generate_receipt-given :
      (id : String) (w : World)
      → let answer = (generate_receipt env id w).0 in
        ((resp : ReceiptServiceResponse) × (answer ≡ ok resp) × (resp.receipt ≡ none))
        ⊎ ((resp : ReceiptServiceResponse) × (r : Receipt) × (answer ≡ ok resp)
            × (resp.receipt ≡ some r)
            × IsReceiptFor id w r)
  unfolding generate_receipt generate_found deliver generate log_event increment now new_id
  generate_receipt-given id w = elim (Bool-cases (id == "")) [
    | inl empty ↦ inl (refused "blocked" "Checkout request ID is required.", rw empty refl, refl)
    | inr given ↦ elim (Option-cases (find_by_checkout_request_id id w)) [
      | inl missing ↦
          inl (refused "not_found" "Transaction was not found.", rw (given, missing) refl, refl)
      | inr (t, found) ↦ elim (Bool-cases (t.status == "completed")) [
        | inr early ↦ inl (
          refused "blocked" "Only completed transactions can generate receipts.",
          rw (given, found, early) refl,
          refl,
        )
        | inl done ↦ elim (Option-cases t.mpesa_receipt_number) [
          | inl bare ↦ inl (
            refused "blocked" "Completed transaction is missing an M-Pesa receipt number.",
            rw (given, found, done, bare) refl,
            refl,
          )
          | inr (number, numbered) ↦
              let r = receipt_of t number (env.new_id w.ids_issued) (env.clock w.clock_reads) in
              inr (
                record {
                  status = "generated";
                  allowed = true;
                  reason = "Receipt generated successfully.";
                  receipt = some r;
                },
                r,
                rw (given, found, done, numbered) refl,
                refl,
                (
                  t,
                  found,
                  eq_of_test t.status "completed" done,
                  numbered,
                  refl,
                  refl,
                  refl,
                  refl,
                  eq_of_test t.status "completed" done,
                  refl,
                  refl,
                ),
              )
        ]
      ]
    ]
  ]

  -- The identifier is not empty, and the transaction that it finds may have a receipt.
  abbrev pub IsReady : String → World → Type 0
  IsReady checkout_request_id w =
      (t : PendingTransaction) × (number : String) × (checkout_request_id ≢ "")
      × (find_by_checkout_request_id checkout_request_id w ≡ some t)
      × (t.status ≡ "completed")
      × (t.mpesa_receipt_number ≡ some number)

  receipt_in : Result ReceiptServiceResponse → Option Receipt
  receipt_in (ok resp) = resp.receipt
  receipt_in (err e) = none

  generate_receipt-IsReady :
      (id : String) (w : World) (resp : ReceiptServiceResponse)
      → (generate_receipt env id w).0 ≡ ok resp
      → IsReady id w
      → resp.receipt ≢ none
  unfolding receipt_in
  generate_receipt-IsReady id w resp answered (t, number, given, found, done, numbered) missing =
      let told = generate_receipt_completed id number t w given found done numbered in
      absurd (some_is_none (sym (ap receipt_in told.0) ∙ ap receipt_in answered ∙ missing))
    where
      some_is_none : {r : Receipt} → some r ≢ none
      some_is_none e = absurd (ground arith)

  -- The answer is never an exception. Either it has no receipt, and the identifier is empty or finds
  -- no completed transaction with an M-Pesa number; or its receipt is one for the found transaction,
  -- which is completed and has the M-Pesa number that the receipt tells, with that transaction's
  -- identifiers, amount and phone number, and a fresh identifier and time of its own.
  pub generate_receipt_only :
      (id : String) (w : World)
      → (resp : ReceiptServiceResponse) × ((generate_receipt env id w).0 ≡ ok resp)
        × (((resp.receipt ≡ none) × ¬ IsReady id w)
            ⊎ ((r : Receipt) × (resp.receipt ≡ some r) × IsReceiptFor id w r))
  generate_receipt_only id w = elim (generate_receipt-given id w) [
    | inl (resp, e, nothing) ↦
        (resp, e, inl (nothing, λ ready. generate_receipt-IsReady id w resp e ready nothing))
    | inr (resp, r, e, given, receipt) ↦ (resp, e, inr (r, given, receipt))
  ]
