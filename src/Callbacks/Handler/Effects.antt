-- ===== src/Callbacks/Handler/Effects.antt =====
-- What a callback of app/callbacks/handlers.py does to the stored transactions.
use mpesa_mcp_server.Common.{
  suc, String, true, false, ◌≡◌, refl, subst, ◌⊎◌, inl, inr, Option, none, some, arith, Bool-cases,
  Option-cases, eq_of_test, if◌then◌else◌,
}
use mpesa_mcp_server.Common.Int.{ℤ, pos, eqb_ℤ, eqb_ℤ_iff}
use mpesa_mcp_server.Common.Dict.{Dict, insert}
use mpesa_mcp_server.Common.Exec.{
  Result, Error, ok, err, transition_error, infrastructure_unavailable, exception, Result-cases,
  continue,
}
use mpesa_mcp_server.Common.Exec.Respects.{Respects, respects_rules}
use mpesa_mcp_server.Common.Json.{Json}
use mpesa_mcp_server.Transactions.StateMachine.{validate_transition}
use mpesa_mcp_server.Transactions.StateMachine.Laws.{validate_transition_ok}
use mpesa_mcp_server.Storage.Records.{PendingTransaction, StatusUpdate}
use mpesa_mcp_server.Storage.Repository.{
  find_by_checkout_request_id, update_transaction_status, update_found, updated, store,
}
use mpesa_mcp_server.Audit.Quiet.{log_event-Quiet}
use mpesa_mcp_server.World.{Env, World, now}
use mpesa_mcp_server.World.Quiet.{Quiet, Quiet-Preorder}
use mpesa_mcp_server.Callbacks.Payload.{
  Builtins, get_string, get_int, has_success_metadata, normalize_phone_number,
}
use mpesa_mcp_server.Callbacks.Handler.{
  log_result, invalid_payload_result, unknown_transaction_result, mismatch_result,
  invalid_transition_result, recover, finish, apply_update, match_amount, process_transition,
  status_update, phone_differs, is_complete,
}
use mpesa_mcp_server.Callbacks.Results.{CallbackProcessingResult, status_of, amount_differs}

module _ (env : Env) (builtins : Builtins) where
  log_result-Quiet :
      (event_type : String) (actor : Option String) (r : CallbackProcessingResult)
      → Respects Quiet (log_result env builtins event_type actor r)
  unfolding log_result
  log_result-Quiet event_type actor r = search (respects_rules, log_event-Quiet)

  pub invalid_payload_result-Quiet :
      (id : Option String) → Respects Quiet (invalid_payload_result env builtins id)
  unfolding invalid_payload_result
  invalid_payload_result-Quiet id = search log_result-Quiet

  pub unknown_transaction_result-Quiet :
      (id : String) → Respects Quiet (unknown_transaction_result env builtins id)
  unfolding unknown_transaction_result
  unknown_transaction_result-Quiet id = search log_result-Quiet

  module _ (callback : Dict Json) (id : String) (code : ℤ) (description : String) where
    pub recover-Quiet :
        (metadata : Dict Json) (e : Error)
        → Respects Quiet (recover env builtins callback id code description metadata e)
    unfolding recover invalid_transition_result
    recover-Quiet metadata (transition_error f t) = search (respects_rules, log_result-Quiet)
    recover-Quiet metadata (infrastructure_unavailable reason) = search respects_rules
    recover-Quiet metadata (exception text) = search respects_rules

    pub finish-Quiet :
        (metadata : Dict Json) (r : Result (Option PendingTransaction))
        → Respects Quiet (finish env builtins callback id code description metadata r)
    unfolding finish
    finish-Quiet metadata (err e) = recover-Quiet metadata e
    finish-Quiet metadata (ok t) = search (respects_rules, log_result-Quiet)

    -- An update that the state machine allows writes the transaction that the search finds.
    update_transaction_status_lem :
        (u : StatusUpdate) (t : PendingTransaction) (w : World)
        → find_by_checkout_request_id u.checkout_request_id w ≡ some t
        → validate_transition t.status u.status ≡ ok tt
        → let v = updated u (env.clock w.clock_reads) t in
          update_transaction_status env u w ≡ (
            ok (some v),
            record w {
              transactions = insert t.transaction_id v w.transactions;
              clock_reads = suc w.clock_reads;
            },
          )
    unfolding update_transaction_status update_found now store
    update_transaction_status_lem u t w found valid = rw (found, valid) refl

    -- The transactions that a callback leaves behind when it settles `t`: it is completed if the
    -- result code is 0 and failed otherwise, and keeps the code, the description and the receipt
    -- number that the callback tells.
    abbrev pub written : Dict Json → PendingTransaction → World → Dict PendingTransaction
    written metadata t w =
        insert t.transaction_id
          (record t {
            status = if eqb_ℤ code (pos 0) then "completed" else "failed";
            result_code = some code;
            result_description = some description;
            mpesa_receipt_number = get_string builtins metadata "MpesaReceiptNumber";
            updated_at = env.clock w.clock_reads;
          })
          w.transactions

    apply_update-writes :
        (metadata : Dict Json) (t : PendingTransaction) (w : World)
        → find_by_checkout_request_id id w ≡ some t
        → validate_transition t.status (status_of code) ≡ ok tt
        → (apply_update env builtins callback id code description metadata w).1.transactions
          ≡ written metadata t w
    unfolding apply_update
    apply_update-writes metadata t w found valid =
        let u = status_update env builtins callback id code description metadata in
        let stored = updated u (env.clock w.clock_reads) t in
        let after = record w {
          transactions = insert t.transaction_id stored w.transactions;
          clock_reads = suc w.clock_reads;
        } in
        rw (update_transaction_status_lem u t w found valid)
          ((finish-Quiet metadata (ok (some stored))).at after).transactions

    pub mismatch_result-Quiet :
        (event_type status reason : String) (amount : Option ℤ) (phone : Option String)
        (transaction_id : String)
        → Respects Quiet (
            mismatch_result env builtins callback id code description event_type status reason
              amount phone transaction_id)
    unfolding mismatch_result
    mismatch_result-Quiet event_type status reason amount phone transaction_id =
        search log_result-Quiet

    -- Either nothing is written, or what the callback tells agrees with the transaction and is
    -- written to it.
    abbrev pub Settles : Dict Json → PendingTransaction → World → World → Type 0
    Settles metadata t w v =
        (v.transactions ≡ w.transactions)
        ⊎ ((t.status ≡ "pending")
            × ((n : ℤ) → get_int builtins metadata "Amount" ≡ ok (some n) → n ≡ t.amount)
            × ((p : String)
                → get_string builtins metadata "PhoneNumber" ≡ some p
                → normalize_phone_number builtins p
                  ≡ normalize_phone_number builtins t.phone_number)
            × (v.transactions ≡ written metadata t w))

    amount_agrees :
        (metadata : Dict Json) (amount : Option ℤ) (t : PendingTransaction)
        → get_int builtins metadata "Amount" ≡ ok amount
        → amount_differs amount t.amount ≡ false
        → (n : ℤ) → get_int builtins metadata "Amount" ≡ ok (some n)
        → n ≡ t.amount
    amount_agrees metadata none t given same n told = absurd (ground arith)
    amount_agrees metadata (some m) t given same n told =
        let here : m ≡ n = ground arith in
        subst (λ x. x ≡ t.amount) here ((eqb_ℤ_iff m t.amount).0 (ground arith))

    phone_agrees :
        (metadata : Dict Json) (phone : Option String) (t : PendingTransaction)
        → get_string builtins metadata "PhoneNumber" ≡ phone
        → phone_differs env builtins phone t.phone_number ≡ false
        → (p : String) → get_string builtins metadata "PhoneNumber" ≡ some p
        → normalize_phone_number builtins p ≡ normalize_phone_number builtins t.phone_number
    phone_agrees metadata none t given same p told = absurd (ground arith)
    phone_agrees metadata (some q) t given same p told =
        let here : q ≡ p = ground arith in
        subst
          (λ x. normalize_phone_number builtins x ≡ normalize_phone_number builtins t.phone_number)
          here (eq_of_test _ _ (ground arith))

    match_amount-Settles :
        (metadata : Dict Json) (t : PendingTransaction) (amount : Option ℤ) (w : World)
        → find_by_checkout_request_id id w ≡ some t
        → validate_transition t.status (status_of code) ≡ ok tt
        → get_int builtins metadata "Amount" ≡ ok amount
        → Settles metadata t w
            (match_amount env builtins callback id code description metadata t amount w).1
    unfolding match_amount
    match_amount-Settles metadata t amount w found valid given =
        let phone = get_string builtins metadata "PhoneNumber" in
        elim (Bool-cases (amount_differs amount t.amount)) [
          | inl differs ↦ rw differs (
              inl
                ((mismatch_result-Quiet "stk_callback_amount_mismatch" "amount_mismatch"
                    "Callback amount does not match expected transaction amount." amount none
                    t.transaction_id).at
                  w).transactions)
          | inr agrees ↦ elim (Bool-cases (phone_differs env builtins phone t.phone_number)) [
            | inl differs ↦
                rw (agrees, differs)
                  (inl
                    ((mismatch_result-Quiet "stk_callback_phone_mismatch" "phone_mismatch"
                        "Callback phone number does not match expected transaction phone." none
                        phone t.transaction_id).at
                      w).transactions)
            | inr same ↦
                rw (agrees, same)
                  (inr (
                    (validate_transition_ok t.status (status_of code) valid).0,
                    amount_agrees metadata amount t given agrees,
                    phone_agrees metadata phone t refl same,
                    apply_update-writes metadata t w found valid,
                  ))
          ]
        ]

    match_given-Settles :
        (metadata : Dict Json) (t : PendingTransaction) (w : World) (given : Result (Option ℤ))
        → find_by_checkout_request_id id w ≡ some t
        → validate_transition t.status (status_of code) ≡ ok tt
        → get_int builtins metadata "Amount" ≡ given
        → Settles metadata t w
            (continue given (match_amount env builtins callback id code description metadata t) w).1
    match_given-Settles metadata t w (err e) found valid given = inl refl
    match_given-Settles metadata t w (ok amount) found valid given =
        match_amount-Settles metadata t amount w found valid given

    pub process_transition-Settles :
        (metadata : Dict Json) (t : PendingTransaction) (w : World)
        → find_by_checkout_request_id id w ≡ some t
        → Settles metadata t w
            (process_transition env builtins callback id code description metadata t
              (validate_transition t.status (status_of code))
              w).1
    unfolding process_transition
    process_transition-Settles metadata t w found =
        elim (Result-cases (validate_transition t.status (status_of code))) [
          | inr (e, refused) ↦ rw refused (inl ((recover-Quiet metadata e).at w).transactions)
          | inl (u, valid) ↦ rw valid (match_given-Settles metadata t w _ found valid refl)
        ]

    -- A payment is told as done only with an amount, a receipt and a phone number.
    abbrev pub HasMetadata : Dict Json → Type 0
    HasMetadata metadata =
        (amount : ℤ) × (receipt : String) × (phone : String) × (get_int builtins metadata "Amount"
          ≡ ok (some amount))
        × (get_string builtins metadata "MpesaReceiptNumber" ≡ some receipt)
        × (get_string builtins metadata "PhoneNumber" ≡ some phone)

    pub complete-HasMetadata :
        (metadata : Dict Json)
        → is_complete env builtins callback id code description metadata ≡ ok true
        → code ≡ pos 0
        → HasMetadata metadata
    unfolding has_success_metadata
    complete-HasMetadata metadata complete success =
        let given : has_success_metadata builtins metadata ≡ ok true =
          ground (arith, eqb_ℤ_iff code (pos 0)) in
        elim (Result-cases (get_int builtins metadata "Amount")) [
          | inr (e, raised) ↦ absurd (ground arith)
          | inl (none, found) ↦ absurd (ground arith)
          | inl (some amount, found) ↦
              elim (Option-cases (get_string builtins metadata "MpesaReceiptNumber")) [
                | inl missing ↦ absurd (ground arith)
                | inr (receipt, told) ↦
                    elim (Option-cases (get_string builtins metadata "PhoneNumber")) [
                      | inl missing ↦ absurd (ground arith)
                      | inr (phone, named) ↦ (amount, receipt, phone, found, told, named)
                    ]
              ]
        ]
