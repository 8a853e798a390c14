-- ===== src/Callbacks/Handler/Settlement.antt =====
-- When a callback of app/callbacks/handlers.py settles a transaction.
use mpesa_mcp_server.Common.{
  String, Bool, true, false, ◌≡◌, refl, sym, subst, ◌⊎◌, inl, inr, Option, none, some, Option-cases,
}
use mpesa_mcp_server.Common.Int.{ℤ, pos}
use mpesa_mcp_server.Common.Dict.{Dict}
use mpesa_mcp_server.Common.Exec.{Result, ok, err, Result-cases, continue}
use mpesa_mcp_server.Common.Json.{Json}
use mpesa_mcp_server.Storage.Records.{PendingTransaction}
use mpesa_mcp_server.Storage.Repository.{find_by_checkout_request_id}
use mpesa_mcp_server.World.{Env, World, increment}
use mpesa_mcp_server.World.Quiet.{Quiet-Preorder}
use mpesa_mcp_server.Callbacks.Payload.{
  Builtins, extract_callback, extract_metadata, get_string, get_int, normalize_phone_number,
}
use mpesa_mcp_server.Callbacks.Handler.{
  unknown_transaction_result, process_complete, process_found, process_fields, process_callback,
  process, is_complete,
}
use mpesa_mcp_server.Observability.Metrics.{Counter}
use mpesa_mcp_server.Callbacks.Handler.Effects.{
  unknown_transaction_result-Quiet, invalid_payload_result-Quiet, written, HasMetadata,
  process_transition-Settles, complete-HasMetadata,
}

module _ (env : Env) (builtins : Builtins) where
  -- The callback's fields name a pending transaction, whose amount and phone number are not
  -- contradicted, and which is now written as settled.
  abbrev pub Settled : Dict Json → World → World → Type 0
  Settled payload w v =
      (callback : Dict Json) × (id : String) × (code : ℤ) × (description : String)
      × (t : PendingTransaction) × (extract_callback payload ≡ some callback)
      × (get_string builtins callback "CheckoutRequestID" ≡ some id)
      × (get_int builtins callback "ResultCode" ≡ ok (some code))
      × (get_string builtins callback "ResultDesc" ≡ some description)
      × (find_by_checkout_request_id id w ≡ some t)
      × (code ≡ pos 0
          → HasMetadata env builtins callback id code description (extract_metadata callback))
      × (t.status ≡ "pending")
      × ((n : ℤ)
          → get_int builtins (extract_metadata callback) "Amount" ≡ ok (some n)
          → n ≡ t.amount)
      × ((p : String)
          → get_string builtins (extract_metadata callback) "PhoneNumber" ≡ some p
          → normalize_phone_number builtins p ≡ normalize_phone_number builtins t.phone_number)
      × (v.transactions
          ≡ written env builtins callback id code description (extract_metadata callback) t w)

  module _ (callback : Dict Json) (id : String) (code : ℤ) (description : String) where
    abbrev Complete : PendingTransaction → World → World → Type 0
    Complete t w v =
        (v.transactions ≡ w.transactions)
        ⊎ ((code ≡ pos 0
              → HasMetadata env builtins callback id code description (extract_metadata callback))
            × (t.status ≡ "pending")
            × ((n : ℤ)
                → get_int builtins (extract_metadata callback) "Amount" ≡ ok (some n)
                → n ≡ t.amount)
            × ((p : String)
                → get_string builtins (extract_metadata callback) "PhoneNumber" ≡ some p
                → normalize_phone_number builtins p
                  ≡ normalize_phone_number builtins t.phone_number)
            × (v.transactions
                ≡ written env builtins callback id code description (extract_metadata callback) t
                    w))

    process_complete-settles :
        (t : PendingTransaction) (complete : Result Bool) (w : World)
        → is_complete env builtins callback id code description (extract_metadata callback)
          ≡ complete
        → find_by_checkout_request_id id w ≡ some t
        → Complete t w
            (continue complete
              (process_complete env builtins callback id code description
                (extract_metadata callback)
                t)
              w).1
    unfolding process_complete
    process_complete-settles t (err e) w told found = inl refl
    process_complete-settles t (ok false) w told found =
        inl ((invalid_payload_result-Quiet env builtins (some id)).at w).transactions
    process_complete-settles t (ok true) w told found =
        elim (process_transition-Settles env builtins callback id code description
          (extract_metadata callback) t w found) [
            | inl same ↦ inl same
            | inr (pending, amounts, phones, writes) ↦ inr (
              complete-HasMetadata env builtins callback id code description
                  (extract_metadata callback) told,
              pending,
              amounts,
              phones,
              writes,
            )
          ]

  process_fields-settles :
      (payload callback : Dict Json) (id : Option String) (code : Option ℤ)
      (description : Option String) (w : World)
      → extract_callback payload ≡ some callback
      → get_string builtins callback "CheckoutRequestID" ≡ id
      → get_int builtins callback "ResultCode" ≡ ok code
      → get_string builtins callback "ResultDesc" ≡ description
      → let v = (process_fields env builtins callback id code description w).1 in
        (v.transactions ≡ w.transactions) ⊎ Settled payload w v
  unfolding process_fields process_found unknown_transaction_result
  process_fields-settles payload callback (some id) (some code) (some description) w h hi hc hd =
      elim (Option-cases (find_by_checkout_request_id id w)) [
        | inl missing ↦
            rw missing (inl ((unknown_transaction_result-Quiet env builtins id).at w).transactions)
        | inr (t, found) ↦
            elim (process_complete-settles callback id code description t _ w refl found) [
              | inl same ↦ rw found (inl same)
              | inr (metadata, pending, amounts, phones, writes) ↦ rw found (
                  inr (
                    callback, id, code, description, t, h, hi, hc, hd, found, metadata, pending,
                    amounts, phones, writes,
                  ))
            ]
      ]
  process_fields-settles payload callback none code description w h hi hc hd =
      inl ((invalid_payload_result-Quiet env builtins none).at w).transactions
  process_fields-settles payload callback (some id) none description w h hi hc hd =
      inl ((invalid_payload_result-Quiet env builtins (some id)).at w).transactions
  process_fields-settles payload callback (some id) (some code) none w h hi hc hd =
      inl ((invalid_payload_result-Quiet env builtins (some id)).at w).transactions

  process_callback-settles :
      (payload : Dict Json) (callback : Option (Dict Json)) (w : World)
      → extract_callback payload ≡ callback
      → let v = (process_callback env builtins callback w).1 in
        (v.transactions ≡ w.transactions) ⊎ Settled payload w v
  unfolding process_callback
  process_callback-settles payload none w h =
      inl ((invalid_payload_result-Quiet env builtins none).at w).transactions
  process_callback-settles payload (some callback) w h =
      elim (Result-cases (get_int builtins callback "ResultCode")) [
        | inr (e, raised) ↦ rw raised (inl refl)
        | inl (code, found) ↦
            elim (process_fields-settles payload callback _ code _ w h refl found refl) [
              | inl same ↦ rw found (inl same)
              | inr settled ↦ inr (
                  subst
                    (λ r.
                      Settled payload w
                        (continue r
                          (λ c.
                            process_fields env builtins callback
                              (get_string builtins callback "CheckoutRequestID") c
                              (get_string builtins callback "ResultDesc"))
                          w).1)
                    (sym found) settled)
            ]
      ]

  -- A callback changes the stored transactions in one way only: it settles the transaction that it
  -- names, which must be pending. The amount and the phone number that it tells, if any, are those
  -- of the transaction, and for a success it tells both, with a receipt number. The transaction is
  -- written as completed if the result code is 0 and as failed otherwise, with the code, the
  -- description and the receipt number told, and is unchanged in all else but its time of update.
  pub process_settles :
      (payload : Dict Json) (w : World)
      → let v = (process env builtins payload w).1 in
        (v.transactions ≡ w.transactions) ⊎ Settled payload w v
  unfolding process increment find_by_checkout_request_id
  process_settles payload w =
      process_callback-settles payload (extract_callback payload)
        (increment Counter.callback_received_count w).1 refl
