-- ===== src/Pay/Mobster/Receipts.antt =====
-- forest/payments_monitor.py, class `Mobster`: the transactions that are pending, and the wait for a
-- receipt.
use forestfire.Prelude.{
  ℕ, zero, suc, String, Bool, true, false, Option, none, some, List, [], ◌∷◌, if◌then◌else◌,
  string_eq,
}
use forestfire.Prelude.Int.{ℤ, ltb_ℤ}
use forestfire.Prelude.Exec.{Result, ok, err, value_error, type_error, bind}
use forestfire.Value.{Value, dict, str, null, Fields, end, field, same}
use forestfire.Value.Access.{item, get_item, key_in, entries, entry}
use forestfire.Pay.{Calls, lift, ◌>>=◌, World, Outside, sleep}
use forestfire.Pay.Mobster.{req, get_my_address, get_all_transaction_logs_by_block, prepend}

module _ (out : Outside) where
  -- `except (ValueError, TypeError): continue`
  abbrev pub is_caught : Result ℤ → Bool
  is_caught (err value_error) = true
  is_caught (err type_error) = true
  is_caught _ = false

  unfoldable pub pending_of : ℤ → Fields → Result (List Value)
  pending_of from_block end = ok []
  pending_of from_block (field k log logs) =
      let rest = pending_of from_block logs in
      elim (get_item log "status" null) [
        | err e ↦ err e
        | ok status ↦
            if same status (str "tx_status_pending")
            then elim (get_item log "submitted_block_index" null) [
              | err e ↦ err e
              | ok block ↦ elim (out.int_of block) [
                | ok n ↦ if ltb_ℤ n from_block then rest else prepend log rest
                | err e ↦ if is_caught (err e) then rest else err e
              ]
            ]
            else rest
      ]

  unfoldable pub get_pending_transactions : ℤ → Calls (List Value)
  get_pending_transactions from_block = do
    tx_logs ← get_all_transaction_logs_by_block out
    result ← lift (get_item tx_logs "result" (dict end))
    map ← lift (get_item result "transaction_log_map" (dict end))
    logs ← lift (entries map)
    lift (pending_of from_block logs)

  unfoldable pub amount_of : Value → Result (Option ℤ)
  amount_of tx = bind (item tx "result") λ result.
      bind (item result "txo")
        λ txo. bind (item txo "value") λ value. bind (out.int_of value) λ pmob. ok (some pmob)

  -- The body of the loop of `get_receipt_amount_pmob`: `none` to go on.
  unfoldable pub receipt_status : Result Value → Option (Result (Option ℤ))
  receipt_status (err e) = some (err e)
  receipt_status (ok tx) = elim (key_in "error" tx) [
    | err e ↦ some (err e)
    | ok true ↦ some (ok none)
    | ok false ↦ elim (bind (item tx "result") λ result. item result "receipt_transaction_status") [
      | err e ↦ some (err e)
      | ok status ↦ if same status (str "TransactionPending") then none else some (amount_of tx)
    ]
  ]

  -- `get_receipt_amount_pmob`: asks once a second until the transaction is no longer pending; `none`
  -- at the end of the fuel.
  unfoldable pub poll_receipt : ℕ → Fields → World → Option (Result (Option ℤ) × World)
  poll_receipt zero params s = none
  poll_receipt (suc fuel) params s =
      let (r, s') = req out "check_receiver_receipt_status" (some params) s in
      let later = poll_receipt fuel params (record s' { events = sleep 1 ∷ s'.events }) in
      elim (receipt_status r) [ none ↦ later | some done ↦ some (done, s') ]

  -- `parse_receipt` is `mc_util.b64_receipt_to_full_service_receipt`.
  unfoldable pub get_receipt_amount_pmob :
      (String → Result Fields) → ℕ → String → World → Option (Result (Option ℤ) × World)
  get_receipt_amount_pmob parse_receipt fuel receipt s = elim (parse_receipt receipt) [
    | err e ↦ some (err e, s)
    | ok receiver_receipt ↦
        let (r, s') = get_my_address out s in
        elim r [
          | err e ↦ some (err e, s')
          | ok address ↦
              poll_receipt fuel
                (field "address" address (entry "receiver_receipt" (dict receiver_receipt))) s'
        ]
  ]
