-- ===== src/Pay/Payment.antt =====
-- forest/core.py, classes `PayBot` and `FsrPayBot`: payments to users and from them.
pub mod Once
mod Tests
use forestfire.Prelude.{
  ℕ, zero, suc, ◌-◌, String, Bool, true, false, not, ◌&&◌, ◌||◌, Option, none, some, if◌then◌else◌,
  truthy, ◌==◌, string_eq, nat_eq, ◌&◌,
}
use forestfire.Prelude.Int.{ℤ, pos, ◌-ℤ◌}
use forestfire.Prelude.Exec.{Exc, Result, ok, err, value_error, type_error, user_error, bind}
use forestfire.Value.{
  Value, dict, list, str, int, bool, null, Items, nil, cons, Fields, end, field, same, is_true,
}
use forestfire.Value.Access.{item, get_item, key_in, first_item, entry}
use forestfire.Pay.{
  Calls, pure, raise, lift, modify, ◌>>=◌, ◌>>◌, Event, World, Outside, signal_rpc, signal_task,
  await_task, admin, respond, sleep, ask, tell,
}
use forestfire.Pay.Mobster.{req_, get_account}
use forestfire.Pay.Mobster.Receipts.{get_receipt_amount_pmob}
use Prim.Native.String

-- `s[:n]`
abbrev pub first_chars : ℕ → String → String
first_chars zero s = ""
first_chars (suc n) String.[] = ""
first_chars (suc n) (String.◌∷◌ c s) = String.◌∷◌ c (first_chars n s)

-- `d | more`, and `v[k] = w`
abbrev pub put_field : String → Value → Fields → Fields
put_field k w end = field k w end
put_field k w (field j v fs) =
    let rest = put_field k w fs in if j == k then field j w fs else field j v rest

abbrev pub append_fields : Fields → Fields → Fields
append_fields end gs = gs
append_fields (field k v fs) gs = field k v (append_fields fs gs)

abbrev pub set_item : Value → String → Value → Result Value
set_item (dict fs) k v = ok (dict (put_field k v fs))
set_item _ k v = err type_error

-- What `send_payment` returns: nothing; a message that says that it failed; the answer to the
-- notification; that answer with the status of the transaction.
pub data Sent : Type 0 where
  no_result : Sent
  failed : Value → Sent
  notified : Value → Sent
  confirmed : Value → Value → Value → Sent

-- The functions of mc_util that are called.
pub record Coins : Type 0 where
  -- `b64_public_address_to_b58_wrapper`, `full_service_receipt_to_b64_receipt` and
  -- `b64_receipt_to_full_service_receipt`
  pub to_b58 : Value → Result String
  pub receipt_of : Value → Result String
  pub parse_receipt : String → Result Fields
  -- `str(pmob2mob(n)).rstrip("0")`
  pub mob_text : ℤ → String
  -- `FEE_PMOB`
  pub fee_pmob : ℕ

abbrev pub no_address : String
no_address =
    "Sorry, couldn't get your MobileCoin address. "
    & "Please make sure you have payments enabled, and have messaged me from your phone!"

module _ (out : Outside) (coins : Coins) where
  -- A truth test, and a branch that may make requests.
  abbrev pub address_of : Value → Calls (Option String)
  address_of b64_address =
      if is_true b64_address
      then (lift (coins.to_b58 b64_address) >>= λ address. pure (some address))
      else pure none

  -- A message that was parsed has no attribute `error`.
  unfoldable pub get_signalpay_address : String → Calls (Option String)
  get_signalpay_address recipient = do
    blob ← ask out (
        signal_rpc "listContacts"
          (field "recipient" (str recipient) (entry "allRecipients" (bool true))))
    result ← lift (get_item blob "result" (dict end))
    profile ← lift (get_item result "profile" (dict end))
    b64_address ← lift (get_item profile "mobileCoinAddress" null)
    address_of b64_address

  unfoldable pub do_address : String → Calls String
  do_address uuid = do
    address ← get_signalpay_address uuid
    pure (elim address [
      | none ↦ "Sorry, couldn't get your MobileCoin address"
      | some a ↦ if truthy a then a else "Sorry, couldn't get your MobileCoin address"
    ])

  unfoldable pub report : Bool → Value → Fields → Calls (Unit {0})
  report false result params = pure tt
  report true result params = do
    sent ← ask out (
        admin (
          out.str_of result
          & "\nReturned by:\n\n"
          & first_chars 1024 (out.str_of (dict params))
          & "..."))
    pure tt

  unfoldable pub mob_request : String → Fields → Calls Value
  mob_request method params = do
    result ← req_ out method params
    is_error ← lift (key_in "error" result)
    report is_error result params
    pure result

  unfoldable pub build_gift_code : ℤ → Calls Items
  build_gift_code amount_pmob = do
    account_id ← get_account out
    raw_prop ← mob_request "build_gift_code" (
        field "account_id" account_id (
          field "value_pmob" (str (out.str_of (int amount_pmob))) (
            field "fee" (str (out.str_of (int (pos coins.fee_pmob))))
              (entry "memo" (str "Gift code built with MOBot!")))))
    result ← lift (item raw_prop "result")
    prop ← lift (item result "tx_proposal")
    b58_code ← lift (item result "gift_code_b58")
    from_account_id ← get_account out
    submitted ← mob_request "submit_gift_code" (
        field "tx_proposal" prop
          (field "gift_code_b58" b58_code (entry "from_account_id" from_account_id)))
    answer ← lift (get_item submitted "result" (dict end))
    gift_code ← lift (get_item answer "gift_code" (dict end))
    b58 ← lift (get_item gift_code "gift_code_b58" null)
    pure (
        cons (str "Built Gift Code") (
          cons b58 (
            cons
              (str
                ("redeemable for " & coins.mob_text (amount_pmob -ℤ pos coins.fee_pmob) & " MOB"))
              nil)))

  -- One round of `confirm_tx_timeout`: the status.
  unfoldable pub tx_status : Value → Calls Value
  tx_status tx_id = do
    answer ← mob_request "get_transaction_log" (entry "transaction_log_id" tx_id)
    result ← lift (get_item answer "result" (dict end))
    log ← lift (get_item result "transaction_log" (dict end))
    lift (get_item log "status" null)

  abbrev pub is_final : Value → Bool
  is_final status = same status (str "tx_status_succeeded") || same status (str "tx_status_failed")

  -- The rounds that are left, and the status so far.
  unfoldable pub confirm_tx_timeout : Value → ℕ → Value → Calls Value
  confirm_tx_timeout tx_id zero status = pure status
  confirm_tx_timeout tx_id (suc rounds) status = do
    status' ← tx_status tx_id
    if is_final status'
        then pure status'
        else do tell (sleep 1); confirm_tx_timeout tx_id rounds status'

  -- The address that `send_payment` needs.
  unfoldable pub require_address : Option String → Calls String
  require_address none = raise (user_error no_address)
  require_address (some a) = if truthy a then pure a else raise (user_error no_address)

  unfoldable pub refuse_error : Value → Calls (Unit {0})
  refuse_error e = if is_true e then raise value_error else pure tt

  -- The submission, by the length of the timeout.
  unfoldable pub submit : ℕ → Value → Value → Value → Value → Calls Value
  submit timeout prop tx_id comment account_id =
      if not (timeout == 0)
      then mob_request "submit_transaction"
          (field "tx_proposal" prop (field "comment" comment (entry "account_id" account_id)))
      else if is_true prop && is_true tx_id
      then mob_request "submit_transaction" (entry "tx_proposal" prop)
      else pure (dict (entry "error" (dict (entry "message" (str "InternalError")))))

  unfoldable pub internal_error : Value → Result Bool
  internal_error tx_result =
      if not (is_true tx_result)
      then ok true
      else bind (get_item tx_result "error" null) λ e.
        if not (is_true e)
        then ok false
        else bind (get_item tx_result "error" (dict end))
            λ e'. bind (get_item e' "message" (str "")) λ message. key_in "InternalError" message

  -- `not isinstance(tx_result, dict) or not tx_result.get("result")`
  unfoldable pub has_result : Value → Result Bool
  has_result (dict fs) = bind (get_item (dict fs) "result" null) λ r. ok (is_true r)
  has_result _ = ok false

  unfoldable pub finish : ℕ → Value → Calls Sent
  finish zero tx_id = do resp ← ask out await_task; pure (notified resp)
  finish (suc timeout) tx_id = do
    status ← confirm_tx_timeout tx_id (suc timeout) (str "tx_status_pending")
    resp ← ask out await_task
    pure (confirmed status tx_id resp)

  -- The receipt, the notification and the wait for the transaction.
  unfoldable pub notify : String → String → ℕ → Value → Value → Value → Calls Sent
  notify recipient receipt_message timeout prop tx_id account_id = do
    answer ←
        mob_request "create_receiver_receipts"
          (field "tx_proposal" prop (entry "account_id" account_id))
    result ← lift (item answer "result")
    receipts ← lift (item result "receiver_receipts")
    receipt ← lift (first_item receipts)
    full_service_receipt ← lift (set_item receipt "object" (str "receiver_receipt"))
    b64_receipt ← lift (coins.receipt_of full_service_receipt)
    tell (
        signal_task "sendPaymentNotification" (
          field "receipt" (str b64_receipt)
            (field "note" (str receipt_message) (entry "recipient" (str recipient)))))
    finish timeout tx_id

  unfoldable pub after_submit : String → String → ℕ → Value → Value → Value → Value → Calls Sent
  after_submit recipient receipt_message timeout prop tx_id account_id tx_result = do
    is_internal ← lift (internal_error tx_result)
    is_sent ← lift (if is_internal then ok false else has_result tx_result)
    if is_internal
        then pure no_result
        else if not is_sent
        then pure (failed tx_id)
        else notify recipient receipt_message timeout prop tx_id account_id

  unfoldable pub send_payment : String → ℤ → String → ℕ → Fields → Calls Sent
  send_payment recipient amount_pmob receipt_message timeout params = do
    found ← get_signalpay_address recipient
    account_id ← get_account out
    address ← require_address found
    raw_prop ← mob_request "build_transaction" (
        field "account_id" account_id (
          field "recipient_public_address" (str address) (
            field "amount"
              (dict
                (field "value" (str (out.str_of (int amount_pmob))) (entry "token_id" (str "0"))))
              params)))
    e ← lift (get_item raw_prop "error" null)
    refuse_error e
    result ← lift (get_item raw_prop "result" (dict end))
    prop ← lift (get_item result "tx_proposal" null)
    tx_id ← lift (get_item result "transaction_log_id" null)
    comment ← lift (get_item (dict params) "comment" (str ""))
    tx_result ← submit timeout prop tx_id comment account_id
    after_submit recipient receipt_message timeout prop tx_id account_id tx_result

  abbrev reply : String → Calls (Unit {0})
  reply text = do sent ← ask out (respond text); pure tt

  -- `handle_payment` of `FsrPayBot`, with `fuel` for the wait; `payment_response` is a bot's own.
  unfoldable pub handle_payment :
      (ℤ → Calls String) → ℕ → String → World → Option (Result (Unit {0}) × World)
  handle_payment payment_response fuel receipt s =
      elim (get_receipt_amount_pmob out coins.parse_receipt fuel receipt s) [
        | none ↦ none
        | some (err e, s') ↦ some (err e, s')
        | some (ok none, s') ↦
            some (reply "That looked like a payment, but we couldn't parse it" s')
        | some (ok (some amount_pmob), s') ↦
            some ((payment_response amount_pmob >>= λ text. reply text) s')
      ]
