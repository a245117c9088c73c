-- ===== src/Pay/Payment/Once.antt =====
-- How often `send_payment` submits a transaction.
use forestfire.Prelude.{
  ℕ, zero, suc, ◌+◌, ◌≤◌, String, Bool, true, false, not, ◌&&◌, Option, none, some, truthy, ◌==◌,
  string_eq, nat_eq, ◌≡◌, refl,
}
use forestfire.Prelude.Int.{ℤ}
use forestfire.Value.{Value, Fields, is_true}
use forestfire.Pay.{World, Outside, full_service, await_task, sleep}
use forestfire.Pay.Mobster.{req, req_}
use forestfire.Pay.Payment.{
  Coins, get_signalpay_address, mob_request, confirm_tx_timeout, submit, notify, send_payment,
  report, require_address, refuse_error, tx_status, is_final, finish, after_submit, no_result,
  failed,
}
use forestfire.Pay.Submissions.{
  submissions, Quiet, Once, lift-Quiet, pure-Quiet, raise-Quiet, Quiet-Once, if-Quiet, if-Once,
  bind-Quiet, after-Once, before-Once, ask-Quiet, ask-Once, tell-Quiet, req_-Quiet,
  get_account-Quiet,
}

module _ (out : Outside) (coins : Coins) where
  report-Quiet : (b : Bool) (v : Value) (fs : Fields) → Quiet (report out coins b v fs)
  unfolding report
  report-Quiet false v fs = pure-Quiet tt
  report-Quiet true v fs = bind-Quiet _ _ (ask-Quiet out _ refl) λ _. pure-Quiet tt

  mob_request-Quiet :
      (method : String) (params : Fields)
      → (method == "submit_transaction") ≡ false
      → Quiet (mob_request out coins method params)
  unfolding mob_request
  mob_request-Quiet method params h = bind-Quiet _ _ (req_-Quiet out method params h) λ result.
      bind-Quiet _ _ (lift-Quiet _)
        λ is_error. bind-Quiet _ _ (report-Quiet is_error result params) λ _. pure-Quiet result

  mob_request-Once :
      (method : String) (params : Fields) → Once (mob_request out coins method params)
  unfolding mob_request req_ req
  mob_request-Once method params =
      before-Once _ _
        (before-Once _ _ (ask-Once out (full_service method (some params)))
          λ result. bind-Quiet _ _ (lift-Quiet _) λ failed. pure-Quiet result)
        λ result.
          bind-Quiet _ _ (lift-Quiet _)
            λ is_error. bind-Quiet _ _ (report-Quiet is_error result params) λ _. pure-Quiet result

  address-Quiet : (recipient : String) → Quiet (get_signalpay_address out coins recipient)
  unfolding get_signalpay_address
  address-Quiet recipient = bind-Quiet _ _ (ask-Quiet out _ refl) λ blob.
      bind-Quiet _ _ (lift-Quiet _) λ result. bind-Quiet _ _ (lift-Quiet _) λ profile.
        bind-Quiet _ _ (lift-Quiet _) λ b64.
          if-Quiet (is_true b64) _ _ (bind-Quiet _ _ (lift-Quiet _) λ a. pure-Quiet (some a))
            (pure-Quiet none)

  require-Quiet : (a : Option String) → Quiet (require_address out coins a)
  unfolding require_address
  require-Quiet none = raise-Quiet _
  require-Quiet (some a) = if-Quiet (truthy a) _ _ (pure-Quiet a) (raise-Quiet _)

  refuse-Quiet : (e : Value) → Quiet (refuse_error out coins e)
  unfolding refuse_error
  refuse-Quiet e = if-Quiet (is_true e) _ _ (raise-Quiet _) (pure-Quiet tt)

  submit-Once :
      (timeout : ℕ) (prop tx_id comment account_id : Value)
      → Once (submit out coins timeout prop tx_id comment account_id)
  unfolding submit
  submit-Once timeout prop tx_id comment account_id =
      if-Once (not (timeout == 0)) _ _ (mob_request-Once _ _) (
        if-Once (is_true prop && is_true tx_id) _ _ (mob_request-Once _ _)
          (Quiet-Once _ (pure-Quiet _)))

  tx_status-Quiet : (tx_id : Value) → Quiet (tx_status out coins tx_id)
  unfolding tx_status
  tx_status-Quiet tx_id = bind-Quiet _ _ (mob_request-Quiet "get_transaction_log" _ refl) λ answer.
      bind-Quiet _ _ (lift-Quiet _) λ result. bind-Quiet _ _ (lift-Quiet _) λ log. lift-Quiet _

  confirm-Quiet :
      (tx_id : Value) (n : ℕ) (v : Value) → Quiet (confirm_tx_timeout out coins tx_id n v)
  unfolding confirm_tx_timeout
  confirm-Quiet tx_id zero v = pure-Quiet v
  confirm-Quiet tx_id (suc n) v =
      let ih = confirm-Quiet tx_id n in
      bind-Quiet _ _ (tx_status-Quiet tx_id) λ status'.
        if-Quiet (is_final out coins status') _ _ (pure-Quiet status')
          (bind-Quiet _ _ (tell-Quiet out (sleep 1) refl) λ _. ih status')

  finish-Quiet : (timeout : ℕ) (tx_id : Value) → Quiet (finish out coins timeout tx_id)
  unfolding finish
  finish-Quiet zero tx_id = bind-Quiet _ _ (ask-Quiet out await_task refl) λ resp. pure-Quiet _
  finish-Quiet (suc timeout) tx_id =
      bind-Quiet _ _ (confirm-Quiet tx_id (suc timeout) _)
        λ status. bind-Quiet _ _ (ask-Quiet out await_task refl) λ resp. pure-Quiet _

  notify-Quiet :
      (recipient receipt_message : String) (timeout : ℕ) (prop tx_id account_id : Value)
      → Quiet (notify out coins recipient receipt_message timeout prop tx_id account_id)
  unfolding notify
  notify-Quiet recipient receipt_message timeout prop tx_id account_id =
      bind-Quiet _ _ (mob_request-Quiet "create_receiver_receipts" _ refl) λ answer.
        bind-Quiet _ _ (lift-Quiet _) λ result. bind-Quiet _ _ (lift-Quiet _) λ receipts.
          bind-Quiet _ _ (lift-Quiet _) λ receipt. bind-Quiet _ _ (lift-Quiet _) λ full.
            bind-Quiet _ _ (lift-Quiet _)
              λ b64. bind-Quiet _ _ (tell-Quiet out _ refl) λ _. finish-Quiet timeout tx_id

  after-Quiet :
      (recipient receipt_message : String) (timeout : ℕ) (prop tx_id account_id tx_result : Value)
      → Quiet
          (after_submit out coins recipient receipt_message timeout prop tx_id account_id tx_result)
  unfolding after_submit
  after-Quiet recipient receipt_message timeout prop tx_id account_id tx_result =
      bind-Quiet _ _ (lift-Quiet _) λ is_internal. bind-Quiet _ _ (lift-Quiet _) λ is_sent.
        if-Quiet is_internal _ _ (pure-Quiet no_result) (
          if-Quiet (not is_sent) _ _ (pure-Quiet (failed tx_id))
            (notify-Quiet recipient receipt_message timeout prop tx_id account_id))

  send_payment-Once :
      (recipient : String) (amount_pmob : ℤ) (receipt_message : String) (timeout : ℕ)
      (params : Fields)
      → Once (send_payment out coins recipient amount_pmob receipt_message timeout params)
  unfolding send_payment
  send_payment-Once recipient amount_pmob receipt_message timeout params =
      after-Once _ _ (address-Quiet recipient) λ found.
        after-Once _ _ (get_account-Quiet out) λ account_id.
          after-Once _ _ (require-Quiet found) λ address.
            after-Once _ _ (mob_request-Quiet "build_transaction" _ refl) λ raw_prop.
              after-Once _ _ (lift-Quiet _) λ e. after-Once _ _ (refuse-Quiet e) λ _.
                after-Once _ _ (lift-Quiet _) λ result. after-Once _ _ (lift-Quiet _) λ prop.
                  after-Once _ _ (lift-Quiet _) λ tx_id. after-Once _ _ (lift-Quiet _) λ comment.
                    before-Once _ _ (submit-Once timeout prop tx_id comment account_id) λ tx_result.
                      after-Quiet recipient receipt_message timeout prop tx_id account_id tx_result

  -- Whatever the wallet and signal-cli answer, and however it ends, `send_payment` submits at most one
  -- transaction.
  pub send_payment-submissions :
      (recipient : String) (amount_pmob : ℤ) (receipt_message : String) (timeout : ℕ)
      (params : Fields) (s : World)
      → submissions
          (send_payment out coins recipient amount_pmob receipt_message timeout params s).1.events
        ≤ submissions s.events + 1
  send_payment-submissions recipient amount_pmob receipt_message timeout params s =
      (send_payment-Once recipient amount_pmob receipt_message timeout params).one s
