-- ===== src/Pay/Payment/Tests.antt =====
-- The theorem on `send_payment` at a wallet that builds and submits everything.
use forestfire.Prelude.{◌+◌, ◌≤◌, some, [], false}
use forestfire.Prelude.Int.{pos}
use forestfire.Prelude.Exec.{ok}
use forestfire.Value.{Value, str, dict, end, field}
use forestfire.Value.Access.{entry}
use forestfire.Pay.{World, Outside}
use forestfire.Pay.Payment.{Coins, send_payment}
use forestfire.Pay.Payment.Once
use forestfire.Pay.Submissions.{submissions}

abbrev proposal : Value
proposal = dict (
    entry "result" (
      dict (
        field "tx_proposal" (str "p") (
          field "transaction_log_id" (str "t")
            (entry "profile" (dict (entry "mobileCoinAddress" (str "addr"))))))))

abbrev out : Outside
out = record {
  answer = λ events. ok proposal;
  secret = λ name. "";
  int_of = λ v. ok (pos 0);
  str_of = λ v. "";
  has_null_error = λ v. false;
}

abbrev coins : Coins
coins = record {
  to_b58 = λ v. ok "addr58";
  receipt_of = λ v. ok "receipt";
  parse_receipt = λ text. ok end;
  mob_text = λ n. "0.1";
  fee_pmob = 400000000;
}

abbrev world : World
world = record { account_id = some (str "account"); events = [] }

send_payment-submissions_example :
    submissions (send_payment out coins "alice" (pos 7) "sent" 60 end world).1.events ≤ 0 + 1
send_payment-submissions_example =
    Once.send_payment-submissions out coins "alice" (pos 7) "sent" 60 end world
