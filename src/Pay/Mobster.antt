-- ===== src/Pay/Mobster.antt =====
-- forest/payments_monitor.py, class `Mobster`: the requests to the full-service wallet.
pub mod Rate
pub mod Receipts
mod Tests
pub mod Txos
use forestfire.Prelude.{
  ℕ, zero, suc, ◌+◌, String, Bool, true, false, not, ◌&&◌, Option, none, some, List, [], ◌∷◌,
  if◌then◌else◌, truthy, ◌==◌, string_eq,
}
use forestfire.Prelude.Int.{ℤ, pos, negsuc, ltb_ℤ}
use forestfire.Prelude.Exec.{
  Exc, Result, ok, err, value_error, type_error, index_error, key_error, bind,
}
use forestfire.Value.{
  Value, dict, list, str, null, bool, Items, nil, cons, Fields, end, field, same, is_true,
}
use forestfire.Value.Access.{item, get_item, key_in, first_item, elements, entries, entry}
use forestfire.Pay.{
  Calls, pure, raise, lift, modify, ◌>>=◌, ◌>>◌, Event, World, Outside, full_service, sleep, ask,
  tell,
}

-- A value as the key of a dictionary with texts as its keys: a list cannot be one.
abbrev pub text_key : Value → Result String
text_key (str s) = ok s
text_key (list vs) = err type_error
text_key (dict fs) = err type_error
text_key _ = err key_error

abbrev pub prepend : Value → Result (List Value) → Result (List Value)
prepend v (ok vs) = ok (v ∷ vs)
prepend v (err e) = err e

abbrev pub do_unit : Result Value × World → Result (Unit {0}) × World
do_unit (ok v, s) = (ok tt, s)
do_unit (err e, s) = (err e, s)

module _ (out : Outside) where
  -- `req`: a request without parameters that is refused for it is made once more, with none.
  unfoldable pub req : String → Option Fields → Calls Value
  req method (some params) = ask out (full_service method (some params))
  req method none = do
    result ← ask out (full_service method none)
    if out.has_null_error result then ask out (full_service method (some end)) else pure result

  -- `req_`, whose log asks whether the result is an error
  unfoldable pub req_ : String → Fields → Calls Value
  req_ method params = do
    result ← req method (some params)
    failed ← lift (key_in "error" result)
    pure result

  unfoldable pub fsr_get_accounts : Calls Value
  fsr_get_accounts = req "get_accounts" (some end)

  -- (await self.fsr_get_accounts())["result"]["account_map"][x] for x in account_ids
  unfoldable pub account_map : Items → Calls (List Value)
  account_map nil = pure []
  account_map (cons x xs) = do
    accounts ← fsr_get_accounts
    result ← lift (item accounts "result")
    map ← lift (item result "account_map")
    key ← lift (text_key x)
    account ← lift (item map key)
    rest ← account_map xs
    pure (account ∷ rest)

  -- [x["id"] for x in account_map if x["name"] == account_name]
  unfoldable pub ids_named : String → List Value → Result (List Value)
  ids_named name [] = ok []
  ids_named name (x ∷ xs) =
      let rest = ids_named name xs in
      elim (item x "name") [
        | err e ↦ err e
        | ok n ↦
            if same n (str name)
            then elim (item x "id") [ err e ↦ err e | ok i ↦ prepend i rest ]
            else rest
      ]

  abbrev pub has_id : Option Value → Bool
  has_id (some (str s)) = true
  has_id _ = false

  abbrev pub or_null : Option Value → Value
  or_null none = null
  or_null (some v) = v

  unfoldable pub pick_account : Value → List Value → Calls Value
  pick_account account_ids [] = lift (first_item account_ids)
  pick_account account_ids (i ∷ ids) = pure i

  -- `get_account`, of the name in the secrets, which is a text and never `None`
  unfoldable pub find_account : Calls Value
  find_account = do
    accounts ← fsr_get_accounts
    result ← lift (item accounts "result")
    account_ids ← lift (item result "account_ids")
    xs ← lift (elements account_ids)
    found ← account_map xs
    ids ← lift (ids_named (out.secret "FS_ACCOUNT_NAME") found)
    account_id ← pick_account account_ids ids
    modify (λ s. record s { account_id = some account_id })
    pure account_id

  unfoldable pub get_account : Calls Value
  get_account s = if has_id s.account_id then (ok (or_null s.account_id), s) else find_account s

  unfoldable pub get_my_address : Calls Value
  get_my_address = do
    acc_id ← get_account
    res ← fsr_get_accounts
    result ← lift (item res "result")
    map ← lift (item result "account_map")
    key ← lift (text_key acc_id)
    account ← lift (item map key)
    lift (item account "main_address")

  unfoldable pub import_account : Calls Value
  import_account =
      if truthy (out.secret "MNEMONIC")
      then req "import_account" (
          some (
            field "mnemonic" (str (out.secret "MNEMONIC")) (
              field "key_derivation_version" (str "1") (
                field "name" (str "bot") (
                  field "next_subaddress_index" (str "2")
                    (entry "first_block_index" (str "3500")))))))
      else raise value_error

  unfoldable pub create_address : Calls Value
  create_address =
      if truthy (out.secret "MNEMONIC")
      then import_account
      else req_ "create_account" (entry "name" (str "bot"))

  -- The handler of `ensure_address` catches an `IndexError` and nothing else.
  unfoldable pub ensured : Result Value × World → Result (Unit {0}) × World
  ensured (ok v, s) = (ok tt, s)
  ensured (err index_error, s) = do_unit (create_address s)
  ensured (err e, s) = (err e, s)

  unfoldable pub ensure_address : Calls Value
  ensure_address = do λ s. ensured (get_my_address s); get_my_address

  unfoldable pub get_balance : Calls ℤ
  get_balance = do
    account_id ← get_account
    answer ← req "get_balance" (some (entry "account_id" account_id))
    result ← lift (item answer "result")
    per_token ← lift (item result "balance_per_token")
    mob ← lift (get_item per_token "0" (dict end))
    value ← lift (get_item mob "unspent" (str "0"))
    lift (out.int_of value)

  unfoldable pub get_transactions : String → Calls Value
  get_transactions account_id = do
    answer ← req "get_all_transaction_logs_for_account" (some (entry "account_id" (str account_id)))
    result ← lift (item answer "result")
    lift (item result "transaction_log_map")

  unfoldable pub build_single_txo_proposal : String → String → Calls Value
  build_single_txo_proposal recipient amount = do
    account_id ← get_account
    req "build_transaction" (
        some (
          field "account_id" account_id (
            field "recipient_public_address" (str recipient)
              (field "value_pmob" (str amount) (entry "log_tx_proposal" (bool true))))))

  unfoldable pub build_multi_txo_proposal : Items → Calls Value
  build_multi_txo_proposal txo_proposals = do
    account_id ← get_account
    req "build_transaction" (
        some (
          field "account_id" account_id (
            field "addresses_and_values" (list txo_proposals)
              (entry "log_tx_proposal" (bool true)))))

  unfoldable pub get_all_transaction_logs_by_block : Calls Value
  get_all_transaction_logs_by_block = req "get_all_transaction_logs_ordered_by_block" none

  unfoldable pub get_block : ℤ → Calls Value
  get_block block =
      req "get_block" (some (entry "block_index" (str (out.str_of (Value.int block)))))
