-- ===== src/Pay/Mobster/Txos.antt =====
-- forest/payments_monitor.py: the outputs that a wallet holds, and `split_txos_slow`.
use forestfire.Prelude.{
  ℕ, zero, suc, ◌+◌, ◌*◌, String, Bool, true, false, Option, none, some, List, [], ◌∷◌, ◌++◌,
  if◌then◌else◌, ltb, string_eq,
}
use forestfire.Prelude.Int.{ℤ, pos, ltb_ℤ, ◌+ℤ◌}
use forestfire.Prelude.Exec.{Result, ok, err, type_error, index_error}
use forestfire.Prelude.Dict.{Dict}
use forestfire.Value.{
  Value, dict, list, tuple, str, int, null, Items, nil, cons, Fields, end, field, same, is_true,
}
use forestfire.Value.Access.{get_item, entries, entry}
use forestfire.Pay.{Calls, pure, raise, lift, ◌>>=◌, ◌>>◌, World, Outside, sleep, tell}
use forestfire.Pay.Mobster.{req_, get_account, text_key}

-- `sorted`, by the amount: stable
unfoldable pub insert_utxo : String × ℤ → Dict String ℤ → Dict String ℤ
insert_utxo x [] = x ∷ []
insert_utxo x (y ∷ ys) =
    let later = insert_utxo x ys in if ltb_ℤ y.1 x.1 then y ∷ later else x ∷ y ∷ ys

unfoldable pub sort_utxos : Dict String ℤ → Dict String ℤ
sort_utxos [] = []
sort_utxos (x ∷ xs) = insert_utxo x (sort_utxos xs)

unfoldable pub total : Dict String ℤ → ℤ
total [] = pos 0
total ((txo, value) ∷ utxos) = value +ℤ total utxos

-- `list(reversed(utxos.items()))`, a pair for each, and `list(reversed(utxos))`, the keys alone
abbrev pub reversed_items : Dict String ℤ → List Value
reversed_items [] = []
reversed_items ((txo, value) ∷ utxos) =
    reversed_items utxos ++ (tuple (cons (str txo) (cons (int value) nil)) ∷ [])

abbrev pub reversed_keys : Dict String ℤ → List Value
reversed_keys [] = []
reversed_keys ((txo, value) ∷ utxos) = reversed_keys utxos ++ (str txo ∷ [])

-- `[v for _ in range(n)]`
abbrev pub times : ℕ → Value → Items
times zero v = nil
times (suc n) v = cons v (times n v)

-- `**v` of a call
abbrev pub keywords : Value → Result Fields
keywords (dict fs) = ok fs
keywords _ = err type_error

abbrev pub some_of : Result ℕ → Result (Option ℕ)
some_of (ok n) = ok (some n)
some_of (err e) = err e

abbrev pub with_some : Option (Result ℕ × World) → Option (Result (Option ℕ) × World)
with_some none = none
with_some (some (r, s)) = some (some_of r, s)

module _ (out : Outside) where
  unfoldable pub get_all_txos_for_account : Calls Value
  get_all_txos_for_account = do
    account_id ← get_account out
    answer ← req_ out "get_all_txos_for_account" (entry "account_id" account_id)
    result ← lift (get_item answer "result" (dict end))
    lift (get_item result "txo_map" (dict end))

  -- The test of the comprehension, and the amount.
  unfoldable pub unspent : Value → Calls Bool
  unspent status = do
    accounts ← lift (get_item status "account_status_map" (dict end))
    account_id ← get_account out
    key ← lift (text_key account_id)
    account ← lift (get_item accounts key (dict end))
    txo_status ← lift (get_item account "txo_status" null)
    pure (same txo_status (str "txo_status_unspent"))

  unfoldable pub amount : Bool → String → Value → Calls (Dict String ℤ)
  amount false txo status = pure []
  amount true txo status = do
    value ← lift (get_item status "value_pmob" (int (pos 0)))
    value_pmob ← lift (out.int_of value)
    pure ((txo, value_pmob) ∷ [])

  unfoldable pub utxos_of : Fields → Calls (Dict String ℤ)
  utxos_of end = pure []
  utxos_of (field txo status txos) = do
    is_unspent ← unspent status
    here ← amount is_unspent txo status
    rest ← utxos_of txos
    pure (here ++ rest)

  unfoldable pub get_utxos : Calls (Dict String ℤ)
  get_utxos = do
    found ← get_all_txos_for_account
    txos ← lift (entries found)
    utxos ← utxos_of txos
    pure (sort_utxos utxos)

  -- One round of the loop, on the outputs that are left and the number built.
  unfoldable pub submitted : Value → Calls Value
  submitted params =
      if is_true params
      then (lift (keywords params) >>= req_ out "submit_transaction")
      else pure (dict end)

  unfoldable pub refilled : List Value → Calls (List Value)
  refilled [] = do utxos ← get_utxos; pure (reversed_keys utxos)
  refilled (txo ∷ utxos) = pure (txo ∷ utxos)

  unfoldable pub popped : List Value → Calls (Value × List Value)
  popped [] = raise index_error
  popped (txo ∷ utxos) = pure (txo, utxos)

  unfoldable pub counted : ℕ → Value → Calls ℕ
  counted built done = if is_true done then (tell (sleep 2) >> pure (built + 15)) else pure built

  -- 400 micromob and the output itself, in picomob
  abbrev pub output_value : ℕ → ℕ
  output_value output_millimob = output_millimob * 1000000000 + 400 * 1000000

  unfoldable pub split_round : ℕ → List Value × ℕ → Calls (List Value × ℕ)
  split_round output_millimob (utxos, built) = do
    left ← refilled utxos
    (txo, rest) ← popped left
    split_transaction ← req_ out "build_split_txo_transaction" (
        field "txo_id" txo (
          entry "output_values"
            (list (times 15 (str (out.str_of (int (pos (output_value output_millimob)))))))))
    params ← lift (get_item split_transaction "result" (dict end))
    results ← submitted params
    done ← lift (get_item results "results" null)
    built' ← counted built done
    pure (rest, built')

  -- `while built < (target_quantity + 3)`; `none` at the end of the fuel
  unfoldable pub split_loop : ℕ → ℕ → ℕ → List Value × ℕ → World → Option (Result ℕ × World)
  split_loop zero output_millimob target_quantity (utxos, built) s = none
  split_loop (suc fuel) output_millimob target_quantity (utxos, built) s =
      elim (ltb built (target_quantity + 3)) [
        | false ↦ some (ok built, s)
        | true ↦
            let (r, s') = split_round output_millimob (utxos, built) s in
            elim r [
              | err e ↦ some (err e, s')
              | ok left ↦ split_loop fuel output_millimob target_quantity left s'
            ]
      ]

  -- The number of outputs that were built, `none` where the wallet holds too little.
  unfoldable pub split_txos_slow : ℕ → ℕ → ℕ → World → Option (Result (Option ℕ) × World)
  split_txos_slow fuel output_millimob target_quantity s =
      let (r, s') = get_utxos s in
      elim r [
        | err e ↦ some (err e, s')
        | ok utxos ↦
            if ltb_ℤ (total utxos) (pos (output_millimob * 1000000000 * target_quantity))
            then some (ok none, s')
            else with_some
                (split_loop fuel output_millimob target_quantity (reversed_items utxos, 0) s')
      ]
