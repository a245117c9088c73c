-- ===== src/Synonym/Words.antt =====
-- The words that stand under the commands of a dictionary.
use forestfire.Prelude.{
  String, Bool, true, false, some, [], ◌∷◌, ◌==◌, string_eq, if◌then◌else◌, Bool-cases, keep, ◌≡◌,
  refl, sym, ap, ◌∙◌, ◌⊎◌, inl, inr, arith, eq_refl, eq_iff,
}
use forestfire.Prelude.Exec.{Result, ok, err, bind}
use forestfire.Prelude.Dict
use forestfire.Prelude.Dict.{Dict, get-put}
use forestfire.Value.{Value, str, list, Items, nil, cons, same}
use forestfire.Value.Access.{key_in}
use forestfire.Persist.Lists.{append}
use forestfire.Synonym.{Synonyms, any_has, command_of}

-- Apart from the entry of `k`, no entry has the word.
abbrev pub Only : String → String → Synonyms → Type 0
Only word k [] = Unit
Only word k ((j, v) ∷ d) = ((j ≡ k) ⊎ (key_in word v ≡ ok false)) × Only word k d

pub any_has-Only : (word k : String) (d : Synonyms) → any_has word d ≡ ok false → Only word k d
unfolding any_has
any_has-Only word k [] h = tt
any_has-Only word k ((j, v) ∷ d) h = go (key_in word v) refl h (any_has-Only word k d)
  where
    go :
        (r : Result Bool)
        → key_in word v ≡ r
        → bind r (λ found. if found then ok true else any_has word d) ≡ ok false
        → (any_has word d ≡ ok false → Only word k d)
        → Only word k ((j, v) ∷ d)
    go (err e) e' h rest = cc
    go (ok true) e' h rest = cc
    go (ok false) e' h rest = (inr e', rest h)

module _ (p : String → Bool) where
  abbrev pub chosen : Synonyms → Synonyms
  chosen d = keep (λ entry. p entry.0) d

  pub put-Only :
      (word k : String) (v : Value) (d : Synonyms)
      → Only word k (chosen d)
      → Only word k (chosen (Dict.put d k v))
  unfolding Dict.put
  put-Only word k v [] o = elim (Bool-cases (p k)) [ inl e ↦ rw e (inl refl, tt) | inr e ↦ rw e tt ]
  put-Only word k v ((j, w) ∷ d) o = elim (Bool-cases (j == k)) [
    | inl same ↦ elim (Bool-cases (p j)) [
      | inl e ↦ rw (same, e) (inl ((eq_iff j k).0 same), (rw e at o).1)
      | inr e ↦ rw (same, e) (rw e at o)
    ]
    | inr differ ↦ elim (Bool-cases (p j)) [
      | inl e ↦ rw (differ, e) ((rw e at o).0, put-Only word k v d (rw e at o).1)
      | inr e ↦ rw (differ, e) (put-Only word k v d (rw e at o))
    ]
  ]

  pub get-keep : (k : String) (d : Synonyms) → p k ≡ true → Dict.get (chosen d) k ≡ Dict.get d k
  unfolding Dict.get
  get-keep k [] h = refl
  get-keep k ((j, w) ∷ d) h = ground (arith, get-keep k d h, eq_iff j k)

pub false-ne-true : false ≡ true → ⊥
false-ne-true h = cc

pub command_of-Only :
    (word k : String) (v : Value) (d : Synonyms)
    → Only word k d
    → Dict.get d k ≡ some v
    → key_in word v ≡ ok true
    → command_of word d ≡ ok (some k)
unfolding command_of Dict.get
command_of-Only word k v [] o g h = cc
command_of-Only word k v ((j, w) ∷ d) o g h = elim (Bool-cases (j == k)) [
  | inl alike ↦
      let e : w ≡ v = ground (arith, rw alike at g) in
      rw (e, h) (ap (λ i. ok (some i)) ((eq_iff j k).0 alike))
  | inr differ ↦ elim o.0 [
    | inl e ↦ absurd (false-ne-true (sym differ ∙ (eq_iff j k).1 e))
    | inr e ↦ rw e (command_of-Only word k v d o.1 (rw differ at g) h)
  ]
]

-- A word at the end of a list is found there.
pub key_in-append :
    (word : String) (vs : Items) → key_in word (list (append vs (str word))) ≡ ok true
unfolding key_in append same
key_in-append word nil = ground (arith, eq_refl word)
key_in-append word (cons v vs) = ground (arith, key_in-append word vs)

-- A text that stands in the value at `k`.
pub record Stands (text k : String) (d : Synonyms) : Type 0 where
  pub value : Value
  pub stored : Dict.get d k ≡ some value
  pub has : key_in text value ≡ ok true

pub not_in_nil : (text : String) → key_in text (list nil) ≡ ok true → ⊥
unfolding key_in
not_in_nil text h = cc

-- And nothing else has come to be there.
pub key_in-append_split :
    (text word : String) (vs : Items)
    → key_in text (list (append vs (str word))) ≡ ok true
    → (text ≡ word) ⊎ (key_in text (list vs) ≡ ok true)
unfolding key_in append same
key_in-append_split text word nil h = inl ((eq_iff text word).0 (ground arith))
key_in-append_split text word (cons v vs) h = elim (Bool-cases (same (str text) v)) [
  | inl e ↦ inr (ground arith)
  | inr e ↦ elim (key_in-append_split text word vs (ground arith)) [
    | inl alike ↦ inl alike
    | inr old ↦ inr (ground arith)
  ]
]

pub grown_one :
    (word k : String) (d : Synonyms) (text : String)
    → key_in text (list (cons (str word) nil)) ≡ ok true
    → (text ≡ word) ⊎ Stands text k d
unfolding append
grown_one word k d text h = elim (key_in-append_split text word nil h) [
  | inl alike ↦ inl alike
  | inr none_there ↦ absurd (not_in_nil text none_there)
]

pub grown_list :
    (word k : String) (vs : Items) (d : Synonyms) (text : String)
    → Dict.get d k ≡ some (list vs)
    → key_in text (list (append vs (str word))) ≡ ok true
    → (text ≡ word) ⊎ Stands text k d
grown_list word k vs d text e h = elim (key_in-append_split text word vs h) [
  | inl alike ↦ inl alike
  | inr old ↦ inr (record { value = list vs; stored = e; has = old })
]
