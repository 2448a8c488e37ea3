-- ===== src/Alias/Laws.antt =====
-- The list of aliases is a map from aliases to topics.
use artemisia.Base.{
  ℕ, ◌%◌, ◌^◌, ◌<◌, ◌≡◌, refl, ap, ◌∙◌, arith, inl, inr, Bool, true, false, Bool-cases, Option,
  none, some, List, [], ◌∷◌, ◌++◌, Bytes, Rc, ◌==◌, if◌then◌else◌,
}
use artemisia.Alias.{
  Alias, strdup, replace_loop, append_alias, alias_add, nomem_if_null, copied, code, fault,
  copy_topic, alias_find,
}

-- What one entry more or another topic does to the search.
data Replacing (alias : ℕ) (copy : Option Bytes) (aliases : List Alias)
    : Option (List Alias) → Type 0 where
  absent :
      alias_find aliases alias true ≡ code Rc.inval
      → ((k : ℕ) (t : Option Bytes)
          → alias_find (aliases ++ (record { topic = t; alias = alias } ∷ [])) k true
            ≡ (if k == alias then copy_topic true t else alias_find aliases k true))
      → Replacing alias copy aliases none
  replaced :
      (new : List Alias)
      → ((k : ℕ)
          → alias_find new k true
            ≡ (if k == alias then copy_topic true copy else alias_find aliases k true))
      → Replacing alias copy aliases (some new)

replace_loop-Replacing :
    (alias : ℕ) (copy : Option Bytes) (aliases : List Alias)
    → Replacing alias copy aliases (replace_loop alias copy aliases)
unfolding replace_loop alias_find
replace_loop-Replacing alias copy [] = absent refl (λ k t. ground arith)
replace_loop-Replacing alias copy (a ∷ aliases) = elim (Bool-cases (a.alias == alias)) [
  | inl same ↦ rw same (replaced (record a { topic = copy } ∷ aliases) (λ k. ground arith))
  | inr other ↦ rw other (behind other (replace_loop-Replacing alias copy aliases))
]
  where
    behind :
        {r : Option (List Alias)}
        → (a.alias == alias) ≡ false
        → Replacing alias copy aliases r
        → Replacing alias copy
            (a ∷ aliases)
            (elim r [ none ↦ none | some rest_ ↦ some (a ∷ rest_) ])
    behind h (absent none_there new) = absent (rw h none_there) (λ k t. ground (arith, new k t))
    behind h (replaced new same) = replaced (a ∷ new) (λ k. ground (arith, same k))

-- Where `alias__add` succeeds, `alias__find` gives the new topic for the alias and what it gave
-- before for every other one, if strdup has room.
pub alias_find-alias_add :
    (aliases : List Alias) (topic : Bytes) (alias k : ℕ) (mem1 mem2 : Bool)
    → alias < 2 ^ 16
    → (alias_add aliases topic alias mem1 mem2).1 ≡ Rc.success
    → alias_find (alias_add aliases topic alias mem1 mem2).0 k true
      ≡ (if k == alias then copied topic else alias_find aliases k true)
unfolding alias_add
alias_find-alias_add aliases topic alias k mem1 mem2 small ok =
    added mem1 mem2 (replace_loop-Replacing alias (strdup mem1 topic) aliases) ok
  where
    result : Bool → Bool → Option (List Alias) → List Alias × Rc
    result mem1 mem2 r = elim r [
      | some changed ↦ (changed, nomem_if_null (strdup mem1 topic))
      | none ↦ if mem2 then append_alias alias (strdup mem1 topic) aliases else (aliases, Rc.nomem)
    ]

    added :
        (mem1 mem2 : Bool) {r : Option (List Alias)}
        → Replacing alias (strdup mem1 topic) aliases r
        → (result mem1 mem2 r).1 ≡ Rc.success
        → alias_find (result mem1 mem2 r).0 k true
          ≡ (if k == alias then copied topic else alias_find aliases k true)
    added true mem2 (replaced new same) ok = same k
    added false mem2 (replaced new same) ok = cc
    added true true (absent none_there new) ok =
        let same : alias % 2 ^ 16 ≡ alias = omega arith in
        ap (λ a. alias_find (aliases ++ (record { topic = some topic; alias = a } ∷ [])) k true)
          same
        ∙ new k (some topic)
    added false true (absent none_there new) ok = cc
    added true false (absent none_there new) ok = cc
    added false false (absent none_there new) ok = cc

-- Where strdup fails for an alias that is first in the list, the alias keeps a null pointer, and
-- `alias__find` copies from it.
pub alias_find_null :
    (old : Option Bytes) (aliases : List Alias) (topic : Bytes) (alias : ℕ) (mem mem2 : Bool)
    → alias_find
        (alias_add (record { topic = old; alias = alias } ∷ aliases) topic alias false mem2).0
        alias
        mem
      ≡ fault
unfolding alias_add replace_loop alias_find
alias_find_null old aliases topic alias mem mem2 =
    let here : (alias == alias) ≡ true = ground arith in
    rw (alias_add, replace_loop, here, alias_find, here)
