-- ===== src/Alias.antt =====
-- The topic aliases of alias_mosq.c, with `struct mosquitto__alias` of
-- include/mosquitto_internal.h.
pub mod Laws
mod Tests
use artemisia.Base.{
  ℕ, suc, ◌+◌, ◌%◌, ◌^◌, Bool, true, false, Option, none, some, List, [], ◌∷◌, ◌++◌, Bytes, Rc,
  ◌==◌, if◌then◌else◌,
}

-- `none` is a null pointer.
pub record Alias : Type 0 where
  pub topic : Option Bytes
  pub alias : ℕ

abbrev pub strdup : Bool → Bytes → Option Bytes
strdup true text = some text
strdup false text = none

abbrev pub nomem_if_null : Option Bytes → Rc
nomem_if_null none = Rc.nomem
nomem_if_null (some text) = Rc.success

-- The loop of `alias__add`: the topic of the first entry with the alias is replaced, or there is
-- none.
pub replace_loop : ℕ → Option Bytes → List Alias → Option (List Alias)
replace_loop alias copy [] = none
replace_loop alias copy (a ∷ aliases) =
    let rest = replace_loop alias copy aliases in
    if a.alias == alias
    then some (record a { topic = copy } ∷ aliases)
    else elim rest [ none ↦ none | some rest_ ↦ some (a ∷ rest_) ]

-- A new entry, where realloc gave the room: a uint16_t and the copy of the topic.
abbrev pub append_alias : ℕ → Option Bytes → List Alias → List Alias × Rc
append_alias alias none aliases = (aliases, Rc.nomem)
append_alias alias (some text) aliases =
    (aliases ++ (record { topic = some text; alias = alias % 2 ^ 16 } ∷ []), Rc.success)

-- `mem1` is the answer of strdup and `mem2` that of realloc.
pub alias_add : List Alias → Bytes → ℕ → Bool → Bool → List Alias × Rc
alias_add aliases topic alias mem1 mem2 = elim (replace_loop alias (strdup mem1 topic) aliases) [
  | some replaced ↦ (replaced, nomem_if_null (strdup mem1 topic))
  | none ↦ if mem2 then append_alias alias (strdup mem1 topic) aliases else (aliases, Rc.nomem)
]

-- What `alias__find` stores and returns; `fault` is a strdup of a null pointer.
pub data Found : Type 0 where
  copied : Bytes → Found
  code : Rc → Found
  fault : Found

abbrev pub copy_topic : Bool → Option Bytes → Found
copy_topic mem none = fault
copy_topic true (some text) = copied text
copy_topic false (some text) = code Rc.nomem

pub alias_find : List Alias → ℕ → Bool → Found
alias_find [] alias mem = code Rc.inval
alias_find (a ∷ aliases) alias mem =
    let rest = alias_find aliases alias mem in
    if a.alias == alias then copy_topic mem a.topic else rest

pub alias_free_all : List Alias → List Alias
alias_free_all aliases = []
