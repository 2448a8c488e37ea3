-- ===== src/Alias/Tests.antt =====
-- The theorems on topic aliases at concrete inputs.
use artemisia.Base.{◌≡◌, refl, arith, true, some, List, [], ◌∷◌, ◌==◌, if◌then◌else◌}
use artemisia.Alias.{Alias, alias_add, alias_find, replace_loop, copied}
use artemisia.Alias.Laws.{alias_find-alias_add}

abbrev aliases : List Alias
aliases =
    record { topic = some (97 ∷ []); alias = 1 } ∷ record { topic = some (98 ∷ []); alias = 2 } ∷ []

alias_find-alias_add_example :
    alias_find (alias_add aliases (99 ∷ []) 2 true true).0 1 true
    ≡ (if 1 == 2 then copied (99 ∷ []) else alias_find aliases 1 true)
unfolding alias_add replace_loop
alias_find-alias_add_example =
    alias_find-alias_add aliases (99 ∷ []) 2 1 true true (omega arith) refl
