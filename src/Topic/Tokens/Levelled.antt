-- ===== src/Topic/Tokens/Levelled.antt =====
-- The tokens of a topic are its levels.
use artemisia.Base.{
  ℕ, ◌+◌, ◌-◌, ◌≡◌, refl, sym, ap, ◌∙◌, arith, inl, inr, Bool, true, false, Option, none, some,
  List, [], ◌∷◌, ◌++◌, Bytes, ◌==◌, length, map, take, drop, length-append, take-append,
  drop-append, Bool-cases, if-true, if-false,
}
use mathlib.Core.List.{append_assoc, append-nil}
use artemisia.Topic.{slash}
use artemisia.Topic.Levels.{into_first, levels}
use artemisia.Topic.Tokens.{
  hier_loop, token, with_token, token_loop, tokens, tokenised, sub_topic_tokenise,
}

-- A level as a token: a null pointer for an empty one.
abbrev pub as_token : Bytes → Option Bytes
as_token [] = none
as_token (c ∷ l) = some (c ∷ l)

-- The levels of a text whose first level began before it.
abbrev begun : Bytes → List Bytes → List Bytes
begun l [] = l ∷ []
begun l (m ∷ ls) = (l ++ m) ∷ ls

levels-cons : (str : Bytes) → (l : Bytes) × (ls : List Bytes) × (levels str ≡ l ∷ ls)
unfolding levels
levels-cons [] = ([], [], refl)
levels-cons (c ∷ str) =
    let (l, ls, e) = levels-cons str in
    elim (Bool-cases (c == slash)) [
      | inl split ↦ ([], levels str, rw split refl)
      | inr on ↦ (c ∷ l, ls, rw (on, e) refl)
    ]

begun-nil : (str : Bytes) → begun [] (levels str) ≡ levels str
begun-nil str = let (l, ls, e) = levels-cons str in rw e refl

begun-one :
    (l : Bytes) (c : ℕ) (str : Bytes)
    → begun (l ++ (c ∷ [])) (levels str) ≡ begun l (into_first c (levels str))
begun-one l c str =
    let (m, ls, e) = levels-cons str in rw e (ap (λ t. t ∷ ls) (append_assoc l (c ∷ []) m))

token-level :
    (front l rest : Bytes)
    → token true (front ++ (l ++ rest)) (length front) (length front + length l) ≡ some (as_token l)
token-level front [] rest =
    let same : (length front == length front + length {A = ℕ} []) ≡ true = ground arith in
    if-true _ _ _ same
token-level front (c ∷ l) rest =
    let span : length front + length (c ∷ l) - length front ≡ length (c ∷ l) = omega arith in
    let differ : (length front == length front + length (c ∷ l)) ≡ false = ground arith in
    if-false _ _ _ differ
    ∙ ap (λ n. some (some (take n (drop (length front) (front ++ ((c ∷ l) ++ rest)))))) span
    ∙ ap (λ t. some (some (take (length (c ∷ l)) t))) (drop-append front ((c ∷ l) ++ rest))
    ∙ ap (λ t. some (some t)) (take-append (c ∷ l) rest)

module _ (mem : ℕ → Bool) (granted : (i : ℕ) → mem i ≡ true) where
  token_here :
      (front l rest : Bytes) (hier : ℕ)
      → token (mem hier) (front ++ (l ++ rest)) (length front) (length front + length l)
        ≡ some (as_token l)
  token_here front l rest hier =
      ap (λ b. token b (front ++ (l ++ rest)) (length front) (length front + length l))
        (granted hier)
      ∙ token-level front l rest

  -- At `i`, behind the levels `front` and the beginning `l` of one.
  token_loop_lem :
      (front l rest all_ : Bytes) (i start hier : ℕ)
      → all_ ≡ front ++ (l ++ rest)
      → start ≡ length front
      → i ≡ length front + length l
      → token_loop mem all_ rest i start hier ≡ some (map as_token (begun l (levels rest)))
  unfolding token_loop levels
  token_loop_lem front l [] all_ i start hier whole first here =
      rw (whole, first, here)
        (ap (λ t. with_token t (some [])) (token_here front l [] hier)
          ∙ ap (λ t. some (as_token t ∷ [])) (sym (append-nil l)))
  token_loop_lem front l (c ∷ rest) all_ i start hier whole first here =
      let last : token (mem hier) all_ start i ≡ some (as_token l) =
        rw (whole, first, here) (token_here front l (c ∷ rest) hier) in
      let further = λ (t : Bytes). front ++ t in
      elim (Bool-cases (c == slash)) [
        | inl split ↦
            let front' = front ++ (l ++ (c ∷ [])) in
            let whole' : all_ ≡ front' ++ ([] ++ rest) =
              whole
              ∙ ap further (sym (append_assoc l (c ∷ []) rest))
              ∙ sym (append_assoc front (l ++ (c ∷ [])) rest) in
            let sum = length-append front (l ++ (c ∷ [])) in
            let sum' = length-append l (c ∷ []) in
            let next =
              token_loop_lem front' [] rest all_ (i + 1) (i + 1) (hier + 1) whole'
                (omega (arith, here, sum, sum')) (omega (arith, here, sum, sum')) in
            if-true (c == slash) _ _ split
            ∙ ap (with_token (token (mem hier) all_ start i))
                (next ∙ ap (λ ls. some (map as_token ls)) (begun-nil rest))
            ∙ ap (λ t. with_token t (some (map as_token (levels rest)))) last
            ∙ ap (λ t. some (map as_token (t ∷ levels rest))) (sym (append-nil l))
            ∙ ap (λ ls. some (map as_token (begun l ls)))
                (sym (if-true (c == slash) ([] ∷ levels rest) (into_first c (levels rest)) split))
        | inr on ↦
            let whole' : all_ ≡ front ++ ((l ++ (c ∷ [])) ++ rest) =
              whole ∙ ap further (sym (append_assoc l (c ∷ []) rest)) in
            let next =
              token_loop_lem front (l ++ (c ∷ [])) rest all_ (i + 1) start hier whole' first
                (omega (arith, here, length-append l (c ∷ []))) in
            if-false (c == slash) _ _ on
            ∙ next
            ∙ ap (λ ls. some (map as_token ls)) (begun-one l c rest)
            ∙ ap (λ ls. some (map as_token (begun l ls)))
                (sym (if-false (c == slash) ([] ∷ levels rest) (into_first c (levels rest)) on))
      ]

hier_loop_lem : (str : Bytes) (n : ℕ) → hier_loop str n + 1 ≡ length (levels str) + n
unfolding hier_loop levels
hier_loop_lem [] n = omega arith
hier_loop_lem (c ∷ str) n =
    let (l, ls, e) = levels-cons str in
    ground (arith, e, ap length e, hier_loop_lem str (n + 1), hier_loop_lem str n)

-- Where there is memory, the tokens of a topic are its levels, in order, with a null pointer for an
-- empty one, and the count is that of the levels. A slash at the end is followed by an empty level,
-- and no topic is refused, be it valid UTF-8 or not.
pub sub_topic_tokenise_lem :
    (mem : ℕ → Bool) (subtopic : Bytes)
    → ((i : ℕ) → mem i ≡ true)
    → sub_topic_tokenise true mem (some subtopic)
      ≡ tokens (map as_token (levels subtopic)) (length (levels subtopic))
unfolding sub_topic_tokenise
sub_topic_tokenise_lem mem subtopic granted =
    let count : hier_loop subtopic 1 ≡ length (levels subtopic) =
      omega (arith, hier_loop_lem subtopic 1) in
    ap (tokenised (hier_loop subtopic 1)) (
      token_loop_lem mem granted [] [] subtopic subtopic 0 0 0 refl refl refl
      ∙ ap (λ ls. some (map as_token ls)) (begun-nil subtopic))
    ∙ ap (tokens (map as_token (levels subtopic))) count
