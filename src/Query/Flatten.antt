-- ===== src/Query/Flatten.antt =====
-- src/ha_backend/search_query.py: the shape of the nodes that _and and _or build.
use healtharchive.Base.{◌+◌, ◌≤◌, ◌≡◌, refl, ap, sym, ◌∙◌, List, [], ◌∷◌, ◌++◌, arith}
use healtharchive.Query.Syntax.{
  Term, QueryNode, QueryNodes, term, not_of, and_of, or_of, none_left, also, append, count,
  flatten_and, flatten_or, join_with, and_all, or_all,
}
use healtharchive.Query.Terms.{iter_terms, iter_terms_of}

abbrev pub NotAnd : QueryNode → Type 0
NotAnd (and_of cs) = ⊥
NotAnd (or_of cs) = Unit
NotAnd (not_of c) = Unit
NotAnd (term t) = Unit

abbrev pub NotOr : QueryNode → Type 0
NotOr (and_of cs) = Unit
NotOr (or_of cs) = ⊥
NotOr (not_of c) = Unit
NotOr (term t) = Unit

-- Each "and" and each "or" has two children at least, and none of its own kind.
abbrev mutual
  pub IsNormal : QueryNode → Type 0
  IsNormal (term t) = Unit
  IsNormal (not_of c) = IsNormal c
  IsNormal (and_of cs) = (2 ≤ count cs) × AndItems cs
  IsNormal (or_of cs) = (2 ≤ count cs) × OrItems cs

  pub AndItems : QueryNodes → Type 0
  AndItems none_left = Unit
  AndItems (also c cs) = IsNormal c × (NotAnd c × AndItems cs)

  pub OrItems : QueryNodes → Type 0
  OrItems none_left = Unit
  OrItems (also c cs) = IsNormal c × (NotOr c × OrItems cs)

-- Every node of a list is normal.
abbrev pub AllNormal : QueryNodes → Type 0
AllNormal none_left = Unit
AllNormal (also c cs) = IsNormal c × AllNormal cs

count-append : (ms ns : QueryNodes) → count (append ms ns) ≡ count ms + count ns
count-append none_left ns = omega arith
count-append (also m ms) ns = omega (arith, count-append ms ns)

AndItems-append : (ms ns : QueryNodes) → AndItems ms → AndItems ns → AndItems (append ms ns)
AndItems-append none_left ns h k = k
AndItems-append (also m ms) ns h k = (h.0, (h.1.0, AndItems-append ms ns h.1.1 k))

OrItems-append : (ms ns : QueryNodes) → OrItems ms → OrItems ns → OrItems (append ms ns)
OrItems-append none_left ns h k = k
OrItems-append (also m ms) ns h k = (h.0, (h.1.0, OrItems-append ms ns h.1.1 k))

AndItems-flatten : (ns : QueryNodes) → AllNormal ns → AndItems (flatten_and ns)
unfolding flatten_and
AndItems-flatten none_left h = tt
AndItems-flatten (also (and_of cs) ns) h =
    AndItems-append cs (flatten_and ns) h.0.1 (AndItems-flatten ns h.1)
AndItems-flatten (also (or_of cs) ns) h = (h.0, (tt, AndItems-flatten ns h.1))
AndItems-flatten (also (not_of c) ns) h = (h.0, (tt, AndItems-flatten ns h.1))
AndItems-flatten (also (term t) ns) h = (h.0, (tt, AndItems-flatten ns h.1))

OrItems-flatten : (ns : QueryNodes) → AllNormal ns → OrItems (flatten_or ns)
unfolding flatten_or
OrItems-flatten none_left h = tt
OrItems-flatten (also (or_of cs) ns) h =
    OrItems-append cs (flatten_or ns) h.0.1 (OrItems-flatten ns h.1)
OrItems-flatten (also (and_of cs) ns) h = (h.0, (tt, OrItems-flatten ns h.1))
OrItems-flatten (also (not_of c) ns) h = (h.0, (tt, OrItems-flatten ns h.1))
OrItems-flatten (also (term t) ns) h = (h.0, (tt, OrItems-flatten ns h.1))

count-flatten_and :
    (n : QueryNode) (ns : QueryNodes) → AllNormal (also n ns) → 1 ≤ count (flatten_and (also n ns))
unfolding flatten_and
count-flatten_and (and_of cs) ns h = omega (arith, count-append cs (flatten_and ns), h.0.0)
count-flatten_and (or_of cs) ns h = omega arith
count-flatten_and (not_of c) ns h = omega arith
count-flatten_and (term t) ns h = omega arith

count-flatten_or :
    (n : QueryNode) (ns : QueryNodes) → AllNormal (also n ns) → 1 ≤ count (flatten_or (also n ns))
unfolding flatten_or
count-flatten_or (or_of cs) ns h = omega (arith, count-append cs (flatten_or ns), h.0.0)
count-flatten_or (and_of cs) ns h = omega arith
count-flatten_or (not_of c) ns h = omega arith
count-flatten_or (term t) ns h = omega arith

join_and : (ns : QueryNodes) → 1 ≤ count ns → AndItems ns → IsNormal (join_with and_of ns)
unfolding join_with
join_and none_left h k = absurd (omega arith)
join_and (also n none_left) h k = k.0
join_and (also n (also m ns)) h k = (omega arith, k)

join_or : (ns : QueryNodes) → 1 ≤ count ns → OrItems ns → IsNormal (join_with or_of ns)
unfolding join_with
join_or none_left h k = absurd (omega arith)
join_or (also n none_left) h k = k.0
join_or (also n (also m ns)) h k = (omega arith, k)

pub IsNormal-and_all :
    (n : QueryNode) (ns : QueryNodes) → AllNormal (also n ns) → IsNormal (and_all (also n ns))
unfolding and_all
IsNormal-and_all n ns h =
    join_and (flatten_and (also n ns)) (count-flatten_and n ns h) (AndItems-flatten (also n ns) h)

pub IsNormal-or_all :
    (n : QueryNode) (ns : QueryNodes) → AllNormal (also n ns) → IsNormal (or_all (also n ns))
unfolding or_all
IsNormal-or_all n ns h =
    join_or (flatten_or (also n ns)) (count-flatten_or n ns h) (OrItems-flatten (also n ns) h)

append_assoc : (xs ys zs : List Term) → (xs ++ ys) ++ zs ≡ xs ++ (ys ++ zs)
append_assoc [] ys zs = refl
append_assoc (x ∷ xs) ys zs = ap (λ l. x ∷ l) (append_assoc xs ys zs)

append_nil : (xs : List Term) → xs ++ [] ≡ xs
append_nil [] = refl
append_nil (x ∷ xs) = ap (λ l. x ∷ l) (append_nil xs)

iter_terms_of-append :
    (ms ns : QueryNodes) → iter_terms_of (append ms ns) ≡ iter_terms_of ms ++ iter_terms_of ns
unfolding iter_terms_of
iter_terms_of-append none_left ns = refl
iter_terms_of-append (also m ms) ns =
    ap (λ l. iter_terms m ++ l) (iter_terms_of-append ms ns)
    ∙ sym (append_assoc (iter_terms m) (iter_terms_of ms) (iter_terms_of ns))

iter_terms_of-flatten_and : (ns : QueryNodes) → iter_terms_of (flatten_and ns) ≡ iter_terms_of ns
unfolding flatten_and iter_terms_of iter_terms
iter_terms_of-flatten_and none_left = refl
iter_terms_of-flatten_and (also (and_of cs) ns) =
    iter_terms_of-append cs (flatten_and ns)
    ∙ ap (λ l. iter_terms_of cs ++ l) (iter_terms_of-flatten_and ns)
iter_terms_of-flatten_and (also (or_of cs) ns) =
    ap (λ l. iter_terms_of cs ++ l) (iter_terms_of-flatten_and ns)
iter_terms_of-flatten_and (also (not_of c) ns) =
    ap (λ l. iter_terms c ++ l) (iter_terms_of-flatten_and ns)
iter_terms_of-flatten_and (also (term t) ns) = ap (λ l. t ∷ l) (iter_terms_of-flatten_and ns)

iter_terms_of-flatten_or : (ns : QueryNodes) → iter_terms_of (flatten_or ns) ≡ iter_terms_of ns
unfolding flatten_or iter_terms_of iter_terms
iter_terms_of-flatten_or none_left = refl
iter_terms_of-flatten_or (also (or_of cs) ns) =
    iter_terms_of-append cs (flatten_or ns)
    ∙ ap (λ l. iter_terms_of cs ++ l) (iter_terms_of-flatten_or ns)
iter_terms_of-flatten_or (also (and_of cs) ns) =
    ap (λ l. iter_terms_of cs ++ l) (iter_terms_of-flatten_or ns)
iter_terms_of-flatten_or (also (not_of c) ns) =
    ap (λ l. iter_terms c ++ l) (iter_terms_of-flatten_or ns)
iter_terms_of-flatten_or (also (term t) ns) = ap (λ l. t ∷ l) (iter_terms_of-flatten_or ns)

join_terms_and : (ns : QueryNodes) → iter_terms (join_with and_of ns) ≡ iter_terms_of ns
unfolding join_with iter_terms iter_terms_of
join_terms_and none_left = refl
join_terms_and (also n none_left) = sym (append_nil (iter_terms n))
join_terms_and (also n (also m ns)) = refl

join_terms_or : (ns : QueryNodes) → iter_terms (join_with or_of ns) ≡ iter_terms_of ns
unfolding join_with iter_terms iter_terms_of
join_terms_or none_left = refl
join_terms_or (also n none_left) = sym (append_nil (iter_terms n))
join_terms_or (also n (also m ns)) = refl

-- _and and _or lose no term of their nodes, add none and keep the order.
pub iter_terms-joins :
    (ns : QueryNodes)
    → (iter_terms (and_all ns) ≡ iter_terms_of ns) × (iter_terms (or_all ns) ≡ iter_terms_of ns)
unfolding and_all or_all
iter_terms-joins ns = (
  join_terms_and (flatten_and ns) ∙ iter_terms_of-flatten_and ns,
  join_terms_or (flatten_or ns) ∙ iter_terms_of-flatten_or ns,
)
