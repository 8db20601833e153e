-- ===== src/Query/Terms.antt =====
-- src/ha_backend/search_query.py: iter_terms, iter_positive_terms and summarize_positive_text.
use healtharchive.Base.{
  ℕ, zero, suc, String, none, some, List, [], ◌∷◌, ◌++◌, str_eq, if◌then◌else◌,
}
use healtharchive.Base.Text.{strip, concat}
use healtharchive.Query.Syntax.{
  Term, QueryNode, QueryNodes, term, not_of, and_of, or_of, none_left, also,
}

unfoldable mutual
  pub iter_terms : QueryNode → List Term
  iter_terms (term t) = t ∷ []
  iter_terms (not_of c) = iter_terms c
  iter_terms (and_of cs) = iter_terms_of cs
  iter_terms (or_of cs) = iter_terms_of cs

  pub iter_terms_of : QueryNodes → List Term
  iter_terms_of none_left = []
  iter_terms_of (also c cs) = iter_terms c ++ iter_terms_of cs

unfoldable mutual
  pub iter_positive_terms : QueryNode → List Term
  iter_positive_terms (term t) = t ∷ []
  iter_positive_terms (not_of c) = []
  iter_positive_terms (and_of cs) = iter_positive_terms_of cs
  iter_positive_terms (or_of cs) = iter_positive_terms_of cs

  pub iter_positive_terms_of : QueryNodes → List Term
  iter_positive_terms_of none_left = []
  iter_positive_terms_of (also c cs) = iter_positive_terms c ++ iter_positive_terms_of cs

-- f"{term.field}:{term.text}" where the field is set
unfoldable pub term_text : Term → String
term_text t = elim t.field [
  | none ↦ t.text
  | some field ↦ if str_eq field "" then t.text else concat field (concat ":" t.text)
]

-- The texts of the loop, which appends before it tests the limit: at least one, if there is one.
unfoldable pub first_texts : ℕ → List Term → List String
first_texts zero [] = []
first_texts zero (t ∷ ts) = term_text t ∷ []
first_texts (suc zero) [] = []
first_texts (suc zero) (t ∷ ts) = term_text t ∷ []
first_texts (suc (suc n)) [] = []
first_texts (suc (suc n)) (t ∷ ts) = term_text t ∷ first_texts (suc n) ts

-- " ".join(t for t in texts if t)
unfoldable pub joined : List String → String
joined [] = ""
joined (t ∷ ts) =
    let rest = joined ts in
    if str_eq t "" then rest else if str_eq rest "" then t else concat t (concat " " rest)

unfoldable pub summarize_positive_text : ℕ → QueryNode → String
summarize_positive_text max_terms node =
    strip (joined (first_texts max_terms (iter_positive_terms node)))
