-- ===== src/Query/Syntax.antt =====
-- src/ha_backend/search_query.py: the query nodes, and _and and _or.
use healtharchive.Base.{ℕ, suc, String, Bool, Option}

pub record Term : Type 0 where
  pub text : String
  pub field : Option String
  pub is_phrase : Bool

mutual
  pub data QueryNode : Type 0 where
    term : Term → QueryNode
    not_of : QueryNode → QueryNode
    and_of : QueryNodes → QueryNode
    or_of : QueryNodes → QueryNode

  pub data QueryNodes : Type 0 where
    none_left : QueryNodes
    also : QueryNode → QueryNodes → QueryNodes

abbrev pub append : QueryNodes → QueryNodes → QueryNodes
append none_left ns = ns
append (also m ms) ns = also m (append ms ns)

abbrev pub count : QueryNodes → ℕ
count none_left = 0
count (also n ns) = suc (count ns)

-- The children of each node of the operator take its place.
unfoldable pub flatten_and : QueryNodes → QueryNodes
flatten_and none_left = none_left
flatten_and (also (and_of cs) ns) = append cs (flatten_and ns)
flatten_and (also (or_of cs) ns) = also (or_of cs) (flatten_and ns)
flatten_and (also (not_of c) ns) = also (not_of c) (flatten_and ns)
flatten_and (also (term t) ns) = also (term t) (flatten_and ns)

unfoldable pub flatten_or : QueryNodes → QueryNodes
flatten_or none_left = none_left
flatten_or (also (or_of cs) ns) = append cs (flatten_or ns)
flatten_or (also (and_of cs) ns) = also (and_of cs) (flatten_or ns)
flatten_or (also (not_of c) ns) = also (not_of c) (flatten_or ns)
flatten_or (also (term t) ns) = also (term t) (flatten_or ns)

-- One node stands for itself.
unfoldable pub join_with : (QueryNodes → QueryNode) → QueryNodes → QueryNode
join_with operator none_left = operator none_left
join_with operator (also n none_left) = n
join_with operator (also n (also m ns)) = operator (also n (also m ns))

-- _and
unfoldable pub and_all : QueryNodes → QueryNode
and_all nodes = join_with and_of (flatten_and nodes)

-- _or
unfoldable pub or_all : QueryNodes → QueryNode
or_all nodes = join_with or_of (flatten_or nodes)
