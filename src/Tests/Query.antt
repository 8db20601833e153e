-- ===== src/Tests/Query.antt =====
-- Sample queries.
use healtharchive.Base.{◌≡◌, refl, String, true, false, none, some, []}
use healtharchive.Base.Text.{strip, lower}
use healtharchive.Query.Tokens.{
  tokenize, limit_tokens, scan, next_tokens, read_word, word_tokens, read_phrase, ends_word,
  is_field_name,
}
use healtharchive.Query.Syntax.{
  QueryNode, QueryNodes, term, not_of, and_of, or_of, none_left, also, and_all, or_all, flatten_and,
  flatten_or, join_with,
}
use healtharchive.Query.Terms.{iter_terms, iter_terms_of}
use healtharchive.Query.Flatten.{iter_terms-joins}
use healtharchive.Query.Parser.{
  parsed, parse_query, parse_tokens, parse, parse_or, parse_and, parse_items, parse_not,
  parse_primary, parse_word, parse_field, expect_rparen, and_goes_on, or_goes_on, at_end,
}
use healtharchive.Query.Ends.{Ends}
use healtharchive.Query.Text.{parse_query-Ends}

abbrev flu : QueryNode
flu = term (record { text = "flu"; field = some "title"; is_phrase = false })

abbrev plain : String → QueryNode
plain s = term (record { text = s; field = none; is_phrase = false })

-- Nested groups of one operator are flat.
flat_query :
    parse_query (λ c. true) 128 "title:flu (a OR (b or -c))"
    ≡ parsed
        (and_of (
          also flu (
            also
              (or_of (also (plain "a") (also (plain "b") (also (not_of (plain "c")) none_left))))
              none_left)))
        []
flat_query =
    unfold parse_query parse_tokens parse parse_or parse_and parse_items parse_not parse_primary
      parse_word parse_field expect_rparen and_goes_on or_goes_on at_end and_all or_all flatten_and
      flatten_or join_with tokenize limit_tokens scan next_tokens read_word word_tokens read_phrase
      ends_word is_field_name strip lower in
    refl

parse_query-Ends_example : Ends (parse_query (λ c. true) 128 "title:flu (a OR (b or -c))")
parse_query-Ends_example = parse_query-Ends (λ c. true) 128 "title:flu (a OR (b or -c))"

abbrev nested : QueryNodes
nested = also flu (also (and_of (also (plain "a") (also (plain "b") none_left))) none_left)

iter_terms-joins_example :
    (iter_terms (and_all nested) ≡ iter_terms_of nested)
    × (iter_terms (or_all nested) ≡ iter_terms_of nested)
iter_terms-joins_example = iter_terms-joins nested
