-- ===== src/Expression/Cache.antt =====
-- The cache of parser.ts: a Map from sources to parsed templates, as the list of its entries in the
-- order of insertion. The options are no part of its key.
pub mod Laws
use flowmind.Prelude.{
  ℕ, String, Bool, ◌⊎◌, inl, inr, Option, none, some, List, [], ◌∷◌, ◌++◌, ◌==◌, if◌then◌else◌, ltb,
  length,
}
use flowmind.Expression.{Options, ExpressionError, ParsedTemplate, parse_template}

abbrev pub Cache : Type 0
Cache = List (String × ParsedTemplate)

abbrev pub cache_max : ℕ
cache_max = 500

-- cache.get(source)
unfoldable pub find_template : String → Cache → Option ParsedTemplate
find_template source [] = none
find_template source ((key, t) ∷ cache) =
    if key == source then some t else find_template source cache

-- What stands in the cache once it has grown beyond its limit: the first key is deleted, unless it
-- is the empty text, which the test takes for no key.
abbrev pub without_first : Cache → Cache
without_first [] = []
without_first ((key, t) ∷ cache) = if key == "" then (key, t) ∷ cache else cache

unfoldable pub evict : Cache → Cache
evict cache = if ltb cache_max (length cache) then without_first cache else cache

-- `parseTemplate`: the result, and the cache after it.
unfoldable pub parse_cached : Options → String → Cache → (ExpressionError ⊎ ParsedTemplate) × Cache
unfolding find_template evict
parse_cached options source cache = elim (find_template source cache) [
  | some t ↦ (inr t, cache)
  | none ↦ elim (parse_template options source) [
    | inl e ↦ (inl e, cache)
    | inr t ↦ (inr t, evict (cache ++ (source, t) ∷ []))
  ]
]
