-- ===== src/Expression/Cache/Laws.antt =====
-- What the cache changes, and how large it grows.
use flowmind.Prelude.{
  ◌≤◌, String, ◌≡◌, refl, Bool-cases, Option-cases, inl, inr, none, some, [], ◌∷◌, ◌++◌, arith, ltb,
  ◌==◌, eq_iff, length, length-append, All,
}
use flowmind.Expression.{Options, ParsedTemplate, parse_template}
use flowmind.Expression.Cache.{Cache, cache_max, find_template, evict, parse_cached}
use flowmind.Expression.Template.{result}

-- Every entry is what the parser makes of its key with these options.
abbrev pub IsFaithful : Options → Cache → Type 0
IsFaithful options = All (λ entry. parse_template options entry.0 ≡ inr entry.1)

found-IsFaithful :
    (options : Options) (source : String) (cache : Cache) (t : ParsedTemplate)
    → IsFaithful options cache
    → find_template source cache ≡ some t
    → parse_template options source ≡ inr t
unfolding find_template
found-IsFaithful options source [] t ok h = cc
found-IsFaithful options source ((key, u) ∷ cache) t (one, more) h =
    elim (Bool-cases (key == source)) [
      | inl same ↦ cc (rw (find_template, same) at h, (eq_iff key source).0 same, one)
      | inr other ↦ found-IsFaithful options source cache t more (rw (find_template, other) at h)
    ]

snoc-IsFaithful :
    (options : Options) (source : String) (t : ParsedTemplate) (cache : Cache)
    → IsFaithful options cache
    → parse_template options source ≡ inr t
    → IsFaithful options (cache ++ (source, t) ∷ [])
snoc-IsFaithful options source t [] ok h = (h, tt)
snoc-IsFaithful options source t (entry ∷ cache) (one, more) h =
    (one, snoc-IsFaithful options source t cache more h)

evict-IsFaithful :
    (options : Options) (cache : Cache)
    → IsFaithful options cache
    → IsFaithful options (evict cache)
unfolding evict
evict-IsFaithful options [] ok = tt
evict-IsFaithful options ((key, t) ∷ cache) ok =
    elim (Bool-cases (ltb cache_max (length ((key, t) ∷ cache)))) [
      | inl full ↦ elim (Bool-cases (key == "")) [
        | inl empty ↦ rw (full, empty) ok
        | inr named ↦ rw (full, named) ok.1
      ]
      | inr room ↦ rw room ok
    ]

-- As long as every call has the same options, the cache changes no result, and it goes on holding
-- only what the parser makes of its keys.
pub parse_cached-eq :
    (options : Options) (source : String) (cache : Cache)
    → IsFaithful options cache
    → ((parse_cached options source cache).0 ≡ parse_template options source)
      × IsFaithful options (parse_cached options source cache).1
unfolding parse_cached
parse_cached-eq options source cache ok = elim (Option-cases (find_template source cache)) [
  | inr (t, found) ↦
      rw (parse_cached, found) (rw (found-IsFaithful options source cache t ok found) refl, ok)
  | inl new ↦ elim (result (parse_template options source)) [
    | inl (e, bad) ↦ rw (parse_cached, new, bad) (refl, ok)
    | inr (t, good) ↦
        rw (parse_cached, new, good)
          (refl, evict-IsFaithful options _ (snoc-IsFaithful options source t cache ok good))
  ]
]

-- Once the empty text is the oldest key, nothing is deleted any more: each new source that parses
-- makes the cache one entry longer, whatever its length, and the empty text stays its oldest key.
pub empty_key_stops_eviction :
    (options : Options) (source : String) (first t : ParsedTemplate) (cache : Cache)
    → find_template source (("", first) ∷ cache) ≡ none
    → parse_template options source ≡ inr t
    → (parse_cached options source (("", first) ∷ cache)).1
      ≡ ("", first) ∷ (cache ++ (source, t) ∷ [])
unfolding parse_cached evict
empty_key_stops_eviction options source first t cache new good =
    elim (Bool-cases (ltb cache_max (length (("", first) ∷ (cache ++ (source, t) ∷ []))))) [
      | inl full ↦ rw (parse_cached, new, good) (rw full refl)
      | inr room ↦ rw (parse_cached, new, good) (rw room refl)
    ]

evict-le :
    (source : String) (t : ParsedTemplate) (cache : Cache)
    → find_template "" cache ≡ none
    → length cache ≤ cache_max
    → length (evict (cache ++ (source, t) ∷ [])) ≤ cache_max
unfolding evict find_template
evict-le source t [] named h = ground arith
evict-le source t ((key, u) ∷ cache) named h =
    ground (arith, length-append cache ((source, t) ∷ []))

-- While the empty text is no key of it, the cache keeps to its limit of 500 entries.
parse_cached-bounded :
    (options : Options) (source : String) (cache : Cache)
    → find_template "" cache ≡ none
    → length cache ≤ cache_max
    → length (parse_cached options source cache).1 ≤ cache_max
unfolding parse_cached
parse_cached-bounded options source cache named h =
    elim (Option-cases (find_template source cache)) [
      | inr (t, found) ↦ rw (parse_cached, found) h
      | inl new ↦ elim (result (parse_template options source)) [
        | inl (e, bad) ↦ rw (parse_cached, new, bad) h
        | inr (t, good) ↦ rw (parse_cached, new, good) (evict-le source t cache named h)
      ]
    ]
