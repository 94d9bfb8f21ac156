-- ===== src/Client/Queries/Refetch.antt =====
-- The entries of the query cache, and what an action of a page refetches.
use foxplay_game.Common.{
  String, Bool, true, false, ◌&&◌, ◌||◌, ◌≡◌, refl, ap, ◌∙◌, arith, [], ◌∷◌, str_eq, eq_iff,
  eq_refl, any, ◌==◌,
}
use foxplay_game.Server.{Res, ok, thrown}
use foxplay_game.Client.Queries.{
  AppQuery, servers, functions, keys, images, server, function, stats, samples, runs, Part, word,
  page, QueryKey, key_of, Action, server_created, key_created, function_registered, server_started,
  server_stopped, server_removed, key_removed, function_removed, function_invoked, invalidated,
  invalidations, refetched,
}

abbrev pub same_part : Part → Part → Bool
same_part (word a) (word b) = str_eq a b
same_part (page m) (page n) = m == n
same_part _ _ = false

-- One key begins with the other.
abbrev pub is_prefix : QueryKey → QueryKey → Bool
is_prefix [] k = true
is_prefix (p ∷ ps) [] = false
is_prefix (p ∷ ps) (q ∷ qs) = same_part p q && is_prefix ps qs

-- The query shows what the action may change.
abbrev pub concerns : Action → AppQuery → Bool
concerns server_created servers = true
concerns (server_started id) servers = true
concerns (server_stopped id) servers = true
concerns (server_started id) (server other) = str_eq id other
concerns (server_stopped id) (server other) = str_eq id other
concerns (server_removed id) servers = true
concerns function_registered functions = true
concerns (function_removed id) functions = true
concerns key_created keys = true
concerns (key_removed id) keys = true
concerns (function_invoked id) (function other) = str_eq id other
concerns (function_invoked id) (stats other) = str_eq id other
concerns (function_invoked id) (runs other n) = str_eq id other
concerns a q = false

-- The action went well, or it was an invocation.
abbrev pub is_told : {A : Type 0} → Action → Res A → Bool
is_told (function_invoked id) r = true
is_told a (ok v) = true
is_told a (thrown e) = false

&&-true : (b : Bool) → (b && true) ≡ b
&&-true true = refl
&&-true false = refl

||-false : (b : Bool) → (b || false) ≡ b
||-false true = refl
||-false false = refl

-- Whether the key that an action invalidates, or the page's own query, stands for what it may change.
-- The page's own query is that of the server which is started or stopped.
abbrev own_query : Action → AppQuery → Bool
own_query (server_started id) (server other) = str_eq id other
own_query (server_stopped id) (server other) = str_eq id other
own_query a q = false

is_prefix-concerns :
    (a : Action) (q : AppQuery)
    → (is_prefix (invalidated a) (key_of q) || own_query a q) ≡ concerns a q
unfolding key_of
is_prefix-concerns (function_invoked id) (function other) = ||-false _ ∙ &&-true (str_eq id other)
is_prefix-concerns (function_invoked id) (stats other) = ||-false _ ∙ &&-true (str_eq id other)
is_prefix-concerns (function_invoked id) (runs other n) = ||-false _ ∙ &&-true (str_eq id other)
is_prefix-concerns (function_invoked id) _ = refl
is_prefix-concerns (server_started id) servers = refl
is_prefix-concerns (server_started id) (server other) = refl
is_prefix-concerns (server_started id) _ = refl
is_prefix-concerns (server_stopped id) servers = refl
is_prefix-concerns (server_stopped id) (server other) = refl
is_prefix-concerns (server_stopped id) _ = refl
is_prefix-concerns server_created servers = refl
is_prefix-concerns server_created _ = refl
is_prefix-concerns key_created keys = refl
is_prefix-concerns key_created _ = refl
is_prefix-concerns function_registered functions = refl
is_prefix-concerns function_registered _ = refl
is_prefix-concerns (server_removed id) servers = refl
is_prefix-concerns (server_removed id) _ = refl
is_prefix-concerns (key_removed id) keys = refl
is_prefix-concerns (key_removed id) _ = refl
is_prefix-concerns (function_removed id) functions = refl
is_prefix-concerns (function_removed id) _ = refl

module _ (matches : QueryKey → QueryKey → Bool)
    (law : (k q : QueryKey) → matches k q ≡ is_prefix k q) where
  -- by `invalidateQueries` or by the page itself
  abbrev pub is_fetched_again : Action → Res String → AppQuery → Bool
  is_fetched_again a r q = any (λ k. matches k (key_of q)) (invalidations a r) || refetched a r q

  one :
      (a : Action) (q : AppQuery)
      → (any (λ k. matches k (key_of q)) (invalidated a ∷ []) || own_query a q) ≡ concerns a q
  one a q =
      ap (λ b. b || own_query a q) (||-false _ ∙ law (invalidated a) (key_of q))
      ∙ is_prefix-concerns a q

  -- Where `invalidateQueries` takes the queries whose key begins with the one given, an action that
  -- fails refetches nothing unless it is an invocation; otherwise an action on servers, functions or
  -- keys refetches the list of these, to start or stop a server on its page also the details of that
  -- server, and an invocation refetches the details, the statistics and every page of the runs of that
  -- function; and nothing else is refetched.
  pub invalidations-concerns :
      (a : Action) (r : Res String) (q : AppQuery)
      → is_fetched_again a r q ≡ (is_told a r && concerns a q)
  unfolding invalidations refetched
  invalidations-concerns (function_invoked id) r q = one (function_invoked id) q
  invalidations-concerns server_created (ok v) q = one server_created q
  invalidations-concerns key_created (ok v) q = one key_created q
  invalidations-concerns function_registered (ok v) q = one function_registered q
  invalidations-concerns (server_started id) (ok v) (server other) =
      one (server_started id) (server other)
  invalidations-concerns (server_started id) (ok v) q = one (server_started id) q
  invalidations-concerns (server_stopped id) (ok v) (server other) =
      one (server_stopped id) (server other)
  invalidations-concerns (server_stopped id) (ok v) q = one (server_stopped id) q
  invalidations-concerns (server_removed id) (ok v) q = one (server_removed id) q
  invalidations-concerns (key_removed id) (ok v) q = one (key_removed id) q
  invalidations-concerns (function_removed id) (ok v) q = one (function_removed id) q
  invalidations-concerns server_created (thrown e) q = refl
  invalidations-concerns key_created (thrown e) q = refl
  invalidations-concerns function_registered (thrown e) q = refl
  invalidations-concerns (server_started id) (thrown e) q = refl
  invalidations-concerns (server_stopped id) (thrown e) q = refl
  invalidations-concerns (server_removed id) (thrown e) q = refl
  invalidations-concerns (key_removed id) (thrown e) q = refl
  invalidations-concerns (function_removed id) (thrown e) q = refl

is_prefix_refl : (k : QueryKey) → is_prefix k k ≡ true
is_prefix_refl [] = refl
is_prefix_refl (word a ∷ ps) = rw (eq_refl a) (is_prefix_refl ps)
is_prefix_refl (page n ∷ ps) =
    let same : (n == n) ≡ true = ground arith in rw same (is_prefix_refl ps)

same_key :
    (a b : AppQuery)
    → is_prefix (key_of a) (key_of b) && is_prefix (key_of b) (key_of a) ≡ true
    → a ≡ b
unfolding key_of
same_key servers servers h = refl
same_key functions functions h = refl
same_key keys keys h = refl
same_key images images h = refl
same_key (server id) (server j) h = ground (arith, eq_iff id j)
same_key (function id) (function j) h = ground (arith, eq_iff id j)
same_key (stats id) (stats j) h = ground (arith, eq_iff id j)
same_key (samples id m) (samples j n) h = ground (arith, eq_iff id j)
same_key (runs id m) (runs j n) h = ground (arith, eq_iff id j)
same_key servers b h = ground arith
same_key functions b h = ground arith
same_key keys b h = ground arith
same_key images b h = ground arith
same_key (server id) b h = ground arith
same_key (function id) b h = ground arith
same_key (stats id) b h = ground arith
same_key (samples id m) b h = ground arith
same_key (runs id m) b h = ground arith

-- Two queries that share an entry of the cache are the same query, so no entry holds the answer of
-- another path.
pub key_of-inj : (a b : AppQuery) → key_of a ≡ key_of b → a ≡ b
key_of-inj a b e = same_key a b (rw (e, is_prefix_refl (key_of b)) refl)
