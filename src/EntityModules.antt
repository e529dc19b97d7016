-- ===== src/EntityModules.antt =====
-- survol/lib_util.py: the modules of the entity types with their cache, and the function that a type
-- takes from its own module or from the module of a type above it, `HierarchicalFunctionSearch`.
pub mod Caches
pub mod Ancestors
mod Tests
use survol.Base.{
  ℕ, zero, suc, ◌+◌, ◌==◌, ltb, Text, codes, text_eq, text_eq_instance, List, [], ◌∷◌, ◌++◌, Option,
  none, some, Bool, true, false, if◌then◌else◌, length, map, take, drop_last, get_last?, Dict,
  lookup, insert,
}
use survol.Batch.Calls.{join}
use survol.Symbols.{rfind_in}
use survol.World.Paths.{has_text, split}
use survol.Batch.Failure.{Result, ok, raised, import_error, type_error}

abbrev or_empty : Option Text → Text
or_empty none = []
or_empty (some t) = t

-- The package and the name that `GetEntityModuleNoCacheNoCatch` hands to `importlib`.
unfoldable pub entity_place : Text → Text × Text
entity_place t =
    let parts = split b'/' t in
    if ltb 1 (length parts)
    then (
      codes "sources_types." ++ join (codes ".") (drop_last parts),
      b'.' ∷ or_empty (get_last? parts),
    )
    else (codes "sources_types", b'.' ∷ t)

abbrev pub or_zero : Option ℕ → ℕ
or_zero none = 0
or_zero (some i) = i

-- `import_module` is that of `importlib`, with any exception, and `attribute` is `getattr`.
module _ {M F : Type 0} (import_module : Text → Text → Result M)
    (attribute : M → Text → Option F) where
  unfoldable pub or_none : Result M → Result (Option M)
  or_none (ok m) = ok (some m)
  or_none (raised import_error) = ok none
  or_none (raised e) = raised e

  unfoldable pub get_entity_module_no_cache : Text → Result (Option M)
  get_entity_module_no_cache t = or_none (import_module (entity_place t).0 (entity_place t).1)

  -- `GetEntityModule`, with `cacheEntityToModule`. An exception leaves the cache as it is.
  unfoldable pub store_module :
      Text → Dict Text (Option M) → Result (Option M) → Dict Text (Option M) × Result (Option M)
  store_module t cache (ok m) = (insert t m cache, ok m)
  store_module t cache (raised e) = (cache, raised e)

  unfoldable pub get_entity_module :
      Dict Text (Option M) → Text → Dict Text (Option M) × Result (Option M)
  unfolding store_module
  get_entity_module cache t = elim (lookup t cache) [
    | some m ↦ (cache, ok m)
    | none ↦ store_module t cache (get_entity_module_no_cache t)
  ]

  unfoldable pub get_attribute : Option M → Text → Option F
  get_attribute none name = none
  get_attribute (some m) name = attribute m name

  -- The loop, for `fuel` rounds; it gives None when it needs more. `upper` are the rounds that follow.
  abbrev pub Searched : Type 0
  Searched = Dict Text (Option M) × Option (Result (Option F))

  unfoldable pub after_module :
      Dict Text (Option M) → Result (Option M) → Text → Searched → Searched
  after_module cache (raised e) name upper = (cache, some (raised e))
  after_module cache (ok m) name upper = elim (get_attribute m name) [
    | some f ↦ (cache, some (ok (some f)))
    | none ↦ upper
  ]

  unfoldable pub search_loop : ℕ → Dict Text (Option M) → Text → Text → ℕ → Searched
  search_loop zero cache t name last_dot = (cache, none)
  search_loop (suc fuel) cache t name last_dot =
      let (cache', m) = get_entity_module cache (take last_dot t) in
      let upper = search_loop fuel cache' t name (or_zero (rfind_in b'.' (take last_dot t) 0)) in
      if last_dot == 0 then (cache, some (ok none)) else after_module cache' m name upper

  -- `HierarchicalFunctionSearchNoCache`
  unfoldable pub hierarchical_function_search_no_cache :
      Dict Text (Option M) → Text → Text → Searched
  hierarchical_function_search_no_cache cache t name =
      search_loop (length t + 1) cache t name (length t)

  -- `dictHierarchicalFunctionSearch[function_name][typeWithoutNS]`, read and written.
  unfoldable pub found : Text → Text → Dict Text (Dict Text (Option F)) → Option (Option F)
  found name t functions = elim (lookup name functions) [ none ↦ none | some d ↦ lookup t d ]

  unfoldable pub remember :
      Text → Text → Option F → Dict Text (Dict Text (Option F)) → Dict Text (Dict Text (Option F))
  remember name t f functions = elim (lookup name functions) [
    | none ↦ insert name ((t, f) ∷ []) functions
    | some d ↦ insert name (insert t f d) functions
  ]

  -- `typeWithoutNS.replace("/",".")`
  unfoldable pub dotted : Text → Text
  dotted t = map (λ c. if c == b'/' then b'.' else c) t

  -- Both caches, and what the search ends with.
  abbrev pub Caches : Type 0
  Caches = Dict Text (Option M) × Dict Text (Dict Text (Option F))

  unfoldable pub remember_found :
      Dict Text (Dict Text (Option F))
      → Text
      → Text
      → Searched
      → Caches × Option (Result (Option F))
  remember_found functions name t (modules, none) = ((modules, functions), none)
  remember_found functions name t (modules, some (raised e)) =
      ((modules, functions), some (raised e))
  remember_found functions name t (modules, some (ok f)) =
      ((modules, remember name t f functions), some (ok f))

  -- `HierarchicalFunctionSearch`. To raise a string raises a TypeError.
  unfoldable pub hierarchical_function_search :
      Caches → Text → Text → Caches × Option (Result (Option F))
  unfolding remember_found
  hierarchical_function_search (modules, functions) t name =
      if has_text t (codes ".")
      then ((modules, functions), some (raised type_error))
      else elim (found name (dotted t) functions) [
        | some g ↦ ((modules, functions), some (ok g))
        | none ↦
            remember_found functions name (dotted t)
              (hierarchical_function_search_no_cache modules (dotted t) name)
      ]
