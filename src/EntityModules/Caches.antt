-- ===== src/EntityModules/Caches.antt =====
-- The caches do not change what a search finds.
use survol.Base.{
  ℕ, zero, suc, ◌+◌, ◌≤◌, ◌<◌, ◌==◌, Text, codes, text_eq, text_eq_iff, text_eq_instance, List, [],
  ◌∷◌, Option, none, some, Option-cases, false, Bool-cases, if◌then◌else◌, length, take, Dict,
  lookup, insert, lookup-insert, ◌≡◌, ◌∙◌, subst, refl, sym, ap, inl, inr, arith,
}
use survol.Batch.Failure.{Result, ok, raised}
use survol.World.Paths.{has_text}
use survol.Symbols.{rfind_in}
use survol.Flow.Arguments.Runs.{Result-cases}
use survol.EntityModules.{
  found, remember, remember_found, dotted, or_zero, get_entity_module_no_cache, store_module,
  get_entity_module, get_attribute, after_module, Searched, Caches, search_loop,
  hierarchical_function_search_no_cache, hierarchical_function_search,
}
use survol.EntityModules.Ancestors.{tried, dots_below, dots_below-rfind, rfind-shorter}

module _ {M F : Type 0} (import_module : Text → Text → Result M)
    (attribute : M → Text → Option F) where
  -- The module of a type. The empty type has none.
  unfoldable pub module_at : Text → Result (Option M)
  module_at [] = ok none
  module_at (c ∷ t) = get_entity_module_no_cache import_module attribute (c ∷ t)

  -- The attribute of the first module of a list of types that has it, the types given by their lengths,
  -- or the exception of a module before it that cannot be loaded.
  unfoldable pub first_function : Text → Text → List ℕ → Result (Option F)
  first_function t name [] = ok none
  first_function t name (n ∷ ns) =
      let later = first_function t name ns in
      elim (module_at (take n t)) [
        | raised e ↦ raised e
        | ok m ↦ elim (get_attribute import_module attribute m name) [
          | some f ↦ ok (some f)
          | none ↦ later
        ]
      ]

  -- The function of a type, without any cache.
  unfoldable pub function_of : Text → Text → Result (Option F)
  function_of t name = first_function t name (tried t (length t))

  -- What the cache says of a type is its module, and it has an entry of the empty type.
  unfoldable pub IsCoherent : Dict Text (Option M) → Type 0
  IsCoherent cache =
      ((t : Text) (m : Option M) → lookup t cache ≡ some m → module_at t ≡ ok m)
      × (lookup [] cache ≡ some none)

  IsCoherent-insert :
      (cache : Dict Text (Option M)) (c : ℕ) (t : Text) (v : Option M)
      → get_entity_module_no_cache import_module attribute (c ∷ t) ≡ ok v
      → IsCoherent cache
      → IsCoherent (insert (c ∷ t) v cache)
  unfolding IsCoherent module_at text_eq lookup
  IsCoherent-insert cache c t v is (h, e) = (
    λ u m q.
        let l = lookup-insert (c ∷ t) u v cache in
        elim (Bool-cases (text_eq (c ∷ t) u)) [
          | inl y ↦
              let z : v ≡ m = ground (arith, l, y, q) in
              subst (λ (w : Text). module_at w ≡ ok m) ((text_eq_iff (c ∷ t) u).0 y) (is ∙ ap ok z)
          | inr y ↦ let r = rw y at l in h u m (sym r ∙ q)
        ],
    lookup-insert (c ∷ t) [] v cache ∙ e,
  )

  module_at_lem :
      (cache : Dict Text (Option M)) (t : Text) (m : Option M)
      → IsCoherent cache
      → lookup t cache ≡ some m
      → module_at t ≡ ok m
  unfolding IsCoherent
  module_at_lem cache t m k e = k.0 t m e

  lookup-empty : (cache : Dict Text (Option M)) → IsCoherent cache → lookup [] cache ≡ some none
  unfolding IsCoherent
  lookup-empty cache k = k.1

  get_entity_module-IsCoherent :
      (cache : Dict Text (Option M)) (t : Text)
      → IsCoherent cache
      → ((get_entity_module import_module attribute cache t).1 ≡ module_at t)
        × IsCoherent (get_entity_module import_module attribute cache t).0
  unfolding get_entity_module store_module module_at
  get_entity_module-IsCoherent cache [] k = rw (get_entity_module, lookup-empty cache k) (refl, k)
  get_entity_module-IsCoherent cache (c ∷ t) k = elim (Option-cases (lookup (c ∷ t) cache)) [
    | inr (m, q) ↦ rw (get_entity_module, q) (sym (module_at_lem cache (c ∷ t) m k q), k)
    | inl q ↦ elim (Result-cases (get_entity_module_no_cache import_module attribute (c ∷ t))) [
      | inl (e, x) ↦ rw (get_entity_module, q, x) (refl, k)
      | inr (m, x) ↦ rw (get_entity_module, q, x) (refl, IsCoherent-insert cache c t m x k)
    ]
  ]

  -- A search that does not run out of rounds.
  abbrev IsSearch : Searched import_module attribute → Result (Option F) → Type 0
  IsSearch s x = (s.1 ≡ some x) × IsCoherent s.0

  after_module-IsSearch :
      (cache : Dict Text (Option M)) (x : Result (Option M)) (t name : Text) (n : ℕ) (ns : List ℕ)
      (upper : Searched import_module attribute)
      → IsCoherent cache
      → x ≡ module_at (take n t)
      → IsSearch upper (first_function t name ns)
      → IsSearch
          (after_module import_module attribute cache x name upper)
          (first_function t name (n ∷ ns))
  unfolding after_module first_function
  after_module-IsSearch cache (raised f) t name n ns upper k e later =
      rw (first_function, ← e, after_module) (refl, k)
  after_module-IsSearch cache (ok m) t name n ns upper k e later =
      elim (Option-cases (get_attribute import_module attribute m name)) [
        | inr (f, a) ↦ rw (first_function, ← e, after_module, a) (refl, k)
        | inl a ↦ rw (first_function, ← e, after_module, a) later
      ]

  search_loop-IsSearch :
      (fuel : ℕ) (cache : Dict Text (Option M)) (t name : Text) (last_dot : ℕ)
      → IsCoherent cache
      → last_dot < fuel
      → last_dot ≤ length t
      → IsSearch
          (search_loop import_module attribute fuel cache t name last_dot)
          (first_function t name (tried t last_dot))
  unfolding search_loop tried
  search_loop-IsSearch zero cache t name last_dot k enough inside = ground arith
  search_loop-IsSearch (suc fuel) cache t name last_dot k enough inside =
      elim (Bool-cases (last_dot == 0)) [
        | inl z ↦ rw z (unfold first_function in refl, k)
        | inr n ↦
            let (e, k') = get_entity_module-IsCoherent cache (take last_dot t) k in
            let next = or_zero (rfind_in b'.' (take last_dot t) 0) in
            let p : 0 < last_dot = ground (arith, n) in
            let shorter = rfind-shorter t last_dot inside p in
            let (cache', m) = get_entity_module import_module attribute cache (take last_dot t) in
            let upper = search_loop import_module attribute fuel cache' t name next in
            let later =
              search_loop-IsSearch fuel cache' t name next k' (omega (arith, shorter))
                (omega (arith, shorter)) in
            let same = dots_below-rfind t last_dot inside in
            rw n (
              after_module-IsSearch cache' m t name last_dot (dots_below t last_dot) upper k' e
                (subst (λ (l : List ℕ). IsSearch upper (first_function t name l)) (sym same) later))
      ]

  -- Both caches say what the modules say.
  unfoldable pub AreCoherent : Caches import_module attribute → Type 0
  AreCoherent (modules, functions) =
      IsCoherent modules
      × ((name t : Text) (f : Option F)
          → found import_module attribute name t functions ≡ some f
          → function_of t name ≡ ok f)

  lookup-single :
      (t t' : Text) (f : Option F)
      → lookup t' ((t, f) ∷ []) ≡ (if text_eq t t' then some f else none)
  unfolding lookup
  lookup-single t t' f = refl

  found-remember :
      (name t name' t' : Text) (f : Option F) (functions : Dict Text (Dict Text (Option F)))
      → found import_module attribute name' t' (remember import_module attribute name t f functions)
        ≡ (if text_eq name name'
            then (if text_eq t t' then some f else found import_module attribute name' t' functions)
            else found import_module attribute name' t' functions)
  unfolding found remember
  found-remember name t name' t' f functions = elim (Bool-cases (text_eq name name')) [
    | inl y ↦
        let same = (text_eq_iff name name').0 y in
        elim (Option-cases (lookup name functions)) [
          | inl e ↦
              let e' = subst (λ (w : Text). lookup w functions ≡ none) same e in
              rw (found, remember, e, lookup-insert name name' ((t, f) ∷ []) functions, y, e')
                (lookup-single t t' f)
          | inr (d, e) ↦
              let e' = subst (λ (w : Text). lookup w functions ≡ some d) same e in
              rw (found, remember, e, lookup-insert name name' (insert t f d) functions, y, e')
                (lookup-insert t t' f d)
        ]
    | inr n ↦ elim (Option-cases (lookup name functions)) [
      | inl e ↦ rw (found, remember, e, lookup-insert name name' ((t, f) ∷ []) functions, n) refl
      | inr (d, e) ↦
          rw (found, remember, e, lookup-insert name name' (insert t f d) functions, n) refl
    ]
  ]

  found-IsCoherent :
      (name t name' t' : Text) (f g : Option F) (functions : Dict Text (Dict Text (Option F)))
      → function_of t name ≡ ok f
      → ((g' : Option F)
          → found import_module attribute name' t' functions ≡ some g'
          → function_of t' name' ≡ ok g')
      → found import_module attribute name' t' (remember import_module attribute name t f functions)
        ≡ some g
      → function_of t' name' ≡ ok g
  found-IsCoherent name t name' t' f g functions is h e =
      let r = sym (found-remember name t name' t' f functions) ∙ e in
      elim (Bool-cases (text_eq name name')) [
        | inr n ↦ let r' = rw n at r in h g r'
        | inl y ↦ elim (Bool-cases (text_eq t t')) [
          | inr n ↦ let r' = rw (y, n) at r in h g r'
          | inl z ↦
              let r' : some f ≡ some g = rw (y, z) at r in
              let fg : f ≡ g = ground (arith, r') in
              sym (ap (λ (w : Text). function_of t' w) ((text_eq_iff name name').0 y))
              ∙ sym (ap (λ (w : Text). function_of w name) ((text_eq_iff t t').0 z))
              ∙ is
              ∙ ap ok fg
        ]
      ]

  remember_found-lem :
      (functions : Dict Text (Dict Text (Option F))) (name t : Text)
      (s : Searched import_module attribute) (x : Result (Option F))
      → IsSearch s x
      → x ≡ function_of t name
      → ((name' t' : Text) (g : Option F)
          → found import_module attribute name' t' functions ≡ some g
          → function_of t' name' ≡ ok g)
      → ((remember_found import_module attribute functions name t s).1 ≡ some (function_of t name))
        × AreCoherent (remember_found import_module attribute functions name t s).0
  unfolding remember_found AreCoherent
  remember_found-lem functions name t (modules, none) x (e, k) is h = absurd (cc (e))
  remember_found-lem functions name t (modules, some (raised f)) x (e, k) is h =
      (e ∙ ap some is, (k, h))
  remember_found-lem functions name t (modules, some (ok f)) x (e, k) is h =
      let y : ok f ≡ x = ground (arith, e) in
      let z : function_of t name ≡ ok f = sym (y ∙ is) in
      (
        e ∙ ap some is,
        (k, λ name' t' g. found-IsCoherent name t name' t' f g functions z (h name' t')),
      )

  -- A type that is written without a dot, with caches that say what the modules say: the search does not run
  -- out of rounds. It returns the attribute of the module of the type, or of the module of the nearest type
  -- above it that has it, or None if none has it. It raises the exception of a module that comes before
  -- these and cannot be loaded, unless that is an ImportError. The caches still say what the modules say.
  pub hierarchical_function_search_lem :
      (caches : Caches import_module attribute) (t name : Text)
      → AreCoherent caches
      → has_text t (codes ".") ≡ false
      → ((hierarchical_function_search import_module attribute caches t name).1
          ≡ some (function_of (dotted import_module attribute t) name))
        × AreCoherent (hierarchical_function_search import_module attribute caches t name).0
  unfolding hierarchical_function_search AreCoherent hierarchical_function_search_no_cache
      function_of
  hierarchical_function_search_lem (modules, functions) t name (k, h) e =
      let u = dotted import_module attribute t in
      let s = search_loop import_module attribute (length u + 1) modules u name (length u) in
      let i =
        search_loop-IsSearch (length u + 1) modules u name (length u) k (omega arith)
          (omega arith) in
      elim (Option-cases (found import_module attribute name u functions)) [
        | inr (g, q) ↦ rw (e, q) (ap some (sym (h name u g q)), (k, h))
        | inl q ↦ rw (e, q) (remember_found-lem functions name u s (function_of u name) i refl h)
      ]
