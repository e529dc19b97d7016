-- ===== src/EntityModules/Tests.antt =====
-- Runs of a search.
use survol.Base.{
  ℕ, Text, codes, text_eq, text_eq_instance, [], ◌∷◌, Option, none, some, false, if◌then◌else◌,
  Dict, lookup, ◌≡◌, refl, arith, starts_with,
}
use survol.Batch.Failure.{Result, ok, raised, import_error}
use survol.World.Paths.{has_text}
use survol.CallArguments.{find, find_in}
use survol.EntityModules.{hierarchical_function_search, found, dotted}
use survol.EntityModules.Caches.{
  module_at, function_of, IsCoherent, AreCoherent, hierarchical_function_search_lem,
}

-- One module can be loaded, and it has the function.
abbrev import_any : Text → Text → Result Text
import_any path name = if text_eq name (codes ".oracle") then ok name else raised import_error

abbrev graphic : Text → Text → Option ℕ
graphic m name = if text_eq m (codes ".oracle") then some 5 else none

abbrev no_modules : Dict Text (Option Text)
no_modules = ([], none) ∷ []

abbrev no_functions : Dict Text (Dict Text (Option ℕ))
no_functions = []

no_modules-coherent :
    (t : Text) (m : Option Text)
    → lookup t no_modules ≡ some m
    → module_at import_any graphic t ≡ ok m
unfolding module_at lookup text_eq
no_modules-coherent [] m e = ground (arith, e)
no_modules-coherent (c ∷ t) m e = ground (arith, e)

caches-AreCoherent : AreCoherent import_any graphic (no_modules, no_functions)
unfolding AreCoherent IsCoherent lookup text_eq found
caches-AreCoherent = ((no_modules-coherent, refl), λ name t f e. ground (arith, e))

table-has_text : has_text (codes "oracle/table") (codes ".") ≡ false
unfolding has_text find find_in starts_with
table-has_text = refl

hierarchical_function_search_lem_example :
    ((hierarchical_function_search import_any graphic
        (no_modules, no_functions)
        (codes "oracle/table")
        (codes "Graphic_shape")).1
      ≡ some (
          function_of import_any graphic
            (dotted import_any graphic (codes "oracle/table"))
            (codes "Graphic_shape")))
    × AreCoherent import_any graphic
        (hierarchical_function_search import_any graphic
          (no_modules, no_functions)
          (codes "oracle/table")
          (codes "Graphic_shape")).0
hierarchical_function_search_lem_example =
    hierarchical_function_search_lem import_any graphic (no_modules, no_functions)
      (codes "oracle/table") (codes "Graphic_shape") caches-AreCoherent table-has_text
