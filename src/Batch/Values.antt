-- ===== src/Batch/Values.antt =====
-- The arguments of a traced call, as `ParseCallArguments` returns them (texts and nested lists) and
-- as the call classes replace them by objects; their `==` and their `str()`.
use survol.Base.{
  Text, codes, text_eq, text_eq_iff, Bool, true, false, ◌&&◌, ◌≡◌, ◌↔◌, List, [], ◌∷◌, ◌++◌, Eq,
  arith,
}

mutual
  -- An object (`CIM_Process`, `CIM_DataFile`) is the moniker under which `G_mapCacheObjects`
  -- holds the only object of that name.
  pub data Arg : Type 0 where
    text : Text → Arg
    list : Args → Arg
    object : Text → Arg
    none_value : Arg

  pub data Args : Type 0 where
    nil : Args
    cons : Arg → Args → Args

-- The same items as a Python list.
unfoldable pub to_args : List Arg → Args
to_args [] = nil
to_args (a ∷ l) = cons a (to_args l)

unfoldable mutual
  pub arg_eq : Arg → Arg → Bool
  arg_eq (text s) (text t) = text_eq s t
  arg_eq (list l) (list m) = items_eq l m
  arg_eq (object s) (object t) = text_eq s t
  arg_eq none_value none_value = true
  arg_eq (text s) _ = false
  arg_eq (list l) _ = false
  arg_eq (object s) _ = false
  arg_eq none_value _ = false

  pub items_eq : Args → Args → Bool
  items_eq nil nil = true
  items_eq nil (cons b m) = false
  items_eq (cons a l) nil = false
  items_eq (cons a l) (cons b m) = arg_eq a b && items_eq l m

mutual
  unfolding arg_eq items_eq

  arg_eq_correct : (a b : Arg) → (arg_eq a b ≡ true) ↔ (a ≡ b)
  arg_eq_correct (text s) (text t) = ground (arith, text_eq_iff s t)
  arg_eq_correct (text s) (list m) = ground arith
  arg_eq_correct (text s) (object t) = ground arith
  arg_eq_correct (text s) none_value = ground arith
  arg_eq_correct (list l) (text t) = ground arith
  arg_eq_correct (list l) (list m) = ground (arith, items_eq_correct l m)
  arg_eq_correct (list l) (object t) = ground arith
  arg_eq_correct (list l) none_value = ground arith
  arg_eq_correct (object s) (text t) = ground arith
  arg_eq_correct (object s) (list m) = ground arith
  arg_eq_correct (object s) (object t) = ground (arith, text_eq_iff s t)
  arg_eq_correct (object s) none_value = ground arith
  arg_eq_correct none_value (text t) = ground arith
  arg_eq_correct none_value (list m) = ground arith
  arg_eq_correct none_value (object t) = ground arith
  arg_eq_correct none_value none_value = ground arith

  items_eq_correct : (l m : Args) → (items_eq l m ≡ true) ↔ (l ≡ m)
  items_eq_correct nil nil = ground arith
  items_eq_correct nil (cons b m) = ground arith
  items_eq_correct (cons a l) nil = ground arith
  items_eq_correct (cons a l) (cons b m) = ground (arith, arg_eq_correct a b, items_eq_correct l m)

pub arg_eq_iff : (a b : Arg) → (arg_eq a b ≡ true) ↔ (a ≡ b)
arg_eq_iff a b = arg_eq_correct a b

-- `==` of two Python lists of arguments.
unfoldable pub args_eq : List Arg → List Arg → Bool
args_eq [] [] = true
args_eq [] (b ∷ m) = false
args_eq (a ∷ l) [] = false
args_eq (a ∷ l) (b ∷ m) = arg_eq a b && args_eq l m

pub args_eq_iff : (l m : List Arg) → (args_eq l m ≡ true) ↔ (l ≡ m)
unfolding args_eq
args_eq_iff [] [] = ground arith
args_eq_iff [] (b ∷ m) = ground arith
args_eq_iff (a ∷ l) [] = ground arith
args_eq_iff (a ∷ l) (b ∷ m) = ground (arith, arg_eq_iff a b, args_eq_iff l m)

instance abbrev pub arg_eq_instance : Eq Arg
arg_eq_instance = record { beq = arg_eq; beq_iff = arg_eq_iff }

-- `str()` of an argument. `repr` is Python's built-in `repr` of a text, which shows the texts of a
-- nested list; an object is shown by `CIM_XmlMarshaller.__repr__`.
module _ (repr : Text → Text) where
  mutual
    pub arg_repr : Arg → Text
    arg_repr (text s) = repr s
    arg_repr (list l) = codes "[" ++ items_repr l
    arg_repr (object m) = codes "'" ++ (m ++ codes "'")
    arg_repr none_value = codes "None"

    pub items_repr : Args → Text
    items_repr nil = codes "]"
    items_repr (cons a l) = arg_repr a ++ rest_repr l

    pub rest_repr : Args → Text
    rest_repr nil = codes "]"
    rest_repr (cons a l) = codes ", " ++ (arg_repr a ++ rest_repr l)

  pub arg_str : Arg → Text
  arg_str (text s) = s
  arg_str (list l) = codes "[" ++ items_repr l
  arg_str (object m) = codes "'" ++ (m ++ codes "'")
  arg_str none_value = codes "None"
