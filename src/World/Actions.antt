-- ===== src/World/Actions.antt =====
-- Statements that change the globals and may raise: what was written before an exception stays
-- written.
use survol.Base.{Bool, if◌then◌else◌, List, [], ◌∷◌}
use survol.Batch.Failure.{Failure, Result, ok, raised}
use survol.World.{World}

abbrev pub Action : Type 0 → Type 0
Action A = World → World × Result A

-- The result of a statement that has no value.
pub data Done : Type 0 where
  done : Done

module _ {A : Type 0} where
  unfoldable pub pure : A → Action A
  pure a w = (w, ok a)

  unfoldable pub raise : Failure → Action A
  raise e w = (w, raised e)

  unfoldable pub lift : Result A → Action A
  lift r w = (w, r)

  unfoldable pub gets : (World → A) → Action A
  gets f w = (w, ok (f w))

unfoldable pub modify : (World → World) → Action Done
modify f w = (f w, ok done)

module _ {A B : Type 0} where
  unfoldable pub continue : Result A → (A → Action B) → Action B
  continue (ok a) f w = f a w
  continue (raised e) f w = (w, raised e)

  infixl 5 ◌>>=◌ ◌>>◌
  unfoldable pub ◌>>=◌ : Action A → (A → Action B) → Action B
  unfolding continue
  ◌>>=◌ m f w = let (w', r) = m w in continue r f w'

  abbrev pub ◌>>◌ : Action A → Action B → Action B
  m >> n = m >>= λ _. n

module _ {A : Type 0} where
  unfoldable pub handle : (Failure → Bool) → Action A → World × Result A → World × Result A
  handle caught n (w, ok a) = (w, ok a)
  handle caught n (w, raised e) = if caught e then n w else (w, raised e)

  -- `try: m`, where `n` handles the exceptions that `caught` holds of
  unfoldable pub try_except : (Failure → Bool) → Action A → Action A → Action A
  unfolding handle
  try_except caught m n w = handle caught n (m w)

-- `for x in xs: f(x)`, with the results
unfoldable pub for_each : {A B : Type 0} → List A → (A → Action B) → Action (List B)
unfolding pure ◌>>=◌
for_each [] f = pure []
for_each (x ∷ xs) f = do y ← f x; ys ← for_each xs f; pure (y ∷ ys)
