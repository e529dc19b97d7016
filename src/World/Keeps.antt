-- ===== src/World/Keeps.antt =====
-- Invariants of actions on the globals, one rule for each way to build an action.
use survol.Base.{Bool, true, false, if◌then◌else◌, List, [], ◌∷◌, Option, none, some}
use survol.Batch.Failure.{Failure, Result, ok, raised}
use survol.World.{World}
use survol.World.Actions.{
  Action, pure, raise, lift, gets, modify, continue, ◌>>=◌, handle, try_except, for_each,
}

-- The action keeps `P`, whether it raises or not.
pub record Keeps {A : Type 0} (P : World → Type 0) (m : Action A) : Type 0 where
  pub at : (w : World) → P w → P (m w).0

module _ {A : Type 0} {P : World → Type 0} where
  pub Keeps-pure : (a : A) → Keeps P (pure a)
  unfolding pure
  Keeps-pure a = record { at = λ w h. h }

  pub Keeps-raise : (e : Failure) → Keeps P (raise {A = A} e)
  unfolding raise
  Keeps-raise e = record { at = λ w h. h }

  pub Keeps-lift : (r : Result A) → Keeps P (lift r)
  unfolding lift
  Keeps-lift r = record { at = λ w h. h }

  pub Keeps-gets : (f : World → A) → Keeps P (gets f)
  unfolding gets
  Keeps-gets f = record { at = λ w h. h }

  pub Keeps-if : (b : Bool) (m n : Action A) → Keeps P m → Keeps P n → Keeps P (if b then m else n)
  Keeps-if true m n km kn = km
  Keeps-if false m n km kn = kn

  Keeps-either :
      (b : Bool) (n : Action A) (w : World) (e : Failure)
      → Keeps P n
      → P w
      → P (if b then n w else (w, raised e)).0
  Keeps-either true n w e kn h = kn.at w h
  Keeps-either false n w e kn h = h

  Keeps-handle :
      (caught : Failure → Bool) (n : Action A) (w : World) (r : Result A)
      → Keeps P n
      → P w
      → P (handle caught n (w, r)).0
  unfolding handle
  Keeps-handle caught n w (ok a) kn h = h
  Keeps-handle caught n w (raised e) kn h = Keeps-either (caught e) n w e kn h

  pub Keeps-try :
      (caught : Failure → Bool) (m n : Action A)
      → Keeps P m
      → Keeps P n
      → Keeps P (try_except caught m n)
  unfolding try_except
  Keeps-try caught m n km kn = record {
    at = λ w h. let (w', r) = m w in Keeps-handle caught n w' r kn (km.at w h);
  }

pub Keeps-modify :
    {P : World → Type 0} (f : World → World) → ((w : World) → P w → P (f w)) → Keeps P (modify f)
unfolding modify
Keeps-modify f k = record { at = k }

module _ {A B : Type 0} {P : World → Type 0} where
  Keeps-continue :
      (r : Result A) (f : A → Action B) → ((a : A) → Keeps P (f a)) → Keeps P (continue r f)
  unfolding continue
  Keeps-continue (ok a) f kf = kf a
  Keeps-continue (raised e) f kf = record { at = λ w h. h }

  pub Keeps-bind :
      (m : Action A) (f : A → Action B) → Keeps P m → ((a : A) → Keeps P (f a)) → Keeps P (m >>= f)
  unfolding ◌>>=◌
  Keeps-bind m f km kf = record {
    at = λ w h. let (w', r) = m w in (Keeps-continue r f kf).at w' (km.at w h);
  }

  -- The rest of the block may use what is read.
  pub Keeps-gets-bind :
      (g : World → A) (f : A → Action B)
      → ((w : World) → P w → P (f (g w) w).0)
      → Keeps P (gets g >>= f)
  unfolding ◌>>=◌ gets continue
  Keeps-gets-bind g f k = record { at = k }

module _ {A B : Type 0} {P : World → Type 0} where
  -- A case on what a table holds.
  pub Keeps-option :
      (o : Option A) (m : Action B) (f : A → Action B)
      → Keeps P m
      → ((a : A) → Keeps P (f a))
      → Keeps P (elim o [ none ↦ m | some a ↦ f a ])
  Keeps-option none m f km kf = km
  Keeps-option (some a) m f km kf = kf a

  pub Keeps-for_each :
      (l : List A) (f : A → Action B) → ((a : A) → Keeps P (f a)) → Keeps P (for_each l f)
  unfolding for_each
  Keeps-for_each [] f kf = Keeps-pure []
  Keeps-for_each (a ∷ l) f kf =
      Keeps-bind (f a) (λ y. do ys ← for_each l f; pure (y ∷ ys)) (kf a)
        (λ y.
          Keeps-bind (for_each l f) (λ ys. pure (y ∷ ys)) (Keeps-for_each l f kf)
            (λ ys. Keeps-pure (y ∷ ys)))

pub ruleset keeps_rules = (
  Keeps-pure, Keeps-raise, Keeps-lift, Keeps-gets, Keeps-if, Keeps-bind, Keeps-try, Keeps-for_each,
)
