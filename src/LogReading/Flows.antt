-- ===== src/LogReading/Flows.antt =====
-- The calls that `CreateMapFlowFromStream` sends to the flow of each process.
use survol.Base.{
  ℕ, ◌==◌, List, [], ◌∷◌, Option, none, some, true, false, Bool-cases, if◌then◌else◌, Dict, nat_eq,
  lookup, lookup-insert, ◌≡◌, ◌∙◌, refl, ap, inl, inr, ==_iff,
}
use survol.Batch.{Store}
use survol.Batch.Calls.{BatchLet}
use survol.Flow.{Coroutine, send_batch}
use survol.Flow.Adding.{send_all}
use survol.LogReading.{send_to_flow, map_flows}

abbrev new_flow : Coroutine
new_flow = record { batches = []; last = none }

-- The calls of one process, in their order.
unfoldable pub calls_of : Store → ℕ → List BatchLet → List BatchLet
calls_of h pid [] = []
calls_of h pid (b ∷ bs) =
    let rest = calls_of h pid bs in if (h.core b.core).pid == pid then b ∷ rest else rest

-- A flow is there only if the process makes a call.
unfoldable pub whole_flow : Store → List BatchLet → Option Coroutine
whole_flow h [] = none
whole_flow h (b ∷ bs) = some (send_all h new_flow (b ∷ bs))

abbrev flow_behind : Store → Option Coroutine → List BatchLet → Option Coroutine
flow_behind h o [] = o
flow_behind h o (b ∷ bs) =
    flow_behind h (some (send_batch h (elim o [ none ↦ new_flow | some f ↦ f ]) b)) bs

flow_behind-some :
    (h : Store) (f : Coroutine) (bs : List BatchLet)
    → flow_behind h (some f) bs ≡ some (send_all h f bs)
unfolding send_all
flow_behind-some h f [] = refl
flow_behind-some h f (b ∷ bs) = flow_behind-some h (send_batch h f b) bs

flow_behind-none : (h : Store) (bs : List BatchLet) → flow_behind h none bs ≡ whole_flow h bs
unfolding whole_flow send_all
flow_behind-none h [] = refl
flow_behind-none h (b ∷ bs) = flow_behind-some h (send_batch h new_flow b) bs

module _ (h : Store) (pid : ℕ) where
  lookup-send_self :
      (m : Dict ℕ Coroutine) (b : BatchLet)
      → ((h.core b.core).pid == pid) ≡ true
      → lookup pid (send_to_flow h m b)
        ≡ some (send_batch h (elim (lookup pid m) [ none ↦ new_flow | some f ↦ f ]) b)
  unfolding send_to_flow
  lookup-send_self m b e =
      let flow : ℕ → Coroutine =
        λ k. send_batch h (elim (lookup k m) [ none ↦ new_flow | some f ↦ f ]) b in
      let p = (h.core b.core).pid in
      lookup-insert p pid (flow p) m ∙ rw e (ap (λ (k : ℕ). some (flow k)) ((==_iff p pid).0 e))

  lookup-send_other :
      (m : Dict ℕ Coroutine) (b : BatchLet)
      → ((h.core b.core).pid == pid) ≡ false
      → lookup pid (send_to_flow h m b) ≡ lookup pid m
  unfolding send_to_flow
  lookup-send_other m b e =
      let p = (h.core b.core).pid in
      lookup-insert p pid (send_batch h (elim (lookup p m) [ none ↦ new_flow | some f ↦ f ]) b) m
      ∙ rw e refl

  lookup-map_flows_from :
      (m : Dict ℕ Coroutine) (bs : List BatchLet)
      → lookup pid (map_flows h m bs) ≡ flow_behind h (lookup pid m) (calls_of h pid bs)
  unfolding map_flows calls_of
  lookup-map_flows_from m [] = refl
  lookup-map_flows_from m (b ∷ bs) = elim (Bool-cases ((h.core b.core).pid == pid)) [
    | inl e ↦ rw (e, lookup-map_flows_from (send_to_flow h m b) bs, lookup-send_self m b e) refl
    | inr n ↦ rw (n, lookup-map_flows_from (send_to_flow h m b) bs, lookup-send_other m b n) refl
  ]

  -- The flow of a process is what the coroutine makes of the calls of that process alone, in the order of
  -- the log, and there is none if the process makes no call.
  pub lookup-map_flows :
      (bs : List BatchLet) → lookup pid (map_flows h [] bs) ≡ whole_flow h (calls_of h pid bs)
  unfolding lookup
  lookup-map_flows bs = lookup-map_flows_from [] bs ∙ flow_behind-none h (calls_of h pid bs)
