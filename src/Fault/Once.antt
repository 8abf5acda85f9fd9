-- ===== src/Fault/Once.antt =====
-- crates/csgdb-storage/src/fault.rs, `Controller::intercept`: an armed rule over a run of operations.
use csgdb.Prelude.{
  ℕ, ◌+◌, ◌≤◌, ◌<◌, ◌≡◌, refl, subst, ◌⊎◌, inl, inr, Bool, ◌&&◌, List, [], ◌∷◌, Option, none, some,
  ◌==◌, if◌then◌else◌, u64_max, saturating_add, arith,
}
use csgdb.Fault.{
  FaultTarget, FaultOperation, FaultAction, FaultRule, Controller, operation_eq, target_matches,
  arm, intercept,
}

-- The operation is one that the rule watches.
abbrev pub hits : FaultRule → FaultOperation × FaultTarget → Bool
hits r (operation, target) = operation_eq r.operation operation && target_matches r.target target

abbrev pub hits_of : FaultRule → List (FaultOperation × FaultTarget) → ℕ
hits_of r [] = 0
hits_of r (o ∷ os) = (if hits r o then 1 else 0) + hits_of r os

abbrev pub intercept_all : List (FaultOperation × FaultTarget) → Controller → Controller
intercept_all [] c = c
intercept_all (o ∷ os) c = intercept_all os (intercept o.0 o.1 c).1

module _ (r : FaultRule) where
  -- `n` of the operations so far were hits.
  abbrev Armed : ℕ → Controller → Type 0
  Armed n c =
      (n < r.occurrence) × (c.rule ≡ some r) × (c.match_count ≡ n)
      ⊎ (r.occurrence ≤ n) × (c.rule ≡ none)

  abbrev answer : Bool → ℕ → Option FaultAction
  answer hit n = if hit && (n + 1 == r.occurrence) then some r.action else none

  intercept-Armed :
      (o : FaultOperation × FaultTarget) (n : ℕ) (c : Controller)
      → r.occurrence ≤ u64_max
      → Armed n c
      → let (a, c') = intercept o.0 o.1 c in
        (a ≡ answer (hits r o) n) × Armed (n + (if hits r o then 1 else 0)) c'
  unfolding intercept saturating_add
  intercept-Armed o n c b (inl armed) = ground (arith, armed.0, armed.1, armed.2)
  intercept-Armed o n c b (inr done) = ground (arith, done.0, done.1)

  intercept_all-Armed :
      (os : List (FaultOperation × FaultTarget)) (n : ℕ) (c : Controller)
      → r.occurrence ≤ u64_max
      → Armed n c
      → Armed (n + hits_of r os) (intercept_all os c)
  intercept_all-Armed [] n c b h = subst (λ m. Armed m c) (omega arith) h
  intercept_all-Armed (o ∷ os) n c b h =
      let next = (intercept-Armed o n c b h).1 in
      subst (λ m. Armed m (intercept_all os (intercept o.0 o.1 c).1)) (omega arith)
        (intercept_all-Armed os (n + (if hits r o then 1 else 0)) _ b next)

  -- Arm a rule that fires at the occurrence-th operation that it watches, and let any operations
  -- follow: the next operation fails with the rule's action exactly if the rule watches it and it is
  -- the occurrence-th such operation since the arming; any other goes through. So the fault is
  -- injected once, however long the session runs and whatever its counters were.
  pub intercept-once :
      (os : List (FaultOperation × FaultTarget)) (o : FaultOperation × FaultTarget) (c : Controller)
      → 1 ≤ r.occurrence
      → r.occurrence ≤ u64_max
      → (intercept o.0 o.1 (intercept_all os (arm r c))).0
        ≡ (if hits r o && (hits_of r os + 1 == r.occurrence) then some r.action else none)
  unfolding arm
  intercept-once os o c p b =
      let armed = intercept_all-Armed os 0 (arm r c) b (inl (p, refl, refl)) in
      (intercept-Armed o (hits_of r os) _ b
        (subst (λ n. Armed n (intercept_all os (arm r c))) (omega arith) armed)).0
