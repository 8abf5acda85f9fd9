-- ===== src/Fault.antt =====
-- crates/csgdb-storage/src/fault.rs: the controller of injected storage faults. One session at a time
-- owns it; `register_vfs` and the callbacks that ask the controller are C and are not modelled.
pub mod Once
mod Examples
use csgdb.Prelude.{
  ℕ, Bool, true, false, not, ◌&&◌, ◌||◌, Option, none, some, ◌==◌, saturating_add, if◌then◌else◌,
}
use csgdb.Core.Error.{Result, ok, reject_if, ◌>>◌, invalid_fault_rule}

pub data FaultTarget : Type 0 where
  any main_database write_ahead_log : FaultTarget

pub data FaultOperation : Type 0 where
  write sync truncate : FaultOperation

pub data FaultAction : Type 0 where
  error : FaultAction
  partial_write : ℕ → FaultAction

pub record FaultRule : Type 0 where
  pub operation : FaultOperation
  pub target : FaultTarget
  pub occurrence : ℕ
  pub action : FaultAction

abbrev rule_new : FaultOperation → FaultTarget → ℕ → FaultAction → Result FaultRule
rule_new operation target occurrence action =
    reject_if (occurrence == 0) invalid_fault_rule
    >> ok (record {
      operation = operation;
      target = target;
      occurrence = occurrence;
      action = action;
    })

unfoldable pub write_error : FaultTarget → ℕ → Result FaultRule
write_error target occurrence = rule_new write target occurrence error

unfoldable pub partial_write_rule : FaultTarget → ℕ → ℕ → Result FaultRule
partial_write_rule target occurrence prefix_bytes =
    reject_if (prefix_bytes == 0) invalid_fault_rule
    >> rule_new write target occurrence (partial_write prefix_bytes)

unfoldable pub sync_error : FaultTarget → ℕ → Result FaultRule
sync_error target occurrence = rule_new sync target occurrence error

unfoldable pub truncate_error : FaultTarget → ℕ → Result FaultRule
truncate_error target occurrence = rule_new truncate target occurrence error

pub record FaultStats : Type 0 where
  pub writes : ℕ
  pub syncs : ℕ
  pub truncates : ℕ
  pub matching_operations : ℕ
  pub injections : ℕ

pub record Controller : Type 0 where
  pub rule : Option FaultRule
  pub match_count : ℕ
  pub stats : FaultStats

-- `Controller::new`, and the state to which `reset_controller` returns.
unfoldable pub new : Controller
new = record {
  rule = none;
  match_count = 0;
  stats = record { writes = 0; syncs = 0; truncates = 0; matching_operations = 0; injections = 0 };
}

-- `FaultSession::arm` and `FaultSession::disarm`.
unfoldable pub arm : FaultRule → Controller → Controller
arm rule c = record c { rule = some rule; match_count = 0 }

unfoldable pub disarm : Controller → Controller
disarm c = record c { rule = none; match_count = 0 }

abbrev operation_eq : FaultOperation → FaultOperation → Bool
operation_eq write write = true
operation_eq sync sync = true
operation_eq truncate truncate = true
operation_eq _ _ = false

abbrev target_eq : FaultTarget → FaultTarget → Bool
target_eq any any = true
target_eq main_database main_database = true
target_eq write_ahead_log write_ahead_log = true
target_eq _ _ = false

abbrev target_matches : FaultTarget → FaultTarget → Bool
target_matches expected actual = target_eq expected any || target_eq expected actual

abbrev count_operation : FaultOperation → FaultStats → FaultStats
count_operation write s = record s { writes = saturating_add s.writes 1 }
count_operation sync s = record s { syncs = saturating_add s.syncs 1 }
count_operation truncate s = record s { truncates = saturating_add s.truncates 1 }

abbrev count_match : FaultStats → FaultStats
count_match s = record s { matching_operations = saturating_add s.matching_operations 1 }

abbrev count_injection : FaultStats → FaultStats
count_injection s = record s { injections = saturating_add s.injections 1 }

-- The rule has met an operation that matches it.
abbrev strike : FaultRule → Controller → Option FaultAction × Controller
strike r c =
    if c.match_count == r.occurrence
    then (some r.action, record c { rule = none; stats = count_injection c.stats })
    else (none, c)

abbrev apply_rule :
    Option FaultRule → FaultOperation → FaultTarget → Controller → Option FaultAction × Controller
apply_rule none operation target c = (none, c)
apply_rule (some r) operation target c =
    if not (operation_eq r.operation operation) || not (target_matches r.target target)
    then (none, c)
    else strike r
        (record c { match_count = saturating_add c.match_count 1; stats = count_match c.stats })

unfoldable pub intercept :
    FaultOperation → FaultTarget → Controller → Option FaultAction × Controller
intercept operation target c =
    apply_rule c.rule operation target (record c { stats = count_operation operation c.stats })
