-- ===== src/Fault/Examples.antt =====
-- A session of the fault controller: the second write to the log fails.
use csgdb.Prelude.{◌≡◌, refl, List, [], ◌∷◌, some, arith}
use csgdb.Core.Error.{ok, err, invalid_fault_rule}
use csgdb.Fault.{
  FaultRule, FaultTarget, FaultOperation, any, write_ahead_log, main_database, write, sync,
  partial_write, new, partial_write_rule, arm, intercept,
}
use csgdb.Fault.Once.{intercept_all, intercept-once}

abbrev torn : FaultRule
torn = record {
  operation = write;
  target = write_ahead_log;
  occurrence = 2;
  action = partial_write 12;
}

torn_rule : partial_write_rule write_ahead_log 2 12 ≡ ok torn
unfolding partial_write_rule
torn_rule = refl

no_occurrence : partial_write_rule any 0 12 ≡ err invalid_fault_rule
unfolding partial_write_rule
no_occurrence = refl

abbrev earlier : List (FaultOperation × FaultTarget)
earlier = (write, write_ahead_log) ∷ (sync, write_ahead_log) ∷ (write, main_database) ∷ []

intercept-once_example :
    (intercept write write_ahead_log (intercept_all earlier (arm torn new))).0
    ≡ some (partial_write 12)
intercept-once_example =
    intercept-once torn earlier (write, write_ahead_log) new (omega arith) (omega arith)
