-- ===== src/Policy.antt =====
-- Attribute-based access control: the values of a condition and of a request (Value), the
-- evaluation of conditions (Condition), the decision over the stored policies (Decision), and the
-- table of policies (Store), from aird/services/policy_service.py, aird/domain/models.py and
-- aird/db/policies.py.
pub mod Value
pub mod Condition
pub mod Decision
pub mod Store
mod Examples
