-- ===== src/Common/EventTypes.antt =====
-- backend/common/event_types.py: the kinds of audit events.
use workato_take_home.Prelude.{ℕ, ◌≡◌, arith, Comparable, by_index}

pub data EventType : Type 0 where
  order_created state_transition courier_picked_up retry_scheduled : EventType
  order_cancelled order_failed : EventType

abbrev pub event_index : EventType → ℕ
event_index order_created = 0
event_index state_transition = 1
event_index courier_picked_up = 2
event_index retry_scheduled = 3
event_index order_cancelled = 4
event_index order_failed = 5

pub event_index-injective : (s t : EventType) → event_index s ≡ event_index t → s ≡ t
event_index-injective s t h = ground arith

instance abbrev pub event_eq : Comparable EventType
event_eq = by_index event_index event_index-injective
