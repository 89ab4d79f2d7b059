-- ===== src/IoManager/Mask.antt =====
-- IOManager::Event of code/ioscheduler.h as a set of bits, READ = 0x1 and WRITE = 0x4.
use Prim.Native.Nat.{bit_and, bit_or}
use tiny_coroutine.Base.{
  ℕ, ◌+◌, ◌-◌, ◌≡◌, refl, Bool, true, false, ◌&&◌, ◌||◌, not, if◌then◌else◌, ◌==◌,
}
use tiny_coroutine.Callback.{Event, no_event, read, write}

pub record EventMask : Type 0 where
  pub reads : Bool
  pub writes : Bool

abbrev pub empty_mask : EventMask
empty_mask = record { reads = false; writes = false }

abbrev pub event_bits : Event → ℕ
event_bits no_event = 0x0
event_bits read = 0x1
event_bits write = 0x4

-- The number that the source keeps.
abbrev pub bits : EventMask → ℕ
bits m = (if m.reads then 0x1 else 0x0) + (if m.writes then 0x4 else 0x0)

-- m_event & event
abbrev pub has : EventMask → Event → Bool
has m no_event = false
has m read = m.reads
has m write = m.writes

-- m_event, as a condition
abbrev pub has_any : EventMask → Bool
has_any m = m.reads || m.writes

-- m_event | event
abbrev pub with_event : EventMask → Event → EventMask
with_event m no_event = m
with_event m read = record m { reads = true }
with_event m write = record m { writes = true }

-- m_event & ~event
abbrev pub without : EventMask → Event → EventMask
without m no_event = m
without m read = record m { reads = false }
without m write = record m { writes = false }

-- a & b, and a & ~b
abbrev pub meet : EventMask → EventMask → EventMask
meet a b = record { reads = a.reads && b.reads; writes = a.writes && b.writes }

abbrev pub minus : EventMask → EventMask → EventMask
minus a b = record { reads = a.reads && not b.reads; writes = a.writes && not b.writes }

-- The number of bits set.
abbrev pub size : EventMask → ℕ
size m = (if m.reads then 1 else 0) + (if m.writes then 1 else 0)

-- The tests and the two updates of the event mask are those of the bits of IOManager::Event.
pub bits_agree :
    (m : EventMask) (e : Event)
    → (has m e ≡ not (bit_and (bits m) (event_bits e) == 0))
      × (bits (with_event m e) ≡ bit_or (bits m) (event_bits e))
      × (bits (without m e) ≡ bit_and (bits m) (7 - event_bits e))
      × (has_any m ≡ not (bits m == 0))
bits_agree m e = table m.reads m.writes e
  where
    table :
        (r w : Bool) (e : Event)
        → let m : EventMask = record { reads = r; writes = w } in
          (has m e ≡ not (bit_and (bits m) (event_bits e) == 0))
          × (bits (with_event m e) ≡ bit_or (bits m) (event_bits e))
          × (bits (without m e) ≡ bit_and (bits m) (7 - event_bits e))
          × (has_any m ≡ not (bits m == 0))
    table false false no_event = (refl, refl, refl, refl)
    table false false read = (refl, refl, refl, refl)
    table false false write = (refl, refl, refl, refl)
    table false true no_event = (refl, refl, refl, refl)
    table false true read = (refl, refl, refl, refl)
    table false true write = (refl, refl, refl, refl)
    table true false no_event = (refl, refl, refl, refl)
    table true false read = (refl, refl, refl, refl)
    table true false write = (refl, refl, refl, refl)
    table true true no_event = (refl, refl, refl, refl)
    table true true read = (refl, refl, refl, refl)
    table true true write = (refl, refl, refl, refl)
