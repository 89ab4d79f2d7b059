-- ===== src/Callback.antt =====
-- Closures, by name: std::function<void()> values that the timers, the scheduler and the events of
-- the I/O manager store and hand on. A null function is `none` of `Option Callback`.
use tiny_coroutine.Base.{ℕ}

-- The bits of IOManager::Event, code/ioscheduler.h.
pub data Event : Type 0 where
  no_event read write : Event

pub data Callback : Type 0 where
  -- A function of the user of the library.
  user : ℕ → Callback
  -- std::bind(&OnTimer, weak_cond, cb).
  on_timer : ℕ → Callback → Callback
  -- [fiber, iom] () { iom->scheduleLock(fiber); }
  wake : ℕ → Callback
  -- [winfo, fd, iom, event] () { … t->cancelled = ETIMEDOUT; iom->cancelEvent(fd, event); }
  expire : ℕ → ℕ → Event → Callback
