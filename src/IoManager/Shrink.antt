-- ===== src/IoManager/Shrink.antt =====
-- code/ioscheduler.cpp: the section of addEvent under the write lock, when another thread has made the
-- table longer than it is about to.
use tiny_coroutine.Base.{
  ℕ, ◌*◌, ◌/◌, ◌≤◌, ◌≡◌, refl, true, false, some, arith, ltb, Bool-cases, inl, inr,
}
use tiny_coroutine.Callback.{Event}
use tiny_coroutine.IoManager.Mask.{has}
use tiny_coroutine.IoManager.Context.{new_fd_context}
use tiny_coroutine.IoManager.{
  Kernel, IoManager, grow, context_resize, addition, del_event, cancel_event, cancel_all,
}
use tiny_coroutine.IoManager.Valid.{IsValid, registered, is_legal}
use tiny_coroutine.IoManager.Slots.{has_any-has}
use tiny_coroutine.Result.{done}

-- An event that the state `m` has registered is counted and in the interest list of epoll also in `m'`,
-- but the table of `m'` does not know it: its calls answer false and change nothing, and a new addEvent
-- asks epoll_ctl to add a descriptor that is in the list.
pub record IsLost (kernel : Kernel) (m : IoManager) (fd : ℕ) (event : Event) (m' : IoManager)
    : Type 0 where
  pub counted : m'.pending_event_cnt ≡ m.pending_event_cnt
  pub watched : registered m'.requests fd ≡ some (m.contexts fd).events
  pub context : m'.contexts fd ≡ new_fd_context fd
  pub cancelled : cancel_event kernel m' fd event ≡ done (m', false)
  pub deleted : del_event kernel m' fd event ≡ done (m', false)
  pub all_cancelled : cancel_all kernel m' fd ≡ done (m', false)
  pub refused : is_legal m'.requests (addition (m'.contexts fd) fd event) ≡ false
  pub invalid : IsValid m' → ⊥

-- A table without a context for the descriptor has lost the event.
lost :
    (kernel : Kernel) (m : IoManager) (fd : ℕ) (event : Event) (m' : IoManager)
    → IsValid m
    → has (m.contexts fd).events event ≡ true
    → m'.pending_event_cnt ≡ m.pending_event_cnt
    → m'.requests ≡ m.requests
    → m'.contexts fd ≡ new_fd_context fd
    → IsLost kernel m fd event m'
unfolding cancel_event del_event cancel_all
lost kernel m fd event m' v h same log new = record {
  counted = same;
  watched = watched;
  context = new;
  cancelled = elim (Bool-cases (ltb fd m'.size)) [
    | inl b ↦ rw (b, new) (ground arith)
    | inr b ↦ rw b refl
  ];
  deleted = elim (Bool-cases (ltb fd m'.size)) [
    | inl b ↦ rw (b, new) (ground arith)
    | inr b ↦ rw b refl
  ];
  all_cancelled = elim (Bool-cases (ltb fd m'.size)) [
    | inl b ↦ rw (b, new) (ground arith)
    | inr b ↦ rw b refl
  ];
  refused = rw new (ground (arith, watched));
  invalid = λ v'. ground (arith, watched, v'.mirrored fd, new);
}
  where
    watched : registered m'.requests fd ≡ some (m.contexts fd).events
    watched = rw log (ground (arith, v.mirrored fd, has_any-has (m.contexts fd).events event h))

-- On a valid state where an event of a descriptor is registered, once the write section of another
-- addEvent makes the table of contexts too short for that descriptor, as it can where two threads
-- found the table too short: the event stays counted and in the interest list of epoll, but
-- cancelEvent, delEvent and cancelAll answer false and change nothing, the request of a new addEvent
-- is an EPOLL_CTL_ADD for a descriptor that is in that list, and the state is not valid; also after
-- the write section of any further addEvent.
pub late_resize_loses :
    (kernel : Kernel) (m : IoManager) (fd : ℕ) (event : Event) (late later : ℕ)
    → IsValid m
    → has (m.contexts fd).events event ≡ true
    → late * 3 / 2 ≤ fd
    → IsLost kernel m fd event (grow m late) × IsLost kernel m fd event (grow (grow m late) later)
unfolding context_resize
late_resize_loses kernel m fd event late later v h short = (
  lost kernel m fd event (grow m late) v h refl refl (ground arith),
  lost kernel m fd event (grow (grow m late) later) v h refl refl (ground arith),
)
