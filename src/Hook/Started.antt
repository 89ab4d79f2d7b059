-- ===== src/Hook/Started.antt =====
-- code/hook.cpp: how a wait with a timeout begins, and that it comes to its end.
use tiny_coroutine.Base.{
  ℕ, ◌+◌, ◌*◌, ◌≤◌, ◌<◌, ◌≡◌, refl, ap, ◌∙◌, Bool, true, false, Option, none, some, List, [], ◌∷◌,
  ◌++◌, arith, ltb, ltb→lt, leb, ◌==◌, if◌then◌else◌, contains, is_some, length, Bool-cases, inl,
  inr,
}
use tiny_coroutine.Callback.{Callback, on_timer, expire, Event, no_event, read, write}
use tiny_coroutine.Result.{done, returned}
use tiny_coroutine.FdManager.{no_timeout}
use tiny_coroutine.OrderedSet.{has_key}
use tiny_coroutine.Timer.{
  Timer, TimerManager, milliseconds, next_of, add_timer, new_timer, list_expire_cb,
}
use tiny_coroutine.Timer.Expire.{IsPaced, expired_cbs, list_expire_cb_due}
use tiny_coroutine.Timer.Lookup.{contains-add_timer}
use tiny_coroutine.Timer.Handles.{heap-add_timer}
use tiny_coroutine.IoManager.Mask.{empty_mask, has}
use tiny_coroutine.IoManager.Context.{FdContext, new_fd_context}
use tiny_coroutine.IoManager.{IoManager, Kernel, Caller, filled_context, add_event}
use tiny_coroutine.IoManager.Slots.{is_event, slot}
use tiny_coroutine.IoManager.Events.{registered_context, Added, accepts, add_event-Added}
use tiny_coroutine.IoManager.Handled.{same-IsValid}
use tiny_coroutine.Idle.{Manager, add_manager_timer}
use tiny_coroutine.Hook.Wait.{Process, set_timer, start_wait}
use tiny_coroutine.Hook.Timeout.{IsWaiting}

-- A timer that is due is among those whose functions are handed over.
expired_member :
    (now : ℕ) (heap : ℕ → Timer) (t : ℕ) (xs : List ℕ)
    → contains t xs ≡ true
    → (heap t).next ≤ now
    → (before after : List (Option Callback)) × (expired_cbs now heap xs
        ≡ before ++ (heap t).cb ∷ after)
expired_member now heap t [] h d = cc
expired_member now heap t (x ∷ xs) h d = elim (Bool-cases (x == t)) [
  | inl e ↦ ([], expired_cbs now heap xs, ground (arith, e, d))
  | inr ne ↦
      let (b, a, e) = expired_member now heap t xs (ground (arith, h, ne)) d in
      (if leb (heap x).next now then (heap x).cb ∷ b else b, a, ground (arith, e))
]

-- addTimer on an IOManager touches the schedulers only, beside the timers.
record Alike (m m' : Manager) (set : TimerManager) : Type 0 where
  contexts : m'.io.contexts ≡ m.io.contexts
  size : m'.io.size ≡ m.io.size
  pending : m'.io.pending_event_cnt ≡ m.io.pending_event_cnt
  requests : m'.io.requests ≡ m.io.requests
  timers : m'.timers ≡ set

add_manager_timer-Alike :
    (m : Manager) (ms : ℕ) (cb : Option Callback) (now : ℕ)
    → Alike m (add_manager_timer m ms cb false now).0 (add_timer m.timers ms cb false now).0
unfolding add_manager_timer
add_manager_timer-Alike m ms cb now = ground arith

add_manager_timer-id :
    (m : Manager) (ms : ℕ) (cb : Option Callback) (now : ℕ)
    → (add_manager_timer m ms cb false now).1 ≡ m.timers.fresh
unfolding add_manager_timer add_timer
add_manager_timer-id m ms cb now = refl

in_size :
    (m : IoManager) (fd : ℕ) (event : Event)
    → package.tiny_coroutine.IoManager.Valid.IsValid m
    → has (m.contexts fd).events event ≡ true
    → fd < m.size
in_size m fd event v h = elim (Bool-cases (ltb fd m.size)) [
  | inl lt ↦ ltb→lt _ _ lt
  | inr out ↦ absurd (no_event_there (v.blank fd (ground (arith, out))))
]
  where
    empty_has : (e : Event) → has empty_mask e ≡ false
    empty_has no_event = refl
    empty_has read = refl
    empty_has write = refl

    no_event_there : m.contexts fd ≡ new_fd_context fd → ⊥
    no_event_there e =
        let p : has (m.contexts fd).events event ≡ false = rw e (empty_has event) in cc

has-registered_context :
    (c : FdContext) (event : Event) (caller : Caller) (cb : Option Callback)
    → is_event event ≡ true
    → (has (registered_context c event caller cb).events event ≡ true)
      × (slot (registered_context c event caller cb) event ≡ filled_context caller cb)
has-registered_context c no_event caller cb on = cc
has-registered_context c read caller cb on = (refl, refl)
has-registered_context c write caller cb on = (refl, refl)

-- The timer of a wait that began: it is in the set, with the deadline and the function of the wait.
pub record Timed (p : Process) (info fd : ℕ) (event : Event) (due t : ℕ) : Type 0 where
  pub member : contains t p.manager.timers.timers ≡ true
  pub deadline : next_of p.manager.timers t ≡ due
  pub function : (p.manager.timers.heap t).cb ≡ some (on_timer info (expire info fd event))

-- addTimer where the deadline is free.
set_timer-Timed :
    (m : Manager) (infos : ℕ → Option Bool) (io : IoManager) (info fd : ℕ) (event : Event)
    (timeout now : ℕ)
    → package.tiny_coroutine.Timer.Valid.IsValid m.timers
    → has_key (next_of m.timers) (now + milliseconds timeout) m.timers.timers ≡ false
    → let m1 =
        (add_manager_timer m timeout (some (on_timer info (expire info fd event))) false now).0 in
      Timed
        (record { manager = record m1 { io = io }; infos = infos })
        info
        fd
        event
        (now + milliseconds timeout)
        m.timers.fresh
unfolding new_timer
set_timer-Timed m infos io info fd event timeout now v free =
    let cb = some (on_timer info (expire info fd event)) in
    let same = (add_manager_timer-Alike m timeout cb now).timers in
    let entry = heap-add_timer m.timers timeout cb false now m.timers.fresh in
    record {
      member = ground (
        arith,
        ap (λ (x : TimerManager). x.timers) same,
        contains-add_timer m.timers timeout cb false now m.timers.fresh v,
        free,
      );
      deadline = ground (arith, ap (λ (x : TimerManager). x.heap m.timers.fresh) same, entry);
      function = ground (arith, ap (λ (x : TimerManager). x.heap m.timers.fresh) same, entry);
    }

-- addEvent for a fiber, where it is accepted.
Added-IsWaiting :
    (m : IoManager) (fd : ℕ) (event : Event) (caller : Caller) (s : ℕ) (r : IoManager × Bool)
    → is_event event ≡ true
    → caller.scheduler ≡ some s
    → Added m fd event caller none true r
    → IsWaiting r.0 fd event s caller.fiber
Added-IsWaiting m fd event caller s r on sched d =
    let c = registered_context (m.contexts fd) event caller none in
    let here : (r.0).contexts fd ≡ c = ground (arith, d.contexts fd) in
    let (h, filled) = has-registered_context (m.contexts fd) event caller none on in
    let registered = ap (λ x. has x.events event) here ∙ h in
    (
      in_size r.0 fd event d.valid registered,
      registered,
      ap (λ x. slot x event) here
          ∙ filled
          ∙ ap (λ o. record { scheduler = o; fiber = some caller.fiber; cb = none }) sched,
    )

-- On valid events and timers, for READ or WRITE with a timeout, in a fiber that runs on a thread
-- with a scheduler, where the event is free, epoll_ctl takes it and no timer of the set has the
-- deadline: the wait begins. The fiber is then registered for the event with its scheduler, and a
-- timer with the function that ends the wait is in the set, with the deadline `now` plus the
-- timeout.
pub wait_starts :
    (kernel : Kernel) (p : Process) (info fd : ℕ) (event : Event) (timeout : ℕ) (caller : Caller)
    (now s : ℕ)
    → package.tiny_coroutine.IoManager.Valid.IsValid p.manager.io
    → package.tiny_coroutine.Timer.Valid.IsValid p.manager.timers
    → is_event event ≡ true
    → (caller.scheduler ≡ some s) × (caller.is_running ≡ true)
    → (timeout == no_timeout) ≡ false
    → has_key (next_of p.manager.timers) (now + milliseconds timeout) p.manager.timers.timers
      ≡ false
    → accepts kernel p.manager.io fd event caller none ≡ true
    → (p' : Process) × (t : ℕ) × (start_wait kernel p info fd event timeout caller now
        ≡ done (p', some t, true))
      × package.tiny_coroutine.IoManager.Valid.IsValid p'.manager.io
      × IsWaiting p'.manager.io fd event s caller.fiber
      × Timed p' info fd event (now + milliseconds timeout) t
unfolding start_wait set_timer add_manager_timer
wait_starts kernel p info fd event timeout caller now s v tv on (sched, runs) timed free taken =
    let cb = on_timer info (expire info fd event) in
    let m1 = (add_manager_timer p.manager timeout (some cb) false now).0 in
    let a = add_manager_timer-Alike p.manager timeout (some cb) now in
    let v1 = same-IsValid p.manager.io m1.io a.contexts a.size a.pending a.requests v in
    let taken1 : accepts kernel m1.io fd event caller none ≡ true =
      rw (a.contexts, a.requests) taken in
    let (r, e, d) =
      returned (Added m1.io fd event caller none true) (add_event kernel m1.io fd event caller none)
        (rw (← taken1) (
          add_event-Added kernel m1.io fd event caller none v1 on
            (ap is_some sched, ground (arith, runs)))) in
    (
      record p { manager = record m1 { io = r.0 } },
      p.manager.timers.fresh,
      rw (timed, e, d.answer) refl,
      d.valid,
      Added-IsWaiting m1.io fd event caller s r on sched d,
      set_timer-Timed p.manager p.infos r.0 info fd event timeout now tv free,
    )

-- On valid timers that have a period if they recur, while the clock does not run back by more than
-- an hour: once the deadline of a wait's timer has come, listExpireCb ends and hands over the
-- function that ends the wait.
pub wait_expires :
    (fuel : ℕ) (p : Process) (info fd : ℕ) (event : Event) (due t now later : ℕ)
    → package.tiny_coroutine.Timer.Valid.IsValid p.manager.timers
    → IsPaced p.manager.timers
    → p.manager.timers.pre_time ≤ later + milliseconds (60 * 60 * 1000)
    → length p.manager.timers.timers < fuel
    → Timed p info fd event due t
    → due ≤ now
    → (timers : TimerManager) × (before after : List (Option Callback)) × (list_expire_cb fuel
          p.manager.timers now later
        ≡ some (timers, before ++ some (on_timer info (expire info fd event)) ∷ after))
wait_expires fuel p info fd event due t now later v paced steady enough timed over =
    let (timers, run, _) =
      list_expire_cb_due fuel p.manager.timers now later v paced steady enough in
    let (before, after, e) =
      expired_member now p.manager.timers.heap t p.manager.timers.timers timed.member
        (ground (arith, timed.deadline)) in
    (
      timers,
      before,
      after,
      run
          ∙ ap (λ l. some (timers, l)) e
          ∙ ap (λ f. some (timers, before ++ f ∷ after)) timed.function,
    )
