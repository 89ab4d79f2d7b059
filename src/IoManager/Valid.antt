-- ===== src/IoManager/Valid.antt =====
-- code/ioscheduler.cpp: what the event contexts, the count of pending events and the kernel's interest
-- list have to do with one another.
use tiny_coroutine.Base.{
  ℕ, ◌+◌, ◌≤◌, ◌<◌, ◌≡◌, refl, ap, sym, subst, ◌∙◌, Bool, true, false, ◌&&◌, not, Option, none,
  some, List, [], ◌∷◌, arith, ◌==◌, if◌then◌else◌, is_some, update, sum_below, sum_below-change,
  sum_below-zero, fun_ext, sum_below-longer,
}
use tiny_coroutine.Scheduler.{Scheduler}
use tiny_coroutine.IoManager.Mask
use tiny_coroutine.IoManager.Mask.{EventMask, has_any}
use tiny_coroutine.IoManager.Context.{EventContext, FdContext, empty_context, new_fd_context}
use tiny_coroutine.IoManager.{ctl_add, ctl_del, Request, IoManager, context_resize, init}

-- What a successful request leaves in the interest list for its descriptor.
abbrev pub effect : Request → Option EventMask
effect r = elim r.op [ ctl_del ↦ none | _ ↦ some r.events ]

-- The kernel's interest in a descriptor, by the requests that succeeded, newest first.
abbrev pub registered : List (Request × Bool) → ℕ → Option EventMask
registered [] fd = none
registered ((r, succeeded) ∷ log) fd =
    if succeeded && r.fd == fd then effect r else registered log fd

-- ADD is for a descriptor that is not in the interest list, MOD and DEL for one that is.
abbrev pub is_legal : List (Request × Bool) → Request → Bool
is_legal log r = elim r.op [
  | ctl_add ↦ not (is_some (registered log r.fd))
  | _ ↦ is_some (registered log r.fd)
]

abbrev pub all_legal : List (Request × Bool) → Bool
all_legal [] = true
all_legal ((r, _) ∷ log) = is_legal log r && all_legal log

-- A registered event has a scheduler and either a function or a fiber, one that is not has neither.
abbrev pub IsSlot : Bool → EventContext → Type 0
IsSlot true ctx = (is_some ctx.scheduler ≡ true) × (is_some ctx.cb ≡ not (is_some ctx.fiber))
IsSlot false ctx = ctx ≡ empty_context

abbrev pub HasSlots : FdContext → Type 0
HasSlots c = IsSlot c.events.reads c.reader × IsSlot c.events.writes c.writer

-- The interest that a context stands for.
abbrev pub interest : EventMask → Option EventMask
interest events = if has_any events then some events else none

pub record IsValid (m : IoManager) : Type 0 where
  pub sized : 32 ≤ m.size
  pub numbered : (i : ℕ) → (m.contexts i).fd ≡ i
  pub blank : (i : ℕ) → m.size ≤ i → m.contexts i ≡ new_fd_context i
  pub slots : (i : ℕ) → HasSlots (m.contexts i)
  pub pending : m.pending_event_cnt ≡ sum_below m.size (λ i. Mask.size (m.contexts i).events)
  pub mirrored : (i : ℕ) → registered m.requests i ≡ interest (m.contexts i).events
  pub legal : all_legal m.requests ≡ true

pub init-IsValid : (schedulers : ℕ → Scheduler) → IsValid (init schedulers)
unfolding init context_resize
init-IsValid schedulers = record {
  sized = omega arith;
  numbered = λ i. ground arith;
  blank = λ i h. ground arith;
  slots = λ i. ground arith;
  pending = sym (sum_below-zero _ 32 (λ i lt. ground arith));
  mirrored = λ i. ground arith;
  legal = refl;
}

-- Where the table does not get shorter the contexts stay as they are.
contexts-resize :
    (m : IoManager) (size i : ℕ)
    → m.size ≤ size
    → IsValid m
    → (context_resize m size).contexts i ≡ m.contexts i
unfolding context_resize
contexts-resize m size i h v = ground (arith, v.blank i)

pub room_only :
    (m : IoManager) (size : ℕ)
    → m.size ≤ size
    → IsValid m
    → context_resize m size ≡ record m { size = size }
unfolding context_resize
room_only m size h v =
    ap (λ (c : ℕ → FdContext). record m { contexts = c; size = size })
      (fun_ext λ i. contexts-resize m size i h v)

larger-IsValid :
    (m : IoManager) (size : ℕ) → m.size ≤ size → IsValid m → IsValid (record m { size = size })
larger-IsValid m size h v = record {
  sized = omega (arith, v.sized);
  numbered = v.numbered;
  blank = λ i le. v.blank i (omega arith);
  slots = v.slots;
  pending =
      v.pending
      ∙ sym (
          sum_below-longer (λ i. Mask.size (m.contexts i).events) m.size size h
            (λ i le. ground (arith, v.blank i le)));
  mirrored = v.mirrored;
  legal = v.legal;
}

pub resize-IsValid :
    (m : IoManager) (size : ℕ) → m.size ≤ size → IsValid m → IsValid (context_resize m size)
resize-IsValid m size h v = subst IsValid (sym (room_only m size h v)) (larger-IsValid m size h v)

-- One context is written, and requests may have been made.
pub change-IsValid :
    (m : IoManager) (fd : ℕ) (c : FdContext) (pending : ℕ) (schedulers : ℕ → Scheduler)
    (requests : List (Request × Bool))
    → IsValid m
    → fd < m.size
    → c.fd ≡ fd
    → HasSlots c
    → pending + Mask.size (m.contexts fd).events ≡ m.pending_event_cnt + Mask.size c.events
    → ((i : ℕ)
        → registered requests i ≡ (if fd == i then interest c.events else registered m.requests i))
    → all_legal requests ≡ true
    → IsValid (record m {
      contexts = update m.contexts fd c;
      pending_event_cnt = pending;
      schedulers = schedulers;
      requests = requests;
    })
change-IsValid m fd c pending schedulers requests v lt numbered slots balance mirror legal =
    record {
      sized = v.sized;
      numbered = λ i. ground (arith, v.numbered i, numbered);
      blank = λ i h. ground (arith, v.blank i h);
      slots = λ i. ground (arith, v.slots i, slots);
      pending = omega (
        arith,
        v.pending,
        balance,
        sum_below-change (λ i. Mask.size (m.contexts i).events)
            (λ i. Mask.size (update m.contexts fd c i).events) m.size fd lt (λ i e. ground arith),
        ap (λ (x : FdContext). Mask.size x.events) self,
      );
      mirrored = λ i. ground (arith, mirror i, v.mirrored i);
      legal = legal;
    }
  where
    self : update m.contexts fd c fd ≡ c
    self = ground arith

-- A request that the kernel refuses changes nothing but the record of requests.
pub refused-IsValid :
    (m : IoManager) (r : Request)
    → IsValid m
    → is_legal m.requests r ≡ true
    → IsValid (record m { requests = (r, false) ∷ m.requests })
refused-IsValid m r v h = record {
  sized = v.sized;
  numbered = v.numbered;
  blank = v.blank;
  slots = v.slots;
  pending = v.pending;
  mirrored = v.mirrored;
  legal = ground (arith, h, v.legal);
}
