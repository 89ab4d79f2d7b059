-- ===== src/IoManager/Refine.antt =====
-- code/ioscheduler.cpp: to its users the I/O manager is the registry of its events.
use tiny_coroutine.Base.{
  ℕ, ◌≡◌, refl, sym, ap, ◌∙◌, Bool, true, false, ◌&&◌, Option, none, some, List, [], ◌∷◌, ◌++◌,
  arith, fun_ext, ◌==◌, if◌then◌else◌,
}
use tiny_coroutine.Callback.{Callback, Event, no_event, read, write}
use tiny_coroutine.Scheduler.{Scheduler}
use tiny_coroutine.IoManager.Mask.{EventMask, has}
use tiny_coroutine.IoManager.Context.{EventContext, FdContext}
use tiny_coroutine.IoManager.{IoManager, Caller, filled_context}
use tiny_coroutine.IoManager.Slots.{is_event, slot, triggered, posted}
use tiny_coroutine.IoManager.Events.{registered_context, Added}
use tiny_coroutine.IoManager.Removal.{Removed}
use tiny_coroutine.IoManager.Ready.{Fired, IsPart, dropped}
use tiny_coroutine.IoManager.Registry.{
  Registry, Change, registers, drops, delivers, apply, apply_all, apply_all-append, set_entry,
  same_event,
}

-- What a context holds for an event, where it is registered.
abbrev pub entry : FdContext → Event → Option EventContext
entry c event = if has c.events event then some (slot c event) else none

abbrev pub registry : IoManager → Registry
registry m = record { entries = λ fd event. entry (m.contexts fd) event; schedulers = m.schedulers }

pub same_registry :
    {f g : ℕ → Event → Option EventContext} {s t : ℕ → Scheduler}
    → ((fd : ℕ) (event : Event) → f fd event ≡ g fd event)
    → s ≡ t
    → ◌≡◌ {A = Registry}
        (record { entries = f; schedulers = s })
        (record { entries = g; schedulers = t })
same_registry {f} {g} {s} {t} h e =
    ap (λ f. record { entries = f; schedulers = s }) (fun_ext λ fd. fun_ext λ event. h fd event)
    ∙ ap (λ s. record { entries = g; schedulers = s }) e

entry-registered :
    (c : FdContext) (event e : Event) (caller : Caller) (cb : Option Callback)
    → is_event event ≡ true
    → entry (registered_context c event caller cb) e
      ≡ (if same_event event e then some (filled_context caller cb) else entry c e)
entry-registered c no_event e caller cb on = cc
entry-registered c read no_event caller cb on = refl
entry-registered c read read caller cb on = refl
entry-registered c read write caller cb on = refl
entry-registered c write no_event caller cb on = refl
entry-registered c write read caller cb on = refl
entry-registered c write write caller cb on = refl

entry-triggered :
    (c : FdContext) (event e : Event)
    → is_event event ≡ true
    → entry (triggered c event) e ≡ (if same_event event e then none else entry c e)
entry-triggered c no_event e on = cc
entry-triggered c read no_event on = refl
entry-triggered c read read on = refl
entry-triggered c read write on = refl
entry-triggered c write no_event on = refl
entry-triggered c write read on = refl
entry-triggered c write write on = refl

has-is_event : (c : EventMask) (event : Event) → has c event ≡ true → is_event event ≡ true
has-is_event c no_event h = cc
has-is_event c read h = refl
has-is_event c write h = refl

-- addEvent, as a change of the registry.
abbrev pub added : Bool → ℕ → Event → Caller → Option Callback → List Change
added true fd event caller cb = registers fd event (filled_context caller cb) ∷ []
added false fd event caller cb = []

pub Added-refines :
    (m : IoManager) (fd : ℕ) (event : Event) (caller : Caller) (cb : Option Callback)
    (accepted : Bool) (r : IoManager × Bool)
    → is_event event ≡ true
    → (accepted ≡ true → has (m.contexts fd).events event ≡ false)
    → Added m fd event caller cb accepted r
    → apply_all (registry m) (added accepted fd event caller cb) ≡ some (registry r.0)
unfolding apply_all apply
Added-refines m fd event caller cb true r on free a = rw (free refl) (
    ap some (
      same_registry
        (λ i e. ground (arith, a.contexts i, entry-registered (m.contexts fd) event e caller cb on))
        (sym a.schedulers)))
Added-refines m fd event caller cb false r on free a =
    ap some (same_registry (λ i e. ground (arith, a.contexts i)) (sym a.schedulers))

-- delEvent and cancelEvent.
abbrev pub removed : Bool → Change → List Change
removed true c = c ∷ []
removed false c = []

pub dropped-refines :
    (m m' : IoManager) (fd : ℕ) (event : Event) (b : Bool)
    → (b ≡ true → has (m.contexts fd).events event ≡ true)
    → Removed m fd event b m'
    → m'.schedulers ≡ m.schedulers
    → apply_all (registry m) (removed b (drops fd event)) ≡ some (registry m')
unfolding apply_all apply
dropped-refines m m' fd event true old a s = rw (old refl) (
    ap some (
      same_registry
        (λ i e. ground (
          arith,
          a.contexts i,
          entry-triggered (m.contexts fd) event e (has-is_event _ event (old refl)),
        ))
        (sym s)))
dropped-refines m m' fd event false old a s =
    ap some (same_registry (λ i e. ground (arith, a.contexts i)) (sym s))

-- A registry after a delivery, where `b` is true.
abbrev delivered : Bool → Registry → ℕ → Event → EventContext → Registry
delivered true r fd event ctx = record {
  entries = set_entry r.entries fd event none;
  schedulers = posted r.schedulers ctx;
}
delivered false r fd event ctx = r

apply_all-delivers :
    (b : Bool) (r : Registry) (fd : ℕ) (event : Event) (ctx : EventContext)
    → (b ≡ true → r.entries fd event ≡ some ctx)
    → apply_all r (removed b (delivers fd event)) ≡ some (delivered b r fd event ctx)
unfolding apply_all apply
apply_all-delivers true r fd event ctx h = ground (arith, h refl)
apply_all-delivers false r fd event ctx h = refl

pub cancelled-refines :
    (m m' : IoManager) (fd : ℕ) (event : Event) (b : Bool)
    → (b ≡ true → has (m.contexts fd).events event ≡ true)
    → Removed m fd event b m'
    → m'.schedulers ≡ (if b then posted m.schedulers (slot (m.contexts fd) event) else m.schedulers)
    → apply_all (registry m) (removed b (delivers fd event)) ≡ some (registry m')
cancelled-refines m m' fd event b old a s =
    apply_all-delivers b (registry m) fd event (slot (m.contexts fd) event)
      (λ h. ground (arith, old h))
    ∙ ap some (same b refl)
  where
    same :
        (c : Bool)
        → b ≡ c
        → delivered c (registry m) fd event (slot (m.contexts fd) event) ≡ registry m'
    same true e =
        same_registry
          (λ i k. ground (
            arith,
            e,
            a.contexts i,
            entry-triggered (m.contexts fd) event k (has-is_event _ event (old e)),
          ))
          (ground (arith, e, s))
    same false e = same_registry (λ i k. ground (arith, e, a.contexts i)) (ground (arith, e, s))

-- cancelAll and the handling of an event: reading first.
abbrev pub fired : Bool → ℕ → EventMask → List Change
fired false fd real = []
fired true fd real =
    removed real.reads (delivers fd read) ++ removed real.writes (delivers fd write)

entry-dropped :
    (c : FdContext) (real : EventMask) (e : Event)
    → entry (dropped c real) e ≡ (if has real e then none else entry c e)
entry-dropped c real no_event = refl
entry-dropped c real read = ground arith
entry-dropped c real write = ground arith

delivered_entries :
    (r w : Bool) (x : Registry) (fd : ℕ) (a b : EventContext) (i : ℕ) (e : Event)
    → (delivered w (delivered r x fd read a) fd write b).entries i e
      ≡ (if fd == i && has (record { reads = r; writes = w }) e then none else x.entries i e)
delivered_entries true true x fd a b i no_event = ground arith
delivered_entries true true x fd a b i read = ground arith
delivered_entries true true x fd a b i write = ground arith
delivered_entries true false x fd a b i no_event = ground arith
delivered_entries true false x fd a b i read = ground arith
delivered_entries true false x fd a b i write = ground arith
delivered_entries false true x fd a b i no_event = ground arith
delivered_entries false true x fd a b i read = ground arith
delivered_entries false true x fd a b i write = ground arith
delivered_entries false false x fd a b i e = ground arith

delivered_schedulers :
    (r w : Bool) (x : Registry) (fd : ℕ) (a b : EventContext)
    → (delivered w (delivered r x fd read a) fd write b).schedulers ≡ (
        let after_read = if r then posted x.schedulers a else x.schedulers in
        if w then posted after_read b else after_read)
delivered_schedulers true true x fd a b = refl
delivered_schedulers true false x fd a b = refl
delivered_schedulers false true x fd a b = refl
delivered_schedulers false false x fd a b = refl

pub Fired-refines :
    (m m' : IoManager) (fd : ℕ) (real : EventMask)
    → IsPart real (m.contexts fd).events
    → Fired m fd real m'
    → apply_all (registry m) (fired true fd real) ≡ some (registry m')
Fired-refines m m' fd real part f =
    apply_all-append (registry m) (removed real.reads (delivers fd read)) _
    ∙ rw
        (apply_all-delivers real.reads (registry m) fd read (m.contexts fd).reader
          (λ h. ground (arith, part.0 h)))
        (apply_all-delivers real.writes _ fd write (m.contexts fd).writer (λ h. ground (
          arith,
          part.1 h,
          delivered_entries real.reads false (registry m) fd (m.contexts fd).reader
              (m.contexts fd).writer fd write,
        ))
          ∙ ap some (
              same_registry
                (λ i e. ground (
                  arith,
                  delivered_entries real.reads real.writes (registry m) fd (m.contexts fd).reader
                      (m.contexts fd).writer i e,
                  ap (λ (g : ℕ → FdContext). g i) f.contexts,
                  entry-dropped (m.contexts fd) real e,
                ))
                (delivered_schedulers real.reads real.writes (registry m) fd _ _
                  ∙ sym f.schedulers)))
