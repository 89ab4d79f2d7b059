-- ===== src/IoManager/CancelAll.antt =====
-- code/ioscheduler.cpp: cancelAll, on every branch.
use tiny_coroutine.Base.{
  ℕ, ◌≡◌, refl, ap, sym, subst, ◌∙◌, true, false, ◌&&◌, ◌∷◌, arith, ltb, Bool-cases, inl, inr,
  ltb→lt,
}
use tiny_coroutine.Callback.{read, write}
use tiny_coroutine.IoManager.Mask.{has_any}
use tiny_coroutine.IoManager.Context.{FdContext}
use tiny_coroutine.IoManager.{Kernel, IoManager, ask, trigger_if, cancel_all, fire_all, all_request}
use tiny_coroutine.IoManager.Valid.{IsValid, HasSlots, is_legal, refused-IsValid}
use tiny_coroutine.IoManager.Ready.{
  Triggered, Fired, trigger_if-Triggered, second-Fired, halfway_context, halfway_fields,
  halfway-HasSlots,
}
use tiny_coroutine.IoManager.Handled.{Handled, fired-IsValid}
use tiny_coroutine.Result.{Returns, Returns-map, Returns-bind}

-- Both triggers, the second on what the first left, and the assertion that no event is left.
fire_all-Fired :
    (m : IoManager) (fd : ℕ)
    → HasSlots (m.contexts fd)
    → Returns (λ r. Fired m fd (m.contexts fd).events (r.0) × (r.1 ≡ true)) (fire_all m fd)
fire_all-Fired m fd s =
    Returns-bind (Triggered c.events.reads m fd read) _ (trigger_if c.events.reads m fd read) _
      (trigger_if-Triggered c.events.reads m fd read s (λ h. h))
      λ m1 t.
        let e = halfway_context m m1 fd c.events.reads t in
        let w : (m1.contexts fd).events.writes ≡ c.events.writes =
          ap (λ (x : FdContext). x.events.writes) e ∙ (halfway_fields c c.events.reads).0 in
        rw w (
          Returns-bind (Triggered c.events.writes m1 fd write) _
            (trigger_if c.events.writes m1 fd write) _
            (trigger_if-Triggered c.events.writes m1 fd write
              (subst HasSlots (sym e) (halfway-HasSlots c c.events.reads s)) (λ h. w ∙ h))
            λ m2 u. let f = second-Fired m m1 m2 fd c.events t u in rw (none_left m2 f) (f, refl))
  where
    c : FdContext
    c = m.contexts fd

    none_left : (m2 : IoManager) → Fired m fd c.events m2 → has_any (m2.contexts fd).events ≡ false
    none_left m2 f = ground (arith, ap (λ (g : ℕ → FdContext). g fd) f.contexts)

-- On a valid state cancelAll runs into no assertion and keeps the state valid. All events of the
-- descriptor are taken off and what was registered for them is scheduled, exactly if the descriptor has
-- a context with an event and epoll_ctl succeeds. It answers false exactly if there is no event.
pub cancel_all-Handled :
    (kernel : Kernel) (m : IoManager) (fd : ℕ)
    → IsValid m
    → let events = (m.contexts fd).events in
      let some_event = ltb fd m.size && has_any events in
      Returns
        (λ r.
          IsValid (r.0)
          × Handled (some_event && ask kernel m (all_request fd)) m fd events (all_request fd) (r.0)
          × (r.1 ≡ some_event))
        (cancel_all kernel m fd)
unfolding cancel_all
cancel_all-Handled kernel m fd v = elim (Bool-cases (ltb fd m.size)) [
  | inr outside ↦ rw outside (v, (refl, refl, refl, refl), refl)
  | inl inside ↦ elim (Bool-cases (has_any (m.contexts fd).events)) [
    | inr free ↦ rw (inside, free) (v, (refl, refl, refl, refl), refl)
    | inl old ↦ elim (Bool-cases (ask kernel m (all_request fd))) [
      | inr refused ↦
          rw (inside, old, refused)
            (refused-IsValid m (all_request fd) v (legal old), (refl, refl, refl, refl), refl)
      | inl accepted ↦
          rw (inside, old, accepted)
            (Returns-map (fire_all (asked_all) fd)
              (λ r f. (
                fired-IsValid m (r.0) fd (m.contexts fd).events (all_request fd) v
                    (ltb→lt _ _ inside) ((λ h. h), (λ h. h)) refl (ground arith) (legal old) f.0,
                f.0,
                f.1,
              ))
              (fire_all-Fired asked_all fd (v.slots fd)))
    ]
  ]
]
  where
    asked_all : IoManager
    asked_all = record m { requests = (all_request fd, true) ∷ m.requests }

    legal : has_any (m.contexts fd).events ≡ true → is_legal m.requests (all_request fd) ≡ true
    legal h = ground (arith, v.mirrored fd)
