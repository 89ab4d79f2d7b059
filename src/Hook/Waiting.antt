-- ===== src/Hook/Waiting.antt =====
-- code/hook.cpp: do_io, the wait for a descriptor.
use tiny_coroutine.Base.{
  is_some, if◌then◌else◌, ◌==◌, ◌+◌, Option, none, ℕ, ◌≡◌, refl, Bool, true, false, some, List, [],
  ◌∷◌, arith, count, count-append,
}
use tiny_coroutine.FdManager.{no_timeout}
use tiny_coroutine.Hook.Io.{
  Outcome, finished, interrupted, again, failed, Wake, refused, timed_out, woken, Action,
  adds_timer, cancels_timer, adds_event, yields, Answer, value, error, kept_errno, etimedout, retry,
}

abbrev pub is_adding : Action → Bool
is_adding (adds_timer t) = true
is_adding _ = false

abbrev pub is_cancelling : Action → Bool
is_cancelling cancels_timer = true
is_cancelling _ = false

abbrev pub is_waiting : Action → Bool
is_waiting yields = true
is_waiting _ = false

abbrev pub is_event : Action → Bool
is_event adds_event = true
is_event _ = false

-- The answer that a call and the wait behind it give; `none` where the call is made again.
abbrev pub decides : ℕ → Outcome × Wake → Option Answer
decides timeout (finished n, w) = some (value n)
decides timeout (failed e, w) = some (error e)
decides timeout (interrupted, w) = none
decides timeout (again, refused) = some kept_errno
decides timeout (again, timed_out) = if timeout == no_timeout then none else some (error etimedout)
decides timeout (again, woken) = none

abbrev pub first_answer : ℕ → List (Outcome × Wake) → Option Answer
first_answer timeout [] = none
first_answer timeout (x ∷ script) =
    let rest = first_answer timeout script in
    elim (decides timeout x) [ none ↦ rest | some a ↦ some a ]

-- 1 where the loop ends since addEvent failed.
abbrev pub refusals : Option Answer → ℕ
refusals (some kept_errno) = 1
refusals _ = 0

-- What the loop of do_io comes to.
pub record Waited (timeout : ℕ) (script : List (Outcome × Wake)) (r : List Action × Option Answer)
    : Type 0 where
  pub answer : r.1 ≡ first_answer timeout script
  pub timers : is_some r.1 ≡ true → count is_adding r.0 ≡ count is_cancelling r.0
  pub waits : count is_event r.0 ≡ count is_waiting r.0 + refusals r.1

-- The loop of do_io answers what the first call says that is neither interrupted nor followed by a wait
-- in which the fiber is woken in time. It sets and cancels as many timers, once it has an answer, and
-- waits once for every event that it adds, but for the one that addEvent refuses.
pub retry-Waited :
    (timeout : ℕ) (script : List (Outcome × Wake)) → Waited timeout script (retry timeout script)
unfolding retry
retry-Waited timeout [] = record { answer = refl; timers = λ h. refl; waits = refl }
retry-Waited timeout ((finished n, w) ∷ script) = record {
  answer = refl;
  timers = λ h. refl;
  waits = refl;
}
retry-Waited timeout ((failed e, w) ∷ script) = record {
  answer = refl;
  timers = λ h. refl;
  waits = refl;
}
retry-Waited timeout ((interrupted, w) ∷ script) =
    let k = retry-Waited timeout script in
    record {
      answer = k.answer;
      timers = λ h. ground (arith, k.timers h);
      waits = ground (arith, k.waits);
    }
retry-Waited timeout ((again, refused) ∷ script) = record {
  answer = refl;
  timers = λ h. ground arith;
  waits = ground arith;
}
retry-Waited timeout ((again, timed_out) ∷ script) =
    let k = retry-Waited timeout script in
    record {
      answer = ground (arith, k.answer);
      timers = λ h. ground (arith, k.timers);
      waits = ground (arith, k.waits);
    }
retry-Waited timeout ((again, woken) ∷ script) =
    let k = retry-Waited timeout script in
    record {
      answer = k.answer;
      timers = λ h. ground (arith, k.timers h, count-append is_adding, count-append is_cancelling);
      waits = ground (arith, k.waits, count-append is_event, count-append is_waiting);
    }
