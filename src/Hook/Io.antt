-- ===== src/Hook/Io.antt =====
-- code/hook.cpp: do_io, the calls that it is used for, and connect_with_timeout.
use tiny_coroutine.Base.{
  ℕ, Bool, true, ◌||◌, not, Option, none, some, List, [], ◌∷◌, ◌++◌, ◌==◌, if◌then◌else◌, pos,
}
use tiny_coroutine.Callback.{Event}
use tiny_coroutine.Result.{Result, done, ◌>>=◌}
use tiny_coroutine.FdManager.{Os, FdManager, get, get_timeout, so_rcvtimeo, so_sndtimeo, no_timeout}
use tiny_coroutine.Hook.{known}

-- What a call of the system comes to: a value, or -1 with errno EINTR, EAGAIN or another.
pub data Outcome : Type 0 where
  finished : ℕ → Outcome
  interrupted : Outcome
  again : Outcome
  failed : ℕ → Outcome

-- What a wait comes to: addEvent fails, or the fiber is woken, after the time has run out or before.
pub data Wake : Type 0 where
  refused : Wake
  timed_out : Wake
  woken : Wake

pub data Action : Type 0 where
  calls : Action
  adds_timer : ℕ → Action
  cancels_timer : Action
  adds_event : Action
  yields : Action

-- A value, or -1 with an errno; `kept_errno` where do_io leaves errno as addEvent left it.
pub data Answer : Type 0 where
  value : ℕ → Answer
  error : ℕ → Answer
  kept_errno : Answer

abbrev pub eintr : ℕ
eintr = 4

abbrev pub ebadf : ℕ
ebadf = 9

abbrev pub eagain : ℕ
eagain = 11

abbrev pub etimedout : ℕ
etimedout = 110

-- The answer where the call is not taken care of.
abbrev pub plain : Outcome → Answer
plain (finished n) = value n
plain interrupted = error eintr
plain again = error eagain
plain (failed e) = error e

-- The actions on a timer, if there is one.
abbrev pub timer_action : ℕ → Action → List Action
timer_action timeout a = if timeout == no_timeout then [] else a ∷ []

-- do_io from `retry` on: what it does, and what it answers, for the outcomes of the calls, with the
-- wait that follows where a call comes to EAGAIN; `none` where it has not come to its end.
unfoldable pub retry : ℕ → List (Outcome × Wake) → List Action × Option Answer
retry timeout [] = ([], none)
retry timeout ((outcome, result) ∷ script) =
    let rest = retry timeout script in
    elim outcome [
      | finished n ↦ (calls ∷ [], some (value n))
      | failed e ↦ (calls ∷ [], some (error e))
      | interrupted ↦ (calls ∷ rest.0, rest.1)
      | again ↦
          let before = calls ∷ timer_action timeout (adds_timer timeout) ++ adds_event ∷ [] in
          let cancels = timer_action timeout cancels_timer in
          elim result [
            | refused ↦ (before ++ cancels, some kept_errno)
            | timed_out ↦
                if timeout == no_timeout
                then (before ++ yields ∷ rest.0, rest.1)
                else (before ++ yields ∷ cancels, some (error etimedout))
            | woken ↦ (before ++ yields ∷ cancels ++ rest.0, rest.1)
          ]
    ]

-- The first call, and its answer.
abbrev pub direct : List (Outcome × Wake) → List Action × Option Answer
direct [] = ([], none)
direct ((outcome, _) ∷ script) = (calls ∷ [], some (plain outcome))

-- do_io
unfoldable pub do_io :
    Bool → Os → FdManager → ℕ → ℕ → List (Outcome × Wake) → List Action × Option Answer
unfolding get_timeout retry known
do_io enabled os m fd timeout_so script =
    if not enabled then direct script else elim (known os m fd) [
      | none ↦ direct script
      | some p ↦
          let c = m.heap p in
          let waiting = retry (get_timeout c timeout_so) script in
          if c.is_closed
          then ([], some (error ebadf))
          else if c.is_socket || c.user_nonblock
          then direct script
          else waiting
    ]

-- The calls that do_io is used for.
pub data IoCall : Type 0 where
  accept read readv recv recvfrom recvmsg write writev send sendto sendmsg : IoCall

abbrev pub event_of : IoCall → Event
event_of accept = Event.read
event_of read = Event.read
event_of readv = Event.read
event_of recv = Event.read
event_of recvfrom = Event.read
event_of recvmsg = Event.read
event_of write = Event.write
event_of writev = Event.write
event_of send = Event.write
event_of sendto = Event.write
event_of sendmsg = Event.write

-- The option that holds a call's timeout.
abbrev pub timeout_of : IoCall → ℕ
timeout_of c = elim (event_of c) [ Event.write ↦ so_sndtimeo | _ ↦ so_rcvtimeo ]

-- A call as the library replaces it; accept makes an object for the descriptor that it answers.
unfoldable pub io_call :
    Bool → Os → FdManager → ℕ → IoCall → List (Outcome × Wake) → List Action × Option Answer
unfolding do_io
io_call enabled os m fd c script = do_io enabled os m fd (timeout_of c) script

unfoldable pub accepted : Os → FdManager → Answer → Result FdManager
unfolding get
accepted os m (value fd) = if fd == 0 then done m else (get os m (pos fd) true >>= λ r. done (r.0))
accepted os m (error e) = done m
accepted os m kept_errno = done m

abbrev pub einprogress : ℕ
einprogress = 115

-- The end of connect_with_timeout, by what getsockopt says of SO_ERROR; `none` where it fails.
abbrev pub connect_error : Option ℕ → Answer
connect_error none = kept_errno
connect_error (some e) = if e == 0 then value 0 else error e

-- connect_with_timeout behind a connect_f that is in progress.
abbrev pub connect_wait : ℕ → Wake → Option ℕ → List Action × Answer
connect_wait timeout result so_error =
    let before = calls ∷ timer_action timeout (adds_timer timeout) ++ adds_event ∷ [] in
    let cancels = timer_action timeout cancels_timer in
    elim result [
      | refused ↦ (before ++ cancels, connect_error so_error)
      | woken ↦ (before ++ yields ∷ cancels, connect_error so_error)
      | timed_out ↦
          if timeout == no_timeout
          then (before ++ yields ∷ [], connect_error so_error)
          else (before ++ yields ∷ cancels, error etimedout)
    ]

-- connect_with_timeout
unfoldable pub connect_with_timeout :
    Bool → Os → FdManager → ℕ → ℕ → Outcome → Wake → Option ℕ → List Action × Answer
unfolding known
connect_with_timeout enabled os m fd timeout outcome result so_error =
    let direct : List Action × Answer = (calls ∷ [], plain outcome) in
    let waiting = elim outcome as (λ _. List Action × Answer) [
      | failed e ↦
          if e == einprogress then connect_wait timeout result so_error else (calls ∷ [], error e)
      | _ ↦ (calls ∷ [], plain outcome)
    ] in
    if not enabled then direct else elim (known os m fd) [
      | none ↦ ([], error ebadf)
      | some p ↦
          let c = m.heap p in
          if c.is_closed
          then ([], error ebadf)
          else if not c.is_socket || c.user_nonblock
          then direct
          else waiting
    ]
