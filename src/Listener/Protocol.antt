-- ===== src/Listener/Protocol.antt =====
-- internal/eventlistener/listener.go: `protocolLoop`, as a machine that waits for one thing at a
-- time. What the child writes, what the manager pushes and whether a write succeeds are the inputs;
-- between two inputs of the loop any number of pushes can come, as the source allows.
pub mod Order
pub mod Overflow
use gosupervisor.Prelude.{
  ℕ, ◌+◌, Bool, true, false, List, [], ◌∷◌, ◌++◌, Option, none, some, Text, codes, text_eq,
  trim_space, if◌then◌else◌,
}
use gosupervisor.Events.{Event}
use gosupervisor.Listener.Queue.{
  EventQueue, Popped, blocked, shut, front, push, pop, close, remove_first,
}
use gosupervisor.Listener.Wire.{encode_event}

pub data Phase : Type 0 where
  await_ready await_event ended : Phase
  await_result : Event → Phase

pub record Loop : Type 0 where
  pub phase : Phase
  pub queue : EventQueue Event
  pub pool_serial : ℕ
  -- What was written to the child's standard input.
  pub written : List Text

pub data Input : Type 0 where
  -- A line of the child without its newline, or the end of its output.
  child_line : Text → Input
  child_eof : Input
  -- `Pop` returns, and the write that follows succeeds or not.
  pop_event : (write_ok : Bool) → Input
  -- What `readResult` returns.
  child_result : Option Text → Input
  -- `Push` and `Close` by other goroutines.
  emit : Event → Input
  close_queue : Input

-- The number of deliveries is left unbounded, where the source has an `int64`.
unfoldable pub deliver : Text → Bool → Event → Loop → Loop
deliver pool write_ok e l =
    let serial = l.pool_serial + 1 in
    if write_ok
    then record l {
      pool_serial = serial;
      written = l.written ++ encode_event e (codes "gosupervisor") 0 serial pool ∷ [];
      phase = await_result e;
    }
    else record l { pool_serial = serial; phase = ended }

unfoldable pub on_popped : Text → Bool → Popped Event → Loop → Loop
unfolding deliver
on_popped pool write_ok blocked l = l
on_popped pool write_ok shut l = record l { phase = ended }
on_popped pool write_ok (front e) l = deliver pool write_ok e l

unfoldable pub advance : Text → Phase → Input → Loop → Loop
unfolding on_popped
advance pool phase (emit e) l = record l { queue = push e l.queue }
advance pool phase close_queue l = record l { queue = close l.queue }
advance pool await_ready (child_line line) l = record l {
  phase = if text_eq (trim_space line) (codes "READY") then await_event else await_ready;
}
advance pool await_ready child_eof l = record l { phase = ended }
advance pool await_event (pop_event write_ok) l = on_popped pool write_ok (pop l.queue) l
advance pool (await_result e) (child_result (some payload)) l = record l {
  phase = await_ready;
  queue = if text_eq payload (codes "OK") then remove_first l.queue else l.queue;
}
advance pool (await_result e) (child_result none) l = record l { phase = ended }
advance pool phase input l = l

unfoldable pub step : Text → Input → Loop → Loop
unfolding advance
step pool input l = advance pool l.phase input l

unfoldable pub run : Text → List Input → Loop → Loop
run pool [] l = l
run pool (i ∷ is) l = run pool is (step pool i l)
