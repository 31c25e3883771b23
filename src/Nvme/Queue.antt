-- ===== src/Nvme/Queue.antt =====
-- `Queue`, `CQueue` and `SQueue` of hil/nvme/queue.cc. The identifiers of a queue stay out.
pub mod Laps
pub mod Steps
use Prim.Native.Nat.{bit_and, bit_or}
use testing.Common.{
  ℕ, ◌+◌, ◌-◌, ◌*◌, ◌%◌, ◌^◌, Bool, true, false, not, Option, none, some, Result, ok, panic,
  if◌then◌else◌, ◌==◌, leb, queue_overflow,
}

pub record Queue : Type 0 where
  pub head : ℕ
  pub tail : ℕ
  pub size : ℕ
  pub stride : ℕ

-- `Queue(qid, length)` and `setBase`.
unfoldable pub create_queue : ℕ → ℕ → Queue
create_queue length stride = record { head = 0; tail = 0; size = length; stride = stride }

-- `getItemCount`, with the arithmetic of int cut to 16 bits.
unfoldable pub get_item_count : Queue → ℕ
get_item_count q =
    if leb q.head q.tail
    then (q.tail - q.head) % 2 ^ 16
    else (q.size + 2 ^ 32 - q.head + q.tail) % 2 ^ 16

-- The position after `position`.
unfoldable pub next_position : ℕ → ℕ → ℕ
next_position size position = let next = (position + 1) % 2 ^ 16 in if next == size then 0 else next

pub record CompletionQueue : Type 0 where
  pub queue : Queue
  pub phase : Bool

-- `CQueue(iv, en, qid, size)`: the first lap has phase 1.
unfoldable pub create_completion : ℕ → ℕ → CompletionQueue
unfolding create_queue
create_completion size stride = record { queue = create_queue size stride; phase = true }

-- The status word of an entry with the phase bit of the queue.
unfoldable pub tag_status : Bool → ℕ → ℕ
tag_status phase status = bit_or (bit_and status 65534) (if phase then 1 else 0)

-- `setData`: the address that is written with the status word, and the new queue. No
-- caller passes a null entry, with which nothing happens.
unfoldable pub set_data : CompletionQueue → ℕ → Result ((ℕ × ℕ) × CompletionQueue)
unfolding next_position tag_status
set_data c status =
    let q = c.queue in
    let tail = next_position q.size q.tail in
    let phase = if (q.tail + 1) % 2 ^ 16 == q.size then not c.phase else c.phase in
    if q.head == tail
    then panic queue_overflow
    else ok (
      (q.tail * q.stride, tag_status c.phase status),
      record { queue = record q { tail = tail }; phase = phase },
    )

-- `incHead`: the host has consumed an entry.
unfoldable pub inc_head : CompletionQueue → CompletionQueue
unfolding next_position
inc_head c = let q = c.queue in record c { queue = record q { head = next_position q.size q.head } }

-- `getData` of a submission queue: the address that is read, unless the queue is empty.
unfoldable pub get_data : Queue → Option ℕ × Queue
unfolding next_position
get_data q =
    if q.head == q.tail
    then (none, q)
    else (some (q.head * q.stride), record q { head = next_position q.size q.head })

-- `setHead` and `setTail`: the host moves its end by a doorbell.
unfoldable pub set_head : CompletionQueue → ℕ → CompletionQueue
set_head c new_head = let q = c.queue in record c { queue = record q { head = new_head } }

unfoldable pub set_tail : Queue → ℕ → Queue
set_tail q new_tail = record q { tail = new_tail }
