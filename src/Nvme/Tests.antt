-- ===== src/Nvme/Tests.antt =====
-- The theorems about hil/nvme/queue.cc at work on queues of two and four entries.
use testing.Common.{ℕ, ◌+◌, ◌≡◌, refl, ok, panic, arith, queue_overflow}
use testing.Nvme.Queue.{
  CompletionQueue, create_queue, create_completion, get_item_count, set_data, inc_head,
}
use testing.Nvme.Queue.Laps.{Laps, next_lap, get_item_count_lem}
use testing.Nvme.Queue.Steps.{
  Put, set_data_lem, set_data_full_lem, inc_head_lem, create_completion_lem,
}

-- A completion queue of two entries of 16 bytes.
abbrev small_queue : CompletionQueue
small_queue = create_completion 2 16

small_queue-Laps : Laps (create_completion 2 16) 0 0 0
small_queue-Laps = create_completion_lem 2 16 (omega arith) (omega arith)

size_is : small_queue.queue.size ≡ 2
size_is = unfold create_completion create_queue in refl

set_data_example :
    (address tagged : ℕ) × (d : CompletionQueue) × (set_data small_queue 6
      ≡ ok ((address, tagged), d))
    × Put small_queue 0 0 0 address tagged d
set_data_example = set_data_lem small_queue 0 0 0 6 small_queue-Laps (omega (arith, size_is))

-- The queue once an entry was put in.
abbrev after_put : CompletionQueue
after_put = set_data_example.2

abbrev lap_in : ℕ
lap_in = next_lap small_queue.queue.size small_queue.queue.tail 0

put-Laps : Laps after_put lap_in 0 1
put-Laps = set_data_example.4.laps

full : 1 + 1 ≡ after_put.queue.size
full = omega (arith, set_data_example.4.size, size_is)

set_data_full_example : set_data after_put 7 ≡ panic queue_overflow
set_data_full_example = set_data_full_lem after_put lap_in 0 1 7 put-Laps full

inc_head_example :
    Laps (inc_head after_put) lap_in (next_lap after_put.queue.size after_put.queue.head 0) 0
inc_head_example = inc_head_lem after_put lap_in 0 0 put-Laps

get_item_count_example : get_item_count (after_put.queue) ≡ 1
get_item_count_example = get_item_count_lem (after_put.queue) lap_in 0 1 put-Laps.ring

abbrev one : ℕ
one = 1
