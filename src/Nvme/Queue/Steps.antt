-- ===== src/Nvme/Queue/Steps.antt =====
-- The operations of hil/nvme/queue.cc on each branch.
use Prim.Native.Nat.{bit_and}
use testing.Common.{
  ℕ, zero, suc, subst, ◌+◌, ◌*◌, ◌%◌, ◌^◌, ◌<◌, ◌≡◌, ◌∙◌, ◌⊎◌, refl, inl, inr, Bool, true, false,
  not, none, some, ok, panic, if◌then◌else◌, ◌==◌, arith, queue_overflow,
}
use testing.Common.Words.{test_bit, test_bit-or, test_bit-and}
use testing.Nvme.Queue.{
  Queue, CompletionQueue, next_position, tag_status, set_data, inc_head, get_data, create_queue,
  create_completion,
}
use testing.Nvme.Queue.Laps.{Ring, Laps, next_lap, put-Ring, take-Ring}

-- Bit 0 of the status word is the phase.
pub tag_status-phase : (phase : Bool) (status : ℕ) → test_bit (tag_status phase status) 0 ≡ phase
unfolding tag_status
tag_status-phase true status =
    test_bit-or 0 (bit_and status 65534) 1
    ∙ rw (test_bit-and 0 status 65534) (unfold test_bit in ground arith)
tag_status-phase false status =
    test_bit-or 0 (bit_and status 65534) 0
    ∙ rw (test_bit-and 0 status 65534) (unfold test_bit in ground arith)

next_phase :
    (size position lap : ℕ) (phase : Bool)
    → phase ≡ (lap % 2 == 0)
    → (if (position + 1) % 2 ^ 16 == size then not phase else phase)
      ≡ (next_lap size position lap % 2 == 0)
unfolding next_lap
next_phase size position lap phase e = ground (arith, e)

-- The tail does not run into the head while there is room.
room_left :
    (q : Queue) (a b n : ℕ)
    → Ring q a b n
    → n + 1 < q.size
    → (q.head == next_position q.size q.tail) ≡ false
room_left q a b n r more = elim (put-Ring q a b n r more).waiting [
  | inl (_, e) ↦ ground (arith, e)
  | inr (_, e) ↦ ground (arith, e, more)
]

no_room :
    (q : Queue) (a b n : ℕ)
    → Ring q a b n
    → n + 1 ≡ q.size
    → (q.head == next_position q.size q.tail) ≡ true
unfolding next_position
no_room q a b n r full = elim r.waiting [
  | inl (_, e) ↦ ground (arith, e, full, r.tail, r.small)
  | inr (_, e) ↦ ground (arith, e, full, r.head, r.small)
]

-- What `setData` does to a queue with room.
pub record Put (c : CompletionQueue) (lap_in lap_out n address tagged : ℕ) (d : CompletionQueue)
    : Type 0 where
  pub address_is : address ≡ c.queue.tail * c.queue.stride
  pub tag : test_bit tagged 0 ≡ (lap_in % 2 == 0)
  pub laps : Laps d (next_lap c.queue.size c.queue.tail lap_in) lap_out (n + 1)
  pub head : d.queue.head ≡ c.queue.head
  pub size : d.queue.size ≡ c.queue.size

-- On a completion queue with `n` entries waiting and room for one more (`n + 1` below the size,
-- since one place stays free), `setData` succeeds: the entry goes to the address of the old tail,
-- its phase bit is 1 exactly on even laps of the tail, `n + 1` entries wait, and the head and the
-- size stay.
pub set_data_lem :
    (c : CompletionQueue) (lap_in lap_out n status : ℕ)
    → Laps c lap_in lap_out n
    → n + 1 < c.queue.size
    → (address tagged : ℕ) × (d : CompletionQueue) × (set_data c status ≡ ok ((address, tagged), d))
      × Put c lap_in lap_out n address tagged d
unfolding set_data
set_data_lem c a b n status l more =
    let q = c.queue in
    let phase = if (q.tail + 1) % 2 ^ 16 == q.size then not c.phase else c.phase in
    let d : CompletionQueue = record {
      queue = record q { tail = next_position q.size q.tail };
      phase = phase;
    } in
    (
      q.tail * q.stride,
      tag_status c.phase status,
      d,
      rw (room_left q a b n l.ring more),
      record {
        address_is = refl;
        tag = tag_status-phase c.phase status ∙ l.phase;
        laps = record {
          ring = put-Ring q a b n l.ring more;
          phase = next_phase q.size q.tail a c.phase l.phase;
        };
        head = refl;
        size = refl;
      },
    )

-- On a completion queue with `n` entries waiting where `n + 1` is the size, `setData` ends in the
-- panic "Completion queue overflow".
pub set_data_full_lem :
    (c : CompletionQueue) (lap_in lap_out n status : ℕ)
    → Laps c lap_in lap_out n
    → n + 1 ≡ c.queue.size
    → set_data c status ≡ panic queue_overflow
unfolding set_data
set_data_full_lem c a b n status l full = rw (no_room c.queue a b n l.ring full)

-- On a completion queue with `n + 1` entries waiting, `incHead` leaves `n` entries waiting and
-- moves the head to the next position or to its next lap.
pub inc_head_lem :
    (c : CompletionQueue) (lap_in lap_out n : ℕ)
    → Laps c lap_in lap_out (n + 1)
    → Laps (inc_head c) lap_in (next_lap c.queue.size c.queue.head lap_out) n
unfolding inc_head
inc_head_lem c a b n l = record { ring = take-Ring c.queue a b n l.ring; phase = l.phase }

some_waiting : (q : Queue) (a b n : ℕ) → Ring q a b (n + 1) → (q.head == q.tail) ≡ false
some_waiting q a b n r = elim r.waiting [
  | inl (_, e) ↦ ground (arith, e)
  | inr (_, e) ↦ ground (arith, e, r.fewer)
]

none_waiting : (q : Queue) (a b : ℕ) → Ring q a b 0 → (q.head == q.tail) ≡ true
none_waiting q a b r = elim r.waiting [
  | inl (_, e) ↦ ground (arith, e)
  | inr (_, e) ↦ absurd (omega (arith, e, r.head))
]

-- On a submission queue with `n` entries waiting, `getData` reads nothing and changes nothing if
-- `n` is 0; otherwise it reads at the address of the head and leaves one entry less waiting.
pub get_data_lem :
    (q : Queue) (lap_in lap_out n : ℕ)
    → Ring q lap_in lap_out n
    → ((n ≡ 0) × (get_data q ≡ (none, q)))
      ⊎ ((m : ℕ) × (d : Queue) × (n ≡ m + 1)
          × (get_data q ≡ (some (q.head * q.stride), d))
          × Ring d lap_in (next_lap q.size q.head lap_out) m)
unfolding get_data
get_data_lem q a b zero r = inl (refl, rw (none_waiting q a b r))
get_data_lem q a b (suc m) r =
    let r' : Ring q a b (m + 1) = subst (Ring q a b) (omega arith) r in
    inr (
      m,
      record q { head = next_position q.size q.head },
      omega arith,
      rw (some_waiting q a b m r'),
      take-Ring q a b m r',
    )

-- For a size above 1 and below 2^16 a new completion queue has no entry waiting, and both of its
-- ends are on lap 0 with phase 1.
pub create_completion_lem :
    (size stride : ℕ) → 1 < size → size < 2 ^ 16 → Laps (create_completion size stride) 0 0 0
unfolding create_completion create_queue
create_completion_lem size stride room small = record {
  ring = record {
    some_room = room;
    small = small;
    head = omega arith;
    tail = omega arith;
    fewer = omega arith;
    waiting = inl (refl, omega arith);
  };
  phase = ground arith;
}
