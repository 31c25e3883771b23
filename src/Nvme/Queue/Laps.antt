-- ===== src/Nvme/Queue/Laps.antt =====
-- The queues of hil/nvme/queue.cc against the laps that their ends have made: how many entries are
-- waiting, and which phase bit an entry gets.
use testing.Common.{
  ℕ, ◌+◌, ◌%◌, ◌^◌, ◌<◌, ◌≡◌, ◌⊎◌, inl, inr, if◌then◌else◌, ◌==◌, arith, Bool-cases,
}
use testing.Nvme.Queue.{Queue, CompletionQueue, get_item_count, next_position}

-- `n` entries wait: the tail is `n` ahead of the head, on the same lap or on the next.
pub record Ring (q : Queue) (lap_in lap_out n : ℕ) : Type 0 where
  pub some_room : 1 < q.size
  pub small : q.size < 2 ^ 16
  pub head : q.head < q.size
  pub tail : q.tail < q.size
  pub fewer : n < q.size
  pub waiting :
      ((lap_in ≡ lap_out) × (q.tail ≡ q.head + n))
      ⊎ ((lap_in ≡ lap_out + 1) × (q.tail + q.size ≡ q.head + n))

-- The phase of a completion queue is 1 on even laps.
pub record Laps (c : CompletionQueue) (lap_in lap_out n : ℕ) : Type 0 where
  pub ring : Ring c.queue lap_in lap_out n
  pub phase : c.phase ≡ (lap_in % 2 == 0)

-- On a queue with `n` entries waiting, whether or not the tail is a lap ahead of the head,
-- `getItemCount` is `n`.
pub get_item_count_lem :
    (q : Queue) (lap_in lap_out n : ℕ) → Ring q lap_in lap_out n → get_item_count q ≡ n
unfolding get_item_count
get_item_count_lem q a b n r = elim r.waiting [
  | inl (_, e) ↦ ground (arith, e, r.small, r.fewer)
  | inr (_, e) ↦ ground (arith, e, r.small, r.fewer, r.tail, r.head)
]

-- Where an end goes from `position`, and its lap.
unfoldable pub next_lap : ℕ → ℕ → ℕ → ℕ
next_lap size position lap = if (position + 1) % 2 ^ 16 == size then lap + 1 else lap

next_position-lt :
    (size position : ℕ) → 1 < size → position < size → next_position size position < size
unfolding next_position
next_position-lt size p room h = ground arith

-- The tail moves on by one entry.
pub put-Ring :
    (q : Queue) (a b n : ℕ)
    → Ring q a b n
    → n + 1 < q.size
    → Ring (record q { tail = next_position q.size q.tail }) (next_lap q.size q.tail a) b (n + 1)
unfolding next_position next_lap
put-Ring q a b n r more = record {
  some_room = r.some_room;
  small = r.small;
  head = r.head;
  tail = unfold next_position in next_position-lt q.size q.tail r.some_room r.tail;
  fewer = more;
  waiting = elim (Bool-cases ((q.tail + 1) % 2 ^ 16 == q.size)) [
    | inl e ↦ elim r.waiting [
      | inl (l, w) ↦ rw e (inr (omega (arith, l), ground (arith, e, w, r.small, r.tail)))
      | inr (l, w) ↦ absurd (ground (arith, e, w, r.small, r.tail, r.head, r.fewer, more))
    ]
    | inr e ↦ elim r.waiting [
      | inl (l, w) ↦ rw e (inl (l, ground (arith, e, w, r.small, r.tail)))
      | inr (l, w) ↦ rw e (inr (l, ground (arith, e, w, r.small, r.tail)))
    ]
  ];
}

-- The head moves on by one entry.
pub take-Ring :
    (q : Queue) (a b n : ℕ)
    → Ring q a b (n + 1)
    → Ring (record q { head = next_position q.size q.head }) a (next_lap q.size q.head b) n
unfolding next_position next_lap
take-Ring q a b n r = record {
  some_room = r.some_room;
  small = r.small;
  head = unfold next_position in next_position-lt q.size q.head r.some_room r.head;
  tail = r.tail;
  fewer = omega (arith, r.fewer);
  waiting = elim (Bool-cases ((q.head + 1) % 2 ^ 16 == q.size)) [
    | inl e ↦ elim r.waiting [
      | inl (l, w) ↦ absurd (ground (arith, e, w, r.small, r.tail, r.head))
      | inr (l, w) ↦ rw e (inl (l, ground (arith, e, w, r.small, r.head)))
    ]
    | inr e ↦ elim r.waiting [
      | inl (l, w) ↦ rw e (inl (l, ground (arith, e, w, r.small, r.head)))
      | inr (l, w) ↦ rw e (inr (l, ground (arith, e, w, r.small, r.head)))
    ]
  ];
}
