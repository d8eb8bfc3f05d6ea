-- ===== src/Asgn2/Read/Correct.antt =====
-- `asgn2_read`, awake: a read that ends in the first page.
use petulant_wookie.Base.{
  ℕ, ◌+◌, ◌-◌, ◌*◌, ◌≤◌, ◌<◌, ◌≡◌, ◌∙◌, ap, subst, length, length-take, length-drop, take, drop,
  concat, min, arith, Bool, pos, if◌then◌else◌,
}
use petulant_wookie.Kernel.{Kernel, IsKernel, Progresses, done}
use petulant_wookie.Asgn2.Device.{State}
use petulant_wookie.Asgn2.Queue.Valid.{IsQueue, stored_bytes, unread}
use petulant_wookie.Asgn2.Read.{read_awake}
use petulant_wookie.Asgn2.Read.Across.{EndsIn, read_awake_across}
use petulant_wookie.Asgn2.Read.Search.{length-before_null, before_null, has_null}

-- The state after a read of `n` bytes, with whether a null terminator ended it.
abbrev Advanced : ℕ → ℕ → ℕ → Bool → State → State → Type 0
Advanced page_size t n found s s' =
    (s'.page_queue.head_offset ≡ s.page_queue.head_offset + n)
    × (s'.page_queue.head_index ≡ pos 0)
    × (s'.null_flag ≡ (if found then 1 else 0))
    × (stored_bytes s' ≡ stored_bytes s)
    × IsQueue page_size t s'

-- An awake read of a valid queue whose head is in its first page, with no null flag and a mapped
-- buffer, that asks for bytes which end inside the first page, and does not end at its very start,
-- returns, with fuel for a page. The user gets the next bytes of the queue, as many as were asked for
-- and are there, but only those before the first null terminator, and the result is their number.
-- The head moves on by that number, the null flag says whether there was a null terminator, and the
-- queue keeps its bytes and is valid.
read_awake_lem :
    (k : Kernel) (fuel count t : ℕ) (s : State)
    → IsKernel k
    → Progresses k
    → k.page_size ≤ fuel
    → IsQueue k.page_size t s
    → s.page_queue.head_index ≡ pos 0
    → s.null_flag ≡ 0
    → s.page_queue.head_offset ≤ s.data_size
    → s.page_queue.head_offset + min count (s.data_size - s.page_queue.head_offset) < k.page_size
    → 0 < s.page_queue.head_offset + length (before_null (take count (unread s)))
    → let bytes = before_null (take count (unread s)) in
      (s' : State) × (read_awake k fuel count s
        ≡ done (record { result = length bytes; buf = bytes }, s'))
      × Advanced k.page_size t (length bytes) (has_null (take count (unread s))) s s'
read_awake_lem k fuel count t s ik pr enough q first no_null read_data inside moves =
    let h = s.page_queue.head_offset in
    let bytes = before_null (take count (unread s)) in
    let ends : EndsIn k.page_size count 0 (h + length bytes) s = record {
      begins = omega arith;
      few = omega (arith, ik.page_small);
      ends = omega arith;
      moves = moves;
      inside = omega (
        arith,
        length-before_null (take count (unread s)),
        length-take count (unread s),
        length-drop h (stored_bytes s),
        length-take s.data_size (concat s.mem_list),
      );
    } in
    let (s', run, moved, _) =
      read_awake_across k fuel count 0 (h + length bytes) t s ik pr enough q first no_null read_data
        ends in
    let none_freed : 0 * k.page_size ≡ 0 = omega arith in
    let same_tail : t - 0 ≡ t = omega arith in
    (
      s',
      run,
      (
        moved.head_offset,
        moved.head_index,
        moved.null_flag,
        moved.bytes ∙ ap (λ i. drop i (stored_bytes s)) none_freed,
        subst (λ i. IsQueue k.page_size i s') same_tail moved.queue,
      ),
    )
