-- ===== src/Asgn2/System/Reads.antt =====
-- `asgn2_read` while the driver runs.
pub mod Arrive
use petulant_wookie.Base.{
  ℕ, ◌+◌, ◌-◌, ◌≤◌, ◌<◌, ◌^◌, ◌≡◌, refl, ◌∙◌, ap, ap₂, sym, subst, List, [], ◌∷◌, ◌++◌, append-nil,
  append_assoc, length, length-take, drop, drop-nil, drop-drop, take, min, Bool, Bool-cases, true,
  false, ◌==◌, if◌then◌else◌, inl, inr, ◌⊎◌, pos, negsuc, arith, to_int, to_int_small, ne→==,
}
use petulant_wookie.Kernel.{Kernel, IsKernel, Progresses, Run, running, overrun, done}
use petulant_wookie.Asgn2.Port.Fifo.{contents}
use petulant_wookie.Asgn2.Device.{State}
use petulant_wookie.Asgn2.Queue.Valid.{IsQueue, stored_bytes, unread}
use petulant_wookie.Asgn2.Read.{Reading, Given, read_pages, start_reading, finish, read_awake}
use petulant_wookie.Asgn2.Read.Search.{before_null, has_null, length-before_null}
use petulant_wookie.Asgn2.Read.Split.{before_null_split, null_next}
use petulant_wookie.Asgn2.Read.Across.{EndsIn, Moved, read_awake_across}
use petulant_wookie.Asgn2.System.Valid.{
  AtNull, IsReadable, IsRunning, length-stored_bytes, length-unread,
}
use petulant_wookie.Asgn2.System.Tasklet.{done_inj}

pub read_awake_shut :
    (k : Kernel) (fuel count : ℕ) (s : State)
    → s.null_flag ≡ 1
    → read_awake k fuel count s ≡ done (record { result = 0; buf = [] }, s)
unfolding read_awake
read_awake_shut k fuel count s e = rw e

-- Once the pages are visited, only `finish` changes the globals.
ends_in_finish :
    (page_size : ℕ) (s s' : State) (g : Given) (x : Run Reading)
    → (let y : Run (Given × State) = elim x [
      | running ↦ running
      | overrun ↦ overrun
      | done r ↦ done (record { result = r.size_read; buf = r.buf }, finish page_size s r)
    ] in
        y ≡ done (g, s'))
    → (r : Reading) × (s' ≡ finish page_size s r)
ends_in_finish page_size s s' g running e = absurd (ground arith)
ends_in_finish page_size s s' g overrun e = absurd (ground arith)
ends_in_finish page_size s s' g (done r) e = (r, ap (λ x. x.1) (sym (done_inj e)))

if_false : {A : Type 0} (x : A) {y z : A} (b : Bool) → b ≡ false → (if b then x else y) ≡ z → y ≡ z
if_false x true e h = absurd (ground arith)
if_false x false e h = h

read_awake-finish :
    (k : Kernel) (fuel count : ℕ) (s s' : State) (g : Given)
    → s.null_flag ≡ 0
    → read_awake k fuel count s ≡ done (g, s')
    → (r : Reading) × (s' ≡ finish k.page_size s r)
unfolding read_awake
read_awake-finish k fuel count s s' g e run =
    ends_in_finish k.page_size s s' g _
      (if_false _ (s.null_flag == 1) (ne→== s.null_flag 1 (omega arith)) run)

-- What a read keeps and gives.
pub record Read (page_size : ℕ) (s : State) (g : Given) (s' : State) : Type 0 where
  pub readable : IsReadable page_size s'
  pub next_bytes : g.buf ++ unread s' ≡ unread s
  pub same_circ : s'.circ_buffer ≡ s.circ_buffer

Read-shut :
    (k : Kernel) (fuel count : ℕ) (s s' : State) (g : Given)
    → IsReadable k.page_size s
    → s.null_flag ≡ 1
    → read_awake k fuel count s ≡ done (g, s')
    → Read k.page_size s g s'
Read-shut k fuel count s s' g r e run =
    let same = done_inj (sym (read_awake_shut k fuel count s e) ∙ run) in
    subst (λ x. Read k.page_size s x.0 x.1) same
      (record { readable = r; next_bytes = refl; same_circ = refl })

module _ (k : Kernel) (ik : IsKernel k) (fuel count pages offset : ℕ) (s : State)
    (r : IsReadable k.page_size s) (no_mark : s.null_location ≡ negsuc 0)
    (no_null : s.null_flag ≡ 0) (ends : EndsIn k.page_size count pages offset s) (s' : State)
    (g : Given) (run : read_awake k fuel count s ≡ done (g, s'))
    (moved : Moved k.page_size r.tail_page pages offset (has_null (take count (unread s))) s s')
    (unread_after : unread s'
      ≡ drop (length (before_null (take count (unread s)))) (unread s)) where
  abbrev n : ℕ
  n = length (before_null (take count (unread s)))

  head_after : s'.page_queue.head_offset < k.page_size
  head_after = omega (arith, moved.head_offset, ends.inside)

  read_data_after : s'.page_queue.head_offset ≤ s'.data_size
  read_data_after = omega (
    arith,
    moved.head_offset,
    moved.data_size,
    ends.ends,
    length-before_null (take count (unread s)),
    length-take count (unread s),
    length-unread s r.queue r.read_data,
  )

  finished : (r' : Reading) × (s' ≡ finish k.page_size s r')
  finished = read_awake-finish k fuel count s s' g no_null run

  location_after :
      s'.null_location
      ≡ (if s'.null_flag == 1 then to_int s'.page_queue.head_offset else s.null_location)
  unfolding finish
  location_after =
      subst
        (λ x.
          x.null_location
          ≡ (if x.null_flag == 1 then to_int x.page_queue.head_offset else s.null_location))
        (sym finished.1) refl

  location_by :
      (flag : ℕ)
      → s'.null_flag ≡ flag
      → s'.null_location ≡ (if flag == 1 then to_int s'.page_queue.head_offset else s.null_location)
  location_by flag e =
      location_after
      ∙ ap (λ f. if f == 1 then to_int s'.page_queue.head_offset else s.null_location) e

  mark_after :
      ((s'.null_flag ≡ 0) ⊎ (s'.null_flag ≡ 1))
      × ((s'.null_location ≡ negsuc 0) ⊎ AtNull k.page_size s')
  mark_after = elim (Bool-cases (has_null (take count (unread s)))) [
    | inl e ↦
        let set : s'.null_flag ≡ 1 = moved.null_flag ∙ ap (λ b. if b then 1 else 0) e in
        let (bs, next) = null_next count (unread s) e in
        (
          inr set,
          inr (
            location_by 1 set
                ∙ to_int_small s'.page_queue.head_offset (omega (arith, head_after, ik.page_small)),
            head_after,
            bs,
            unread_after ∙ next,
          ),
        )
    | inr e ↦
        let clear : s'.null_flag ≡ 0 = moved.null_flag ∙ ap (λ b. if b then 1 else 0) e in
        (inl clear, inl (location_by 0 clear ∙ no_mark))
  ]

  same_wait : s'.wait_flag ≡ s.wait_flag
  unfolding finish
  same_wait = subst (λ x. x.wait_flag ≡ s.wait_flag) (sym finished.1) refl

  Read-Moved : g.buf ≡ before_null (take count (unread s)) → Read k.page_size s g s'
  unfolding finish
  Read-Moved e = record {
    readable = record {
      tail_page = r.tail_page - pages;
      queue = moved.queue;
      first = moved.head_index;
      read_data = read_data_after;
      head_in = omega (arith, head_after);
      flag = mark_after.0;
      mark = mark_after.1;
      idle = elim r.idle [
        | inl w ↦ inl (same_wait ∙ w)
        | inr none_left ↦ inr (unread_after ∙ ap (drop n) none_left ∙ drop-nil n)
      ];
    };
    next_bytes = ap₂ ◌++◌ e unread_after ∙ before_null_split count (unread s);
    same_circ = subst (λ x. x.circ_buffer ≡ s.circ_buffer) (sym finished.1) refl;
  }

-- A read that goes on, from a queue at no null terminator that was found before.
pub read_awake-Read :
    (k : Kernel) (fuel count pages offset : ℕ) (s s' : State) (g : Given)
    → IsKernel k
    → Progresses k
    → k.page_size ≤ fuel
    → IsReadable k.page_size s
    → s.null_location ≡ negsuc 0
    → EndsIn k.page_size count pages offset s
    → read_awake k fuel count s ≡ done (g, s')
    → Read k.page_size s g s'
read_awake-Read k fuel count pages offset s s' g ik pr enough r no_mark ends run = elim r.flag [
  | inr e ↦ Read-shut k fuel count s s' g r e run
  | inl e ↦
      let (s1, run1, moved, rest) =
        read_awake_across k fuel count pages offset r.tail_page s ik pr enough r.queue r.first e
          r.read_data ends in
      let same = done_inj (sym run1 ∙ run) in
      let state : s1 ≡ s' = ap (λ x. x.1) same in
      Read-Moved k ik fuel count pages offset s r no_mark e ends s' g run
        (subst
          (λ x. Moved k.page_size r.tail_page pages offset (has_null (take count (unread s))) s x)
          state moved)
        (subst (λ x. unread x ≡ drop (length (before_null (take count (unread s)))) (unread s))
          state rest)
        (ap (λ x. x.0.buf) (sym same))
]
