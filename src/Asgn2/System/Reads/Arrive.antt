-- ===== src/Asgn2/System/Reads/Arrive.antt =====
-- `asgn2_read` up to its wait, while the driver runs.
use petulant_wookie.Base.{
  ℕ, zero, suc, ◌+◌, ◌*◌, ◌&&◌, ap₂, List, [], ℤ, eq→==, dec_lt, ◌≤◌, ◌<◌, ◌^◌, ◌≡◌, refl, ◌∙◌, ap,
  sym, ◌∷◌, length, drop, drop-drop, Bool-cases, true, false, ◌==◌, if◌then◌else◌, inl, inr, ◌⊎◌,
  pos, negsuc, arith, to_int, to_int_small, add_size,
}
use petulant_wookie.Asgn2.Device.{State, eq_ℤ}
use petulant_wookie.Asgn2.Read.{at_null, asleep, awake, is_empty, skip_null, read_arrive}
use petulant_wookie.Asgn2.Queue.Valid.{unread, stored_bytes}
use petulant_wookie.Asgn2.Read.Across.{EndsIn}
use petulant_wookie.Asgn2.System.Valid.{AtNull, IsReadable, length-unread}

-- The state once the test for an empty queue is done.
abbrev pub tested : State → State
tested s = record s { wait_flag = if is_empty s.page_queue then 1 else s.wait_flag }

-- A read either ends at the null terminator that comes next, or there is none noted.
abbrev pub Arrived : ℕ → State → Type 0
Arrived page_size s =
    (AtNull page_size s × (read_arrive s ≡ at_null (skip_null s)))
    ⊎ ((s.null_location ≡ negsuc 0)
        × (((read_arrive s ≡ awake (tested s)) × ((tested s).wait_flag ≡ 0))
            ⊎ ((read_arrive s ≡ asleep (tested s)) × (0 < (tested s).wait_flag))))

arrive_at :
    (s : State)
    → eq_ℤ (to_int s.page_queue.head_offset) s.null_location ≡ true
    → read_arrive s ≡ at_null (skip_null s)
unfolding read_arrive
arrive_at s e = rw e

arrive_past :
    (s : State)
    → eq_ℤ (to_int s.page_queue.head_offset) s.null_location ≡ false
    → ((read_arrive s ≡ awake (tested s)) × ((tested s).wait_flag ≡ 0))
      ⊎ ((read_arrive s ≡ asleep (tested s)) × (0 < (tested s).wait_flag))
unfolding read_arrive
arrive_past s e = elim (Bool-cases ((tested s).wait_flag == 0)) [
  | inl f ↦ inl (rw e (rw f refl), ground arith)
  | inr f ↦ inr (rw e (rw f refl), ground arith)
]

pub arrive :
    (page_size : ℕ) (s : State) → page_size < 2 ^ 31 → IsReadable page_size s → Arrived page_size s
arrive page_size s small r =
    let place : to_int s.page_queue.head_offset ≡ pos s.page_queue.head_offset =
      to_int_small s.page_queue.head_offset (omega (arith, r.head_in)) in
    elim r.mark [
      | inl e ↦ inr (e, arrive_past s (rw (place, e) (ground arith)))
      | inr a ↦ inl (a, arrive_at s (rw (place, a.0) (ground arith)))
    ]

-- A read that ends at a null terminator passes it.
pub skip_null-IsReadable :
    (page_size : ℕ) (s : State)
    → page_size < 2 ^ 31
    → IsReadable page_size s
    → AtNull page_size s
    → IsReadable page_size (skip_null s) × (unread s ≡ 0 ∷ unread (skip_null s))
unfolding skip_null
skip_null-IsReadable page_size s small r (e, below, bs, next) =
    let on : add_size s.page_queue.head_offset 1 ≡ s.page_queue.head_offset + 1 = omega arith in
    let left : s.page_queue.head_offset + 1 ≤ s.data_size =
      omega (arith, length-unread s r.queue r.read_data, ap length next) in
    (
      record {
        tail_page = r.tail_page;
        queue = record {
          counted = r.queue.counted;
          whole = r.queue.whole;
          tail = r.queue.tail;
          ends = r.queue.ends;
          offset = r.queue.offset;
          within = r.queue.within;
          fits = r.queue.fits;
          circ = r.queue.circ;
        };
        first = r.first;
        read_data = omega (arith, on, left);
        head_in = omega (arith, on);
        flag = r.flag;
        mark = inl refl;
        idle = elim r.idle [
          | inl w ↦ inl w
          | inr none_left ↦ absurd (omega (arith, ap length none_left, ap length next))
        ];
      },
      next
          ∙ ap (λ l. 0 ∷ l)
              (sym (ap (drop 1) next)
                ∙ drop-drop s.page_queue.head_offset 1 (stored_bytes s)
                ∙ ap (λ h. drop h (stored_bytes s)) (sym on)),
    )

-- The test does not touch what a read gives.
pub tested-EndsIn :
    (page_size count pages offset : ℕ) (s : State)
    → EndsIn page_size count pages offset s
    → EndsIn page_size count pages offset (tested s)
tested-EndsIn page_size count pages offset s e = record {
  begins = e.begins;
  few = e.few;
  ends = e.ends;
  moves = e.moves;
  inside = e.inside;
}

-- Two ends of the queue that are equal, in the first page.
same_ends :
    (t o o' : ℕ) (h u : ℤ)
    → h ≡ pos 0
    → u ≡ pos t
    → (eq_ℤ h u && (o == o')) ≡ true
    → (t ≡ 0) × (o ≡ o')
same_ends t o o' h u e e' same =
    let at : (eq_ℤ (pos 0) (pos t) && (o == o')) ≡ true =
      ap₂ (λ a b. eq_ℤ a b && (o == o')) (sym e) (sym e') ∙ same in
    (ground arith, ground arith)

no_length : (xs : List ℕ) → length xs ≡ 0 → xs ≡ []
no_length [] e = refl
no_length (x ∷ xs) e = absurd (omega arith)

-- A queue that counts as empty has nothing to read.
is_empty-unread :
    (page_size : ℕ) (s : State)
    → IsReadable page_size s
    → is_empty s.page_queue ≡ true
    → unread s ≡ []
is_empty-unread page_size s r e =
    let q = s.page_queue in
    let (first, same) =
      same_ends r.tail_page q.head_offset q.tail_offset q.head_index q.tail_index r.first
        r.queue.tail e in
    let no_pages = ap (λ t. t * page_size) first in
    no_length (unread s)
      (omega (arith, length-unread s r.queue r.read_data, r.queue.ends, same, no_pages))

none_before : (t page_size o h : ℕ) → h ≡ t * page_size + o → h < page_size → t ≡ 0
none_before zero page_size o h e below = refl
none_before (suc t) page_size o h e below = absurd (omega arith)

equal_ends : (h u : ℤ) (o o' : ℕ) → h ≡ pos 0 → u ≡ pos 0 → o ≡ o' → (eq_ℤ h u && (o == o')) ≡ true
equal_ends h u o o' e e' same = ap₂ (λ a b. eq_ℤ a b && (o == o')) e e' ∙ eq→== o o' same

-- One that does not, with its head inside a page, has.
not_empty-unread :
    (page_size : ℕ) (s : State)
    → IsReadable page_size s
    → s.page_queue.head_offset < page_size
    → is_empty s.page_queue ≡ false
    → 0 < length (unread s)
not_empty-unread page_size s r below e = elim (dec_lt 0 (length (unread s))) [
  | yes h ↦ h
  | no h ↦
      let q = s.page_queue in
      let ends : q.head_offset ≡ r.tail_page * page_size + q.tail_offset =
        omega (arith, length-unread s r.queue r.read_data, r.queue.ends) in
      let first = none_before r.tail_page page_size q.tail_offset q.head_offset ends below in
      let no_pages = ap (λ t. t * page_size) first in
      let same : q.head_offset ≡ q.tail_offset = omega (arith, ends, no_pages) in
      let empty =
        equal_ends q.head_index q.tail_index q.head_offset q.tail_offset r.first
          (r.queue.tail ∙ ap pos first) same in
      absurd (ground arith)
]

pub tested-idle :
    (page_size : ℕ) (s : State)
    → IsReadable page_size s
    → ((tested s).wait_flag ≡ 0) ⊎ (unread s ≡ [])
tested-idle page_size s r = elim (Bool-cases (is_empty s.page_queue)) [
  | inl e ↦ inr (is_empty-unread page_size s r e)
  | inr e ↦ elim r.idle [
    | inl w ↦ inl (ap (λ b. if b then 1 else s.wait_flag) e ∙ w)
    | inr none_left ↦ inr none_left
  ]
]

-- A process goes to sleep only where there is nothing to read, and goes on only where there is.
pub asleep-unread :
    (page_size : ℕ) (s : State) → IsReadable page_size s → 0 < (tested s).wait_flag → unread s ≡ []
asleep-unread page_size s r h = elim (tested-idle page_size s r) [
  | inl w ↦ absurd (omega arith)
  | inr none_left ↦ none_left
]

pub awake-unread :
    (page_size : ℕ) (s : State)
    → IsReadable page_size s
    → s.page_queue.head_offset < page_size
    → (tested s).wait_flag ≡ 0
    → 0 < length (unread s)
awake-unread page_size s r below h = elim (Bool-cases (is_empty s.page_queue)) [
  | inl e ↦
      let waits : (tested s).wait_flag ≡ 1 = ap (λ b. if b then 1 else s.wait_flag) e in
      absurd (omega (arith, waits, h))
  | inr e ↦ not_empty-unread page_size s r below e
]
