-- ===== src/Asgn2/System/Returns.antt =====
-- The handlers return while the driver of asgn2/asgn_2.c runs.
use petulant_wookie.Base.{
  ℕ, ◌≤◌, ◌<◌, ◌≡◌, refl, ◌∙◌, ap, List, [], ◌∷◌, ◌++◌, length, take, true, inl, inr, negsuc, ◌⊎◌,
}
use petulant_wookie.Kernel.{Kernel, IsKernel, Supplies, Progresses, done}
use petulant_wookie.Asgn2.Port.{CircMacros, IsCirc, buf_size}
use petulant_wookie.Asgn2.Port.Fifo.{contents}
use petulant_wookie.Asgn2.Device.{State}
use petulant_wookie.Asgn2.Queue.{bottom_half}
use petulant_wookie.Asgn2.Queue.Settled.{bottom_half_settled}
use petulant_wookie.Asgn2.Read.{Given, at_null, asleep, awake, skip_null, read_arrive, read_awake}
use petulant_wookie.Asgn2.Read.Search.{before_null}
use petulant_wookie.Asgn2.Queue.Valid.{unread}
use petulant_wookie.Asgn2.Read.Across.{EndsIn, read_awake_across}
use petulant_wookie.Asgn2.System.{System, HasRoom, Reach, start}
use petulant_wookie.Asgn2.System.Valid.{IsReadable, with_flags, start-IsRunning}
use petulant_wookie.Asgn2.System.Tasklet.{unread_grows}
use petulant_wookie.Asgn2.System.Reads.{read_awake_shut}
use petulant_wookie.Asgn2.System.Reads.Arrive.{
  tested, tested-idle, tested-EndsIn, asleep-unread, awake-unread, arrive, skip_null-IsReadable,
}
use petulant_wookie.Asgn2.System.InOrder.{Reach-IsRunning}

-- What a read that goes on gives: nothing once a null terminator was reached, until the release, and
-- otherwise the next bytes up to one.
pub data Gives (count : ℕ) (s : State) : List ℕ → Type 0 where
  shut : s.null_flag ≡ 1 → Gives count s []
  next : s.null_flag ≡ 0 → Gives count s (before_null (take count (unread s)))

-- What a call of `asgn2_read` does.
abbrev pub Reads : Kernel → ℕ → ℕ → State → Type 0
Reads k fuel count s =
    ((state : State) × (read_arrive s ≡ at_null state) × (unread s ≡ 0 ∷ unread state))
    ⊎ ((state : State) × (read_arrive s ≡ asleep state) × (unread s ≡ []))
    ⊎ ((state : State) × (read_arrive s ≡ awake state)
        × (0 < length (unread s))
        × (g : Given) × (state' : State) × (read_awake k fuel count state ≡ done (g, state'))
        × (g.result ≡ length g.buf)
        × Gives count s g.buf)

same_bytes : {count : ℕ} {s : State} {bs : List ℕ} → Gives count (tested s) bs → Gives count s bs
same_bytes (shut e) = shut e
same_bytes (next e) = next e

goes_on :
    (k : Kernel) (fuel count pages offset : ℕ) (s : State)
    → IsKernel k
    → Progresses k
    → k.page_size ≤ fuel
    → IsReadable k.page_size s
    → EndsIn k.page_size count pages offset s
    → (g : Given) × (s' : State) × (read_awake k fuel count s ≡ done (g, s'))
      × (g.result ≡ length g.buf)
      × Gives count s g.buf
goes_on k fuel count pages offset s ik pr enough r ends = elim r.flag [
  | inr e ↦ (record { result = 0; buf = [] }, s, read_awake_shut k fuel count s e, refl, shut e)
  | inl e ↦
      let (s', run, _, _) =
        read_awake_across k fuel count pages offset r.tail_page s ik pr enough r.queue r.first e
          r.read_data ends in
      (_, s', run, refl, next e)
]

-- In a driver that has run from the load of its module on, under the conditions of Step, a scheduled
-- tasklet whose bytes do not go round the circular buffer and fit in the tail's page returns, with
-- memory and fuel. Then the circular buffer is empty, the page queue holds, in order, all that came
-- through the port and was not given, and wait_flag is 0.
pub Reach-bottom_half :
    (m : CircMacros) (k : Kernel) (fuel : ℕ) (state : State) (s : System)
    → IsCirc m
    → IsKernel k
    → Progresses k
    → Supplies k
    → buf_size ≤ fuel
    → k.page_size ≤ fuel
    → length state.circ_buffer.buf ≡ buf_size
    → state.null_location ≡ negsuc 0
    → Reach m k.page_size fuel (start state) s
    → s.scheduled ≡ true
    → HasRoom k.page_size s.state
    → (state' : State) × (bottom_half m k fuel s.state ≡ done state')
      × (s.given ++ unread state' ≡ s.received)
      × (contents state'.circ_buffer ≡ [])
      × (state'.wait_flag ≡ 0)
Reach-bottom_half m k fuel state s im ik pr sup many enough cells none_noted reach b room =
    let i =
      Reach-IsRunning m im k.page_size fuel many enough ik.page_small (start state) s
        (start-IsRunning k.page_size state ik.page_pos cells none_noted) reach in
    let r = i.readable in
    let (s', run, keeps, bytes, empty, flag, t', q') =
      bottom_half_settled m k fuel r.tail_page s.state im ik sup r.queue
        (record { some_waiting = i.busy b; unbroken = room.unbroken; one_page = room.one_page })
        many room.small in
    (
      s',
      run,
      ap (λ l. s.given ++ l) (unread_grows s.state s' r.queue r.read_data keeps bytes) ∙ i.in_order,
      empty,
      flag,
    )

-- In the same way, a read that starts inside a page, asks for less than 2^31 bytes that are there and
-- does not end on a page's boundary, does one of three things. It ends at a null terminator that is the
-- next byte; or it sleeps, and then the page queue has nothing to read; or the queue has something,
-- and the read goes on and returns. Then it gives the next bytes, as many as were asked for and are
-- there but only those before the first null terminator, across pages, or none when a read before has
-- met one since the release; it returns their number.
pub Reach-read_awake :
    (m : CircMacros) (k : Kernel) (fuel count pages offset : ℕ) (state : State) (s : System)
    → IsCirc m
    → IsKernel k
    → Progresses k
    → Supplies k
    → buf_size ≤ fuel
    → k.page_size ≤ fuel
    → length state.circ_buffer.buf ≡ buf_size
    → state.null_location ≡ negsuc 0
    → Reach m k.page_size fuel (start state) s
    → EndsIn k.page_size count pages offset s.state
    → Reads k fuel count s.state
Reach-read_awake m k fuel count pages offset state s im ik pr sup many enough cells none_noted reach
      ends =
    let r =
      (Reach-IsRunning m im k.page_size fuel many enough ik.page_small (start state) s
        (start-IsRunning k.page_size state ik.page_pos cells none_noted) reach).readable in
    elim (arrive k.page_size s.state ik.page_small r) [
      | inl (a, e) ↦
          inl (skip_null s.state, e, (skip_null-IsReadable k.page_size s.state ik.page_small r a).1)
      | inr (_, inr (e, waits)) ↦
          inr (inl (tested s.state, e, asleep-unread k.page_size s.state r waits))
      | inr (_, inl (e, no_wait)) ↦
          let r' : IsReadable k.page_size (tested s.state) =
            with_flags s.state s.state.nprocs s.state.null_flag (tested s.state).wait_flag r.flag
              (tested-idle k.page_size s.state r) r in
          let (g, s', run, number, bytes) =
            goes_on k fuel count pages offset (tested s.state) ik pr enough r'
              (tested-EndsIn k.page_size count pages offset s.state ends) in
          inr (
            inr (
              tested s.state,
              e,
              awake-unread k.page_size s.state r ends.begins no_wait,
              g,
              s',
              run,
              number,
              same_bytes bytes,
            ))
    ]
