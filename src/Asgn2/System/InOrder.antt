-- ===== src/Asgn2/System/InOrder.antt =====
-- The driver of asgn2/asgn_2.c gives the bytes of the port in order.
use petulant_wookie.Base.{
  ℕ, ◌≤◌, ◌<◌, ◌^◌, ◌≡◌, refl, ◌∙◌, ap, ap₂, sym, subst, [], ◌∷◌, ◌++◌, append_assoc, length, true,
  false, inl, inr, ℤ, pos, negsuc, arith, ◌⊎◌, Bool, wrap_int, ◌+ℤ◌, ◌-ℤ◌,
}
use petulant_wookie.Kernel.{Kernel, done}
use petulant_wookie.Asgn2.Port.{CircMacros, IsCirc, buf_size}
use petulant_wookie.Asgn2.Queue.{bottom_half}
use petulant_wookie.Asgn2.Port.Fifo.{waiting, contents}
use petulant_wookie.Asgn2.Device.{State, asgn2_release}
use petulant_wookie.Asgn2.Device.Open.{asgn2_open-opened}
use petulant_wookie.Asgn2.Read.{Given, at_null, asleep, awake, skip_null, read_arrive, read_awake}
use petulant_wookie.Asgn2.Queue.Valid.{unread}
use petulant_wookie.Asgn2.System.{
  System, Serves, HasRoom, Step, interrupt, tasklet, opens, releases, ends_at_null, sleeps, reads,
  wakes, Reach, here, later, start,
}
use petulant_wookie.Asgn2.Read.Across.{EndsIn}
use petulant_wookie.Asgn2.System.Valid.{IsReadable, IsRunning, with_flags, start-IsRunning}
use petulant_wookie.Asgn2.System.Receive.{interrupted-IsRunning}
use petulant_wookie.Asgn2.System.Tasklet.{emptied-IsRunning}
use petulant_wookie.Asgn2.System.Reads.{Read, read_awake-Read}
use petulant_wookie.Asgn2.System.Reads.Arrive.{
  tested, tested-idle, tested-EndsIn, arrive, skip_null-IsReadable,
}

at_null_inj : {s s' : State} → at_null s ≡ at_null s' → s ≡ s'
at_null_inj e = cc

asleep_inj : {s s' : State} → asleep s ≡ asleep s' → s ≡ s'
asleep_inj e = cc

awake_inj : {s s' : State} → awake s ≡ awake s' → s ≡ s'
awake_inj e = cc

module _ (page_size : ℕ) (s : System) (i : IsRunning page_size s) where
  -- Steps that change counts of processes and flags only.
  with_flags-IsRunning :
      (nprocs : ℤ) (null_flag wait_flag : ℕ) (sleeping : Bool)
      → (null_flag ≡ 0) ⊎ (null_flag ≡ 1)
      → (wait_flag ≡ 0) ⊎ (unread s.state ≡ [])
      → (sleeping ≡ true → s.state.null_location ≡ negsuc 0)
      → IsRunning page_size (record s {
        state = record s.state { nprocs = nprocs; null_flag = null_flag; wait_flag = wait_flag };
        sleeping = sleeping;
      })
  with_flags-IsRunning nprocs null_flag wait_flag sleeping h w calm = record {
    readable = with_flags s.state nprocs null_flag wait_flag h w i.readable;
    halves = i.halves;
    busy = i.busy;
    calm = calm;
    in_order = i.in_order;
  }

  skipped-IsRunning :
      page_size < 2 ^ 31
      → s.sleeping ≡ false
      → (state : State) → read_arrive s.state ≡ at_null state
      → IsRunning page_size (record s { state = state; given = s.given ++ (0 ∷ []) })
  unfolding skip_null
  skipped-IsRunning small calm state e = elim (arrive page_size s.state small i.readable) [
    | inr (none_noted, inl (e', _)) ↦ absurd (ground arith)
    | inr (none_noted, inr (e', _)) ↦ absurd (ground arith)
    | inl (a, e') ↦
        let same : skip_null s.state ≡ state = at_null_inj (sym e' ∙ e) in
        let (readable, next) = skip_null-IsReadable page_size s.state small i.readable a in
        subst (λ x. IsRunning page_size (record s { state = x; given = s.given ++ (0 ∷ []) })) same
          (record {
            readable = readable;
            halves = i.halves;
            busy = i.busy;
            calm = λ h. absurd (ground arith);
            in_order =
                append_assoc s.given (0 ∷ [])
                  (unread (skip_null s.state) ++ contents s.state.circ_buffer)
                ∙ ap (λ l. s.given ++ (l ++ contents s.state.circ_buffer)) (sym next)
                ∙ i.in_order;
          })
  ]

  sleeps-IsRunning :
      page_size < 2 ^ 31
      → (state : State) → read_arrive s.state ≡ asleep state
      → IsRunning page_size (record s { state = state; sleeping = true })
  sleeps-IsRunning small state e = elim (arrive page_size s.state small i.readable) [
    | inl (a, e') ↦ absurd (ground arith)
    | inr (none_noted, inl (e', _)) ↦ absurd (ground arith)
    | inr (none_noted, inr (e', _)) ↦
        subst (λ x. IsRunning page_size (record s { state = x; sleeping = true }))
          (asleep_inj (sym e' ∙ e))
          (with_flags-IsRunning s.state.nprocs s.state.null_flag (tested s.state).wait_flag true
            i.readable.flag (tested-idle page_size s.state i.readable) (λ h. none_noted))
  ]

  -- A read that gave bytes, by a process that is awake again.
  given-IsRunning :
      (g : Given) (state : State)
      → Read page_size s.state g state
      → IsRunning page_size (record s { state = state; sleeping = false; given = s.given ++ g.buf })
  given-IsRunning g state r = record {
    readable = r.readable;
    halves = i.halves;
    busy = λ b. subst (λ c. 0 < waiting c) (sym r.same_circ) (i.busy b);
    calm = λ h. absurd (ground arith);
    in_order =
        append_assoc s.given g.buf (unread state ++ contents state.circ_buffer)
        ∙ ap (λ l. s.given ++ l)
            (sym (append_assoc g.buf (unread state) (contents state.circ_buffer)))
        ∙ ap₂ (λ l c. s.given ++ (l ++ contents c)) r.next_bytes r.same_circ
        ∙ i.in_order;
  }

module _ (m : CircMacros) (im : IsCirc m) (page_size fuel : ℕ) (many : buf_size ≤ fuel)
    (enough : page_size ≤ fuel) (small : page_size < 2 ^ 31) where
  -- What a call of `asgn2_read` does with the kernel that serves it.
  Read-served :
      (k : Kernel) (count pages offset : ℕ) (s s' : State) (g : Given)
      → Serves page_size k
      → IsReadable page_size s
      → s.null_location ≡ negsuc 0
      → EndsIn page_size count pages offset s
      → read_awake k fuel count s ≡ done (g, s')
      → Read page_size s g s'
  Read-served k count pages offset s s' g sv r none_noted ends run =
      subst (λ n. Read n s g s') sv.pages
        (read_awake-Read k fuel count pages offset s s' g sv.is sv.progress
          (omega (arith, sv.pages, enough)) (subst (λ n. IsReadable n s) (sym sv.pages) r)
          none_noted (subst (λ n. EndsIn n count pages offset s) (sym sv.pages) ends) run)

  reads-IsRunning :
      (k : Kernel) (s : System) (count pages offset : ℕ) (g : Given) (state state' : State)
      → Serves page_size k
      → IsRunning page_size s
      → EndsIn page_size count pages offset s.state
      → read_arrive s.state ≡ awake state
      → read_awake k fuel count state ≡ done (g, state')
      → IsRunning page_size
          (record s { state = state'; sleeping = false; given = s.given ++ g.buf })
  reads-IsRunning k s count pages offset g state state' sv i ends e run =
      elim (arrive page_size s.state small i.readable) [
        | inl (a, e') ↦ absurd (ground arith)
        | inr (none_noted, inr (e', _)) ↦ absurd (ground arith)
        | inr (none_noted, inl (e', _)) ↦
            let next = record s { state = tested s.state; sleeping = false } in
            let i' : IsRunning page_size next =
              with_flags-IsRunning page_size s i s.state.nprocs s.state.null_flag
                (tested s.state).wait_flag false i.readable.flag
                (tested-idle page_size s.state i.readable) (λ h. absurd (ground arith)) in
            let same : state ≡ tested s.state = awake_inj (sym e ∙ e') in
            given-IsRunning page_size next i' g state' (
              Read-served k count pages offset next.state state' g sv i'.readable none_noted
                (tested-EndsIn page_size count pages offset s.state ends)
                (subst (λ x. read_awake k fuel count x ≡ done (g, state')) same run))
      ]

  tasklet-IsRunning :
      (k : Kernel) (s : System) (state : State)
      → Serves page_size k
      → IsRunning page_size s
      → s.scheduled ≡ true
      → HasRoom page_size s.state
      → bottom_half m k fuel s.state ≡ done state
      → IsRunning page_size (record s { state = state; scheduled = false })
  tasklet-IsRunning k s state sv i b room run =
      subst (λ n. IsRunning n (record s { state = state; scheduled = false })) sv.pages
        (emptied-IsRunning m k fuel s state im sv.is sv.supplies many
          (subst (λ n. IsRunning n s) (sym sv.pages) i) b
          (subst (λ n. HasRoom n s.state) (sym sv.pages) room) run)

  Step-IsRunning :
      (s s' : System) → IsRunning page_size s → Step m page_size fuel s s' → IsRunning page_size s'
  unfolding asgn2_release
  Step-IsRunning s s' i (interrupt nibble h room) =
      interrupted-IsRunning m im page_size s i nibble h room
  Step-IsRunning s s' i (tasklet k state sv b room run) =
      tasklet-IsRunning k s state sv i b room run
  Step-IsRunning s s' i (opens f_flags r state up run) =
      subst (λ x. IsRunning page_size (record s { state = x }))
        (sym (asgn2_open-opened f_flags r s.state state run))
        (with_flags-IsRunning page_size s i (wrap_int (s.state.nprocs +ℤ pos 1)) s.state.null_flag
          s.state.wait_flag s.sleeping i.readable.flag i.readable.idle i.calm)
  Step-IsRunning s s' i (releases up) =
      with_flags-IsRunning page_size s i (wrap_int (s.state.nprocs -ℤ pos 1)) 0 s.state.wait_flag
        s.sleeping (inl refl) i.readable.idle i.calm
  Step-IsRunning s s' i (ends_at_null state up run) =
      skipped-IsRunning page_size s i small up state run
  Step-IsRunning s s' i (sleeps state up run) = sleeps-IsRunning page_size s i small state run
  Step-IsRunning s s' i (reads k count pages offset g state state' sv up ends run run') =
      reads-IsRunning k s count pages offset g state state' sv i ends run run'
  Step-IsRunning s s' i (wakes k count pages offset g state' sv down ends run) =
      given-IsRunning page_size s i g state'
        (Read-served k count pages offset s.state state' g sv i.readable (i.calm down) ends run)

  pub Reach-IsRunning :
      (s s' : System) → IsRunning page_size s → Reach m page_size fuel s s' → IsRunning page_size s'
  Reach-IsRunning s s' i here = i
  Reach-IsRunning s s' i (later {t} before step) =
      Step-IsRunning t s' (Reach-IsRunning s t i before) step

-- From the load of the module on, however interrupts for half bytes, runs of the tasklet, and the
-- opens, reads, sleeps, wake-ups and releases of a process follow each other: what the reads gave, one
-- after another, with a zero for each read that ended at a null terminator, followed by what the page
-- queue still holds and what waits in the circular buffer, is exactly what came through the port. No
-- byte is lost, given twice or out of order, also where reads free the pages before their end. The
-- conditions are that in each call the kernel, in whatever portions, has memory and copies to mapped
-- buffers, with fuel for the loops, on pages of less than 2^31 bytes;
-- that half bytes come while fewer than 1023 bytes wait; that a tasklet's bytes do not go round the
-- circular buffer, fit in the tail's page and keep the size below 2^32; and that each read starts
-- inside a page, asks for less than 2^31 bytes that are there and does not end on a page's boundary.
pub Reach-InOrder :
    (m : CircMacros) (page_size fuel : ℕ) (state : State) (s : System)
    → IsCirc m
    → 0 < page_size
    → page_size < 2 ^ 31
    → buf_size ≤ fuel
    → page_size ≤ fuel
    → length state.circ_buffer.buf ≡ buf_size
    → state.null_location ≡ negsuc 0
    → Reach m page_size fuel (start state) s
    → s.given ++ (unread s.state ++ contents s.state.circ_buffer) ≡ s.received
Reach-InOrder m page_size fuel state s im filled small many enough cells none_noted reach =
    (Reach-IsRunning m im page_size fuel many enough small (start state) s
      (start-IsRunning page_size state filled cells none_noted) reach).in_order
