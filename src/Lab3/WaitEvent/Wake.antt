-- ===== src/Lab3/WaitEvent/Wake.antt =====
-- Lab3/3.2.1/wait_event.c: who is woken, and who is not.
use petulant_wookie.Base.{ℕ, ◌+◌, ◌<◌, ◌≡◌, refl, ap, sym, false, ℤ, arith}
use petulant_wookie.Kernel.{Kernel, Run, done, running, overrun}
use petulant_wookie.Lab3.Seek.{Transfer}
use petulant_wookie.Lab3.Generic.{mycdrv_generic_read}
use petulant_wookie.Lab3.WaitEvent.{
  Device, given, give, read_awake, System, wake_up, Step, passes, sleeps, goes_on, sleeps_again,
  killed, reads, gives_up, writes, loaded, Reach, here, later,
}

-- Before the first write nobody is past the wait.
record Quiet (s : System) : Type 0 where
  not_ready : s.writes ≡ 0 → s.device.data_ready ≡ 0
  none_past : s.writes ≡ 0 → s.past ≡ 0
  none_completed : s.writes ≡ 0 → s.completed ≡ 0

Step-Quiet : {s t : System} → Step s t → Quiet s → Quiet t
unfolding wake_up
Step-Quiet (passes h) q = record {
  not_ready = q.not_ready;
  none_past = λ e. absurd (h (q.not_ready e));
  none_completed = q.none_completed;
}
Step-Quiet (sleeps h) q = record {
  not_ready = q.not_ready;
  none_past = q.none_past;
  none_completed = q.none_completed;
}
Step-Quiet (goes_on w h) q = record {
  not_ready = q.not_ready;
  none_past = λ e. absurd (h (q.not_ready e));
  none_completed = q.none_completed;
}
Step-Quiet (sleeps_again w h) q = record {
  not_ready = q.not_ready;
  none_past = q.none_past;
  none_completed = q.none_completed;
}
Step-Quiet (killed h) q = record {
  not_ready = q.not_ready;
  none_past = q.none_past;
  none_completed = q.none_completed;
}
Step-Quiet (reads k lbuf ppos t d h r) q = record {
  not_ready = λ e. absurd (omega (arith, q.none_past e));
  none_past = λ e. absurd (omega (arith, q.none_past e));
  none_completed = λ e. absurd (omega (arith, q.none_past e));
}
Step-Quiet (gives_up k lbuf ppos d h r) q = record {
  not_ready = λ e. absurd (omega (arith, q.none_past e));
  none_past = λ e. absurd (omega (arith, q.none_past e));
  none_completed = q.none_completed;
}
Step-Quiet {s} (writes k buf lbuf ppos t d r) q =
    let more : (wake_up (record s { device = d; writes = s.writes + 1 })).writes ≡ s.writes + 1 =
      ground arith in
    record {
      not_ready = λ e. absurd (omega (arith, more));
      none_past = λ e. absurd (omega (arith, more));
      none_completed = λ e. absurd (omega (arith, more));
    }

Reach-Quiet : {d : Device} {s : System} → d.data_ready ≡ 0 → Reach (loaded d) s → Quiet s
Reach-Quiet e here = record {
  not_ready = λ h. e;
  none_past = λ h. refl;
  none_completed = λ h. refl;
}
Reach-Quiet e (later r st) = Step-Quiet st (Reach-Quiet e r)

-- As long as nothing has been written, no reader is past the wait and no read has completed.
pub nothing_written :
    {d : Device} {s : System}
    → d.data_ready ≡ 0
    → Reach (loaded d) s
    → s.writes ≡ 0
    → (s.past ≡ 0) × (s.completed ≡ 0)
nothing_written e r none_yet =
    let q = Reach-Quiet e r in (q.none_past none_yet, q.none_completed none_yet)

-- While the data are ready and a reader sleeps, another reader is on its way to them, unless one gave
-- up.
Attended : System → Type 0
Attended s = s.gave_up ≡ 0 → 0 < s.device.data_ready → 0 < s.asleep → 0 < s.woken + s.past

give_device :
    (d d' : Device) (r : Run Transfer) (t : Transfer) → give d r ≡ done (given t, d') → d ≡ d'
unfolding give
give_device d d' (done u) t e = cc
give_device d d' running t e = cc
give_device d d' overrun t e = cc

-- A completed read has taken the data.
taken :
    (k : Kernel) (s : System) (lbuf : ℕ) (ppos : ℤ) (t : Transfer) (d : Device)
    → read_awake k false s.device lbuf ppos ≡ done (given t, d)
    → d.data_ready ≡ 0
unfolding read_awake
taken k s lbuf ppos t d e =
    ap (λ x. x.data_ready)
      (sym (
        give_device (record s.device { data_ready = 0 }) d
          (mycdrv_generic_read k s.device.ramdisk lbuf ppos) t e))

Step-Attended : {s t : System} → Step s t → Attended s → Attended t
unfolding Attended wake_up
Step-Attended (passes h) i = λ g r a. omega arith
Step-Attended (sleeps h) i = λ g r a. absurd (omega arith)
Step-Attended (goes_on w h) i = λ g r a. omega arith
Step-Attended (sleeps_again w h) i = λ g r a. absurd (omega arith)
Step-Attended (killed h) i = λ g r a. i g r (omega arith)
Step-Attended {s} (reads k lbuf ppos t d h e) i =
    λ g r a. absurd (omega (arith, taken k s lbuf ppos t d e))
Step-Attended (gives_up k lbuf ppos d h e) i = λ g r a. absurd (omega arith)
Step-Attended {s} (writes k buf lbuf ppos t d e) i = λ g r a. ground arith

-- From the load on, however reads, writes, wake-ups and signals interleave: while the data are ready
-- and a reader sleeps, another reader has been woken or is past the wait, as long as no reader past
-- the wait has returned for a signal. So no wake-up is lost until then.
pub Reach-Attended :
    {d : Device} {s : System}
    → d.data_ready ≡ 0
    → Reach (loaded d) s
    → s.gave_up ≡ 0
    → 0 < s.device.data_ready
    → 0 < s.asleep
    → 0 < s.woken + s.past
unfolding Attended
Reach-Attended {d} e r = keep r
  where
    keep : {t : System} → Reach (loaded d) t → Attended t
    keep here = λ g ready a. absurd (omega arith)
    keep (later q st) = Step-Attended st (keep q)
