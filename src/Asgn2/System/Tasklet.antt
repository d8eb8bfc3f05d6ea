-- ===== src/Asgn2/System/Tasklet.antt =====
-- `bottom_half` while the driver runs.
use petulant_wookie.Base.{
  ℕ, ◌≤◌, ◌<◌, ◌≡◌, ◌∙◌, ap, ap₂, sym, subst, ◌++◌, append-nil, drop, drop-append_le, false, inl,
  inr, pos, negsuc, arith, ◌⊎◌, true,
}
use petulant_wookie.Kernel.{Kernel, IsKernel, Supplies, done}
use petulant_wookie.Asgn2.Port.{CircMacros, IsCirc, buf_size}
use petulant_wookie.Asgn2.Port.Fifo.{contents}
use petulant_wookie.Asgn2.Device.{State}
use petulant_wookie.Asgn2.Queue.{bottom_half}
use petulant_wookie.Asgn2.Queue.Valid.{IsQueue, stored_bytes, unread}
use petulant_wookie.Asgn2.Queue.Settled.{KeepsReader, bottom_half_settled}
use petulant_wookie.Asgn2.System.{System, HasRoom}
use petulant_wookie.Asgn2.System.Valid.{AtNull, IsRunning, length-stored_bytes}

pub done_inj : {A : Type 0} {x y : A} → done x ≡ done y → x ≡ y
done_inj e = cc

pub unread_grows :
    {page_size t : ℕ} (s s' : State)
    → IsQueue page_size t s
    → s.page_queue.head_offset ≤ s.data_size
    → KeepsReader s s'
    → stored_bytes s' ≡ stored_bytes s ++ contents s.circ_buffer
    → unread s' ≡ unread s ++ contents s.circ_buffer
unread_grows s s' q h keeps e =
    ap₂ drop keeps.head_offset e
    ∙ drop-append_le s.page_queue.head_offset (stored_bytes s) (contents s.circ_buffer)
        (omega (arith, length-stored_bytes s q))

keeps_mark :
    {page_size : ℕ} (s s' : State)
    → KeepsReader s s'
    → unread s' ≡ unread s ++ contents s.circ_buffer
    → (s.null_location ≡ negsuc 0) ⊎ AtNull page_size s
    → (s'.null_location ≡ negsuc 0) ⊎ AtNull page_size s'
keeps_mark s s' keeps more (inl e) = inl (keeps.null_location ∙ e)
keeps_mark {page_size} s s' keeps more (inr (e, below, bs, starts)) = inr (
  keeps.null_location ∙ e ∙ ap pos (sym keeps.head_offset),
  subst (λ h. h < page_size) (sym keeps.head_offset) below,
  bs ++ contents s.circ_buffer,
  more ∙ ap (λ l. l ++ contents s.circ_buffer) starts,
)

pub emptied-IsRunning :
    (m : CircMacros) (k : Kernel) (fuel : ℕ) (s : System) (state : State)
    → IsCirc m
    → IsKernel k
    → Supplies k
    → buf_size ≤ fuel
    → IsRunning k.page_size s
    → s.scheduled ≡ true
    → HasRoom k.page_size s.state
    → bottom_half m k fuel s.state ≡ done state
    → IsRunning k.page_size (record s { state = state; scheduled = false })
emptied-IsRunning m k fuel s state im ik sup enough i b room run =
    let r = i.readable in
    let (s', run', keeps, bytes, empty, flag, t', q') =
      bottom_half_settled m k fuel r.tail_page s.state im ik sup r.queue
        (record { some_waiting = i.busy b; unbroken = room.unbroken; one_page = room.one_page })
        enough room.small in
    let same : s' ≡ state = done_inj (sym run' ∙ run) in
    let more = unread_grows s.state s' r.queue r.read_data keeps bytes in
    subst (λ x. IsRunning k.page_size (record s { state = x; scheduled = false })) same
      (record {
        readable = record {
          tail_page = t';
          queue = q';
          first = keeps.head_index ∙ r.first;
          read_data = omega (arith, keeps.head_offset, keeps.data_size, r.read_data);
          head_in = omega (arith, keeps.head_offset, r.head_in);
          flag = elim r.flag [
            | inl e ↦ inl (keeps.null_flag ∙ e)
            | inr e ↦ inr (keeps.null_flag ∙ e)
          ];
          mark = keeps_mark s.state s' keeps more r.mark;
          idle = inl flag;
        };
        halves = i.halves;
        busy = λ e. absurd (ground arith);
        calm = λ e. keeps.null_location ∙ i.calm e;
        in_order =
            ap₂ (λ l c. s.given ++ (l ++ c)) more empty
            ∙ ap (λ l. s.given ++ l) (append-nil (unread s.state ++ contents s.state.circ_buffer))
            ∙ i.in_order;
      })
