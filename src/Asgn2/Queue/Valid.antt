-- ===== src/Asgn2/Queue/Valid.antt =====
-- The page queue of asgn2/asgn_2.c: its bytes, when it is valid, and what lists of bytes need.
use petulant_wookie.Base.{
  ℕ, zero, suc, ◌+◌, ◌-◌, ◌*◌, ◌%◌, ◌≤◌, ◌<◌, ◌^◌, ◌≡◌, refl, ◌∙◌, ap, ap₂, sym, List, [], ◌∷◌,
  ◌++◌, length, get_or, AllLength, take, drop, take-add, take-overwrite, take-drop-overwrite,
  take-drop-append, overwrite, concat, concat-append, arith, pos, append-nil,
}
use petulant_wookie.Asgn1.Device.{Page}
use petulant_wookie.Asgn2.Port.{buf_size}
use petulant_wookie.Asgn2.Port.Fifo.{window, waiting, IsValid}
use petulant_wookie.Asgn2.Device.{State}

-- The bytes of the page queue, those already read included.
abbrev pub stored_bytes : State → List ℕ
stored_bytes s = take s.data_size (concat s.mem_list)

-- The bytes of the queue that were not read.
abbrev pub unread : State → List ℕ
unread s = drop s.page_queue.head_offset (stored_bytes s)

-- The pages are what the counter says and whole, the data ends at the tail, which page `tail_page`
-- holds, and lies in the pages.
pub record IsQueue (page_size tail_page : ℕ) (s : State) : Type 0 where
  pub counted : s.num_pages ≡ length s.mem_list
  pub whole : AllLength page_size s.mem_list
  pub tail : s.page_queue.tail_index ≡ pos tail_page
  pub ends : s.data_size ≡ tail_page * page_size + s.page_queue.tail_offset
  pub offset : s.page_queue.tail_offset < page_size
  pub within : s.data_size ≤ s.num_pages * page_size
  pub fits : s.num_pages * page_size < 2 ^ 32
  pub circ : IsValid s.circ_buffer

-- The bytes that wait do not go round the circular buffer, and fit in the page of the tail.
pub record IsStraight (page_size : ℕ) (s : State) : Type 0 where
  pub some_waiting : 0 < waiting s.circ_buffer
  pub unbroken : s.circ_buffer.head + waiting s.circ_buffer ≤ buf_size
  pub one_page : s.page_queue.tail_offset + waiting s.circ_buffer ≤ page_size

take-drop_at :
    (n h : ℕ) (xs : List ℕ)
    → h < length xs
    → take (suc n) (drop h xs) ≡ get_or xs h 0 ∷ take n (drop (h + 1) xs)
take-drop_at n h [] l = absurd (omega arith)
take-drop_at n zero (x ∷ xs) l = refl
take-drop_at n (suc h) (x ∷ xs) l =
    let e : suc (h + 1) ≡ suc h + 1 = omega arith in
    take-drop_at n h xs (omega arith) ∙ ap (λ i. get_or xs h 0 ∷ take n (drop i (x ∷ xs))) e

-- A window that does not go round is a piece of the array.
pub window-take :
    (buf : List ℕ) (n h : ℕ)
    → length buf ≡ buf_size
    → h + n ≤ buf_size
    → window buf h n ≡ take n (drop h buf)
window-take buf zero h len l = refl
window-take buf (suc zero) h len l = sym (take-drop_at 0 h buf (omega arith))
window-take buf (suc (suc n)) h len l =
    let next : (h + 1) % buf_size ≡ h + 1 = omega arith in
    ap (λ t. get_or buf h 0 ∷ t)
      (ap (λ i. window buf i (suc n)) next ∙ window-take buf (suc n) (h + 1) len (omega arith))
    ∙ sym (take-drop_at (suc n) h buf (omega arith))

-- Data followed by what is written right after it.
pub take-overwrite_end :
    (d n m : ℕ) (bs xs : List ℕ)
    → length bs ≡ n
    → d + n ≤ length xs
    → m ≡ d + n
    → take m (overwrite d bs xs) ≡ take d xs ++ bs
take-overwrite_end d n m bs xs len room e =
    ap (λ k. take k (overwrite d bs xs)) e
    ∙ take-add d n (overwrite d bs xs)
    ∙ ap₂ ◌++◌ (take-overwrite d bs xs) (
        ap (λ k. take k (drop d (overwrite d bs xs))) (sym len)
        ∙ take-drop-overwrite d bs xs (omega arith))

pub take-concat_more :
    (d : ℕ) (ps new : List Page)
    → d ≤ length (concat ps)
    → take d (concat (ps ++ new)) ≡ take d (concat ps)
take-concat_more d ps new h =
    let none_left : d - length (concat ps) ≡ 0 = omega arith in
    ap (take d) (concat-append ps new)
    ∙ take-drop-append d 0 (length (concat ps)) (concat ps) (concat new) (omega arith)
    ∙ ap (λ k. take d (concat ps) ++ take k (concat new)) none_left
    ∙ append-nil (take d (concat ps))
