-- ===== src/Asgn1/Device/Free.antt =====
-- `free_memory_pages` gives back every node and page of the list.
use petulant_wookie.Base.{◌-◌, ◌≤◌, ◌≡◌, refl, List, [], ◌∷◌, length, arith}
use petulant_wookie.Asgn1.Device.{Device, Page, free_nodes, free_memory_pages}

-- What is live beside the list is still live.
free_nodes_lem :
    (ps : List Page) (d : Device)
    → length ps ≤ d.live_nodes
    → length ps ≤ d.live_pages
    → d.mem_list ≡ ps
    → free_nodes ps d ≡ record d {
      mem_list = [];
      live_nodes = d.live_nodes - length ps;
      live_pages = d.live_pages - length ps;
    }
unfolding free_nodes
free_nodes_lem [] d h h' e = ground arith
free_nodes_lem (p ∷ ps) d h h' e =
    let d' : Device = record d {
      mem_list = ps;
      live_nodes = d.live_nodes - 1;
      live_pages = d.live_pages - 1;
    } in
    ground (arith, free_nodes_lem ps d' (omega arith) (omega arith) refl)

-- If the nodes and pages of the list are live, `free_memory_pages` frees each of them once and no
-- other, empties the list and resets both sizes, and leaves the rest of the device.
pub free_memory_pages_lem :
    (d : Device)
    → length d.mem_list ≤ d.live_nodes
    → length d.mem_list ≤ d.live_pages
    → free_memory_pages d ≡ record d {
      mem_list = [];
      num_pages = 0;
      data_size = 0;
      live_nodes = d.live_nodes - length d.mem_list;
      live_pages = d.live_pages - length d.mem_list;
    }
unfolding free_memory_pages
free_memory_pages_lem d h h' = ground (arith, free_nodes_lem d.mem_list d h h' refl)

free_nodes-procs :
    (ps : List Page) (d : Device)
    → ((free_nodes ps d).nprocs ≡ d.nprocs) × ((free_nodes ps d).max_nprocs ≡ d.max_nprocs)
unfolding free_nodes
free_nodes-procs [] d = (refl, refl)
free_nodes-procs (p ∷ ps) d =
    free_nodes-procs ps
      (record d { mem_list = ps; live_nodes = d.live_nodes - 1; live_pages = d.live_pages - 1 })

-- `free_memory_pages` leaves the counts of processes.
pub free_memory_pages-procs :
    (d : Device)
    → ((free_memory_pages d).nprocs ≡ d.nprocs) × ((free_memory_pages d).max_nprocs ≡ d.max_nprocs)
unfolding free_memory_pages
free_memory_pages-procs d = free_nodes-procs d.mem_list d

free_nodes-empty : (ps : List Page) (d : Device) → d.mem_list ≡ ps → (free_nodes ps d).mem_list ≡ []
unfolding free_nodes
free_nodes-empty [] d e = e
free_nodes-empty (p ∷ ps) d e =
    free_nodes-empty ps
      (record d { mem_list = ps; live_nodes = d.live_nodes - 1; live_pages = d.live_pages - 1 })
      refl

-- `free_memory_pages` leaves no page.
pub free_memory_pages-empty :
    (d : Device)
    → ((free_memory_pages d).mem_list ≡ [])
      × ((free_memory_pages d).num_pages ≡ 0)
      × ((free_memory_pages d).data_size ≡ 0)
unfolding free_memory_pages
free_memory_pages-empty d = (free_nodes-empty d.mem_list d refl, refl, refl)
