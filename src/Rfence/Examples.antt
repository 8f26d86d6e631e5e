-- ===== src/Rfence/Examples.antt =====
-- A fence of two pages, and two harts of which the first has one executed by the second.
use rustsbi.Base.{inl, ℕ, ◌≡◌, refl, ◌⊎◌, false, true, [], ◌∷◌, arith}
use rustsbi.Smm.Vector.{any}
use rustsbi.Spec.Ret.{ok, err, invalid_address}
use rustsbi.Rfence.{
  RFenceContext, Request, sfence_vma, hfence_gvma, full_flush, validate_address_range,
  rfence_local_handler, is_sync, add, sub, try_push, get,
}
use rustsbi.Rfence.Flush.{
  validate_address_range_lem, IsAccepted, rfence_local_handler_misses, reaches,
}
use rustsbi.Rfence.Queue.{count_source}
use rustsbi.Rfence.Protocol.{
  System, Reach, boot, here, next, idle, free, count, push, send_succeeds, take, fence, acknowledge,
}
use rustsbi.Rfence.Invariant.{busy}
use rustsbi.Rfence.Sync.{is_sync_complete}

validate_address_range_lem_example :
    ((validate_address_range 4096 8000 ≡ ok 8000) × IsAccepted 4096 8000)
    ⊎ ((validate_address_range 4096 8000 ≡ err invalid_address) × ¬ IsAccepted 4096 8000)
validate_address_range_lem_example =
    validate_address_range_lem 4096 8000 (omega arith) (omega arith)

abbrev two_pages : RFenceContext
two_pages = record { start_addr = 4096; size = 8000; asid = 0; vmid = 0; op = sfence_vma }

abbrev guest_pages : RFenceContext
guest_pages = record { start_addr = 4096; size = 8000; asid = 0; vmid = 0; op = hfence_gvma }

partial : full_flush guest_pages ≡ false
unfolding full_flush
partial = refl

rfence_local_handler_misses_example :
    any (reaches hfence_gvma 0 0 9000) (rfence_local_handler guest_pages) ≡ false
rfence_local_handler_misses_example =
    rfence_local_handler_misses guest_pages 9000 (inl refl) partial (omega arith) (omega arith)
      (omega arith) (omega arith)

abbrev zeroth : ℕ
zeroth = 0

abbrev two_harts : ℕ
two_harts = 2

abbrev request : Request
request = record { context = two_pages; source = 0 }

-- The first hart has sent the request, which waits in the queue of the second.
sent :
    (s : System) × (Reach 2 boot s)
    × (s.sender zeroth ≡ idle)
    × (s.handler 1 ≡ free)
    × (s.cells 1 ≡ record { queue = request ∷ []; wait_sync_count = 0 })
    × ((s.cells 0).wait_sync_count ≡ 1)
unfolding add try_push
sent = (
  _,
  next
      (next (next here (count 0 1 two_pages (omega arith) (omega arith) refl))
        (push 0 1 two_pages _ (omega arith) refl refl))
      (send_succeeds 0 1 refl),
  refl,
  refl,
  refl,
  refl,
)

-- The second has executed and acknowledged it.
done : (s : System) × (Reach 2 boot s) × (s.sender zeroth ≡ idle) × (is_sync (s.cells 0) ≡ true)
unfolding add sub try_push get is_sync
done = (
  _,
  next
      (next
        (next
          (next
            (next (next here (count 0 1 two_pages (omega arith) (omega arith) refl))
              (push 0 1 two_pages _ (omega arith) refl refl))
            (send_succeeds 0 1 refl))
          (take 1 request _ (omega arith) refl refl))
        (fence 1 request (omega arith) refl))
      (acknowledge 1 request (omega arith) refl),
  refl,
  refl,
)

is_sync_complete_example :
    (count_source 0 (done.0.cells 1).queue ≡ 0) × (busy 0 (done.0.handler 1) ≡ 0)
is_sync_complete_example =
    is_sync_complete 0 1 (omega arith) done.1 (omega arith) (omega arith) done.2 done.3
