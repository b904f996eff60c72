-- ===== src/Mem/Space/Sync.antt =====
-- What unmapping tells the processor.
use cpp_os.Base.{ℕ, ◌≡◌, refl, some}
use cpp_os.Util.Misc.{align_down}
use cpp_os.Mem.Zones.{map as map_type, page_size}
use cpp_os.Mem.Pages.Walk.Ends.{unmap_internal-Ends}
use cpp_os.Mem.Space.{Entry, Space, find_entry, remove_entry, unmap_entry, unmap}

-- Pages that are unmapped stay in the processor's cache. `unmap` of an address where a zone is mapped
-- returns that zone's physical address and takes the zone off the list, but it tells the processor to
-- forget nothing, also in the running process's address space: the call of `sync_tlb` stands behind
-- the loop, which returns.
pub unmap_unsynced :
    (sp : Space) (virt_addr : ℕ) (e : Entry)
    → find_entry map_type (align_down virt_addr page_size) sp.virt_allocs ≡ some e
    → (sp' : Space) × (unmap sp virt_addr ≡ some (e.phys_addr, sp'))
      × (sp'.virt_allocs ≡ remove_entry map_type (align_down virt_addr page_size) sp.virt_allocs)
      × (sp'.synced ≡ sp.synced)
unfolding unmap unmap_entry
unmap_unsynced sp virt_addr e f =
    let (m, ends) = unmap_internal-Ends sp.pages sp.pml4_table e.zone.virt_addr e.zone.len in
    rw (f, ends) (_, refl, refl, refl)
