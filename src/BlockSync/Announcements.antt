-- ===== src/BlockSync/Announcements.antt =====
-- What the status messages of peers change.
use go_norn.Prelude.{◌≤◌, ◌≡◌, refl, ◌⊎◌, inl, inr, arith, Bool-cases, ◌==◌}
use go_norn.Prelude.Int64.{Int64, minus}
use go_norn.BlockSync.{BlockSyncer, synced, buffer_syncing, process_status_msg}

-- A status message never lowers the remote height or the target height; the status stays, or the node syncs the
-- buffer and has reached the remote height, or it is synchronised and the chain has reached the target.
pub process_status_msg_lem :
    (bs : BlockSyncer) (height buffer_height db_height : Int64)
    → (bs.remote_height ≤ (process_status_msg bs height buffer_height db_height).remote_height)
      × (bs.target_height ≤ (process_status_msg bs height buffer_height db_height).target_height)
      × (((process_status_msg bs height buffer_height db_height).status ≡ bs.status)
          ⊎ (((process_status_msg bs height buffer_height db_height).status ≡ buffer_syncing)
              × ((process_status_msg bs height buffer_height db_height).remote_height
                  ≡ bs.known_height))
          ⊎ (((process_status_msg bs height buffer_height db_height).status ≡ synced)
              × (db_height ≡ (process_status_msg bs height buffer_height db_height).target_height)))
unfolding process_status_msg
process_status_msg_lem bs height buffer_height db_height = elim (Bool-cases (height == minus 1)) [
  | inl e ↦ rw e (omega arith, omega arith, inl refl)
  | inr e ↦ rw e (ground arith, ground arith, ground arith)
]
