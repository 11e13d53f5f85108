-- ===== src/TimeSync/Examples.antt =====
-- Exchanges with a peer whose clock is 40 ms ahead.
use go_norn.Prelude.{◌≡◌, refl, ◌↔◌, true, false, List, ltb, replicate, ◌⊎◌}
use go_norn.Prelude.Int64.{Int64, int}
use go_norn.TimeSync.{
  TimeSyncMsg, synced, available_threshold, abs, measured, new_time_syncer, request, process_all,
  handle_time_sync_req, start,
}
use go_norn.TimeSync.Progress.{Settled}
use go_norn.TimeSync.Settling.{process_all-Settled}

-- The request takes 10 ms, the peer 5 ms and the response 30 ms.
abbrev exchange : TimeSyncMsg
exchange = record {
  code = int 0;
  req_time = int 1000;
  rec_req_time = int 1050;
  rsp_time = int 1055;
  rec_rsp_time = int 1045;
}

-- The handlers produce this message.
exchange_run :
    handle_time_sync_req
      (int 1050)
      (int 1055)
      (new_time_syncer false (int 0))
      (request (int 900) (new_time_syncer false (int 100)))
    ≡ record exchange { rec_rsp_time = int 0 }
unfolding handle_time_sync_req
exchange_run = refl

exchange-measured : measured exchange ≡ int 30
exchange-measured = refl

-- The least int64 passes for a difference below 1000.
abbrev least : Int64
least = 0

abs-least : ltb (abs least) (int available_threshold) ≡ true
abs-least = refl

abbrev six : List TimeSyncMsg
six = replicate 6 exchange

six_run :
    process_all (new_time_syncer false (int 0)) six
    ≡ record { genesis = false; status = synced; delta = int 180; confirm_times = 5 }
unfolding process_all
six_run = refl

process_all-Settled_example :
    ((process_all (start (new_time_syncer false (int 0))) six).status ≡ synced)
    ↔ ((false ≡ true) ⊎ Settled six)
process_all-Settled_example = process_all-Settled false (int 0) six
