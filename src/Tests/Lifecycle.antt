-- ===== src/Tests/Lifecycle.antt =====
-- The end of a storage.
use bcrstracking.Prelude.{◌≡◌, refl, true, false, none, some, List, [], ◌∷◌}
use bcrstracking.Prelude.GoMap.{value_or}
use bcrstracking.Batch.{
  BatchBuffer, new_batch_buffer, step, works, drain, stop_requested, draining_events, finish,
}
use bcrstracking.Batch.Callers.{take_turn, close_stop, acts, moves}
use bcrstracking.Storage.Lifecycle.{
  NewReply, Lifecycle, Happening, new_storage, in_service, happen_all, uses, closes,
}
use bcrstracking.Storage.Lifecycle.Shutdown.{worker_connected}
use bcrstracking.Tests.Settings.{defaults}

abbrev reachable : NewReply
reachable = record { opened = none; pinged = none }

abbrev fresh : BatchBuffer
fresh = new_batch_buffer (some defaults) none true

-- Close is called, its Stop has closed stopChan, and the worker has seen it.
abbrev ending : List Happening
ending = closes ∷ uses (acts 0 close_stop) ∷ uses (moves (works stop_requested)) ∷ []

abbrev ended : Lifecycle
ended = value_or (in_service fresh) (happen_all ending (in_service fresh))

worker_connected_example : (false ≡ false) × (ended.connected ≡ true)
unfolding new_storage happen_all take_turn step new_batch_buffer
worker_connected_example =
    worker_connected defaults none reachable (record { has_conn = true; buffer = some fresh }) false
      fresh (record ended.session.buffer { phase = draining_events finish }) ending ended drain refl
      refl refl refl
