-- ===== src/Poller/Hydration/Restart.antt =====
-- A restart of the program: the poller of internal/poller/poller.go takes up the machines where the
-- table of ClickHouse has them.
use bcrstracking.Prelude.{ℕ, nat_keys, Option, none, some, true, List, [], ◌∷◌, map, ◌≡◌, refl, ◌∙◌}
use bcrstracking.Prelude.GoMap.{Entries}
use bcrstracking.Model.{Rvm}
use bcrstracking.Model.Index.{index_from}
use bcrstracking.Errors.{Error}
use bcrstracking.Storage.{Row, rvm_row, LatestBinInfo, load_active_rvms}
use bcrstracking.Storage.Loads.{load_active_rvms-rvm_row}
use bcrstracking.Poller.{Poller}
use bcrstracking.Poller.Hydration.{hydrate_rvms, hydrate_bins, hydrate_from_storage, if_loaded}

active-hydrate_bins :
    (list : List LatestBinInfo) (p : Poller)
    → ((hydrate_bins list p).active_rvms ≡ p.active_rvms)
      × ((hydrate_bins list p).has_client ≡ p.has_client)
unfolding hydrate_bins
active-hydrate_bins [] p = (refl, refl)
active-hydrate_bins (b ∷ rest) p = (refl, refl)

active-if_loaded :
    (bins : List LatestBinInfo × Option Error) (p : Poller)
    → ((if_loaded bins hydrate_bins p).active_rvms ≡ p.active_rvms)
      × ((if_loaded bins hydrate_bins p).has_client ≡ p.has_client)
active-if_loaded (list, none) p = active-hydrate_bins list p
active-if_loaded (list, some e) p = (refl, refl)

-- The map that a poller with no machines has after the load.
active-hydrate_rvms :
    (rvms : Entries ℕ Rvm) (p : Poller)
    → p.active_rvms ≡ []
    → ((hydrate_rvms rvms p).active_rvms ≡ rvms) × ((hydrate_rvms rvms p).has_client ≡ p.has_client)
unfolding hydrate_rvms
active-hydrate_rvms [] p fresh = (fresh, refl)
active-hydrate_rvms (entry ∷ rest) p fresh = (refl, refl)

pub active-hydrate_from_storage :
    (fault : Row → Error) (rs : List Rvm) (bins : List LatestBinInfo × Option Error) (p : Poller)
    → p.active_rvms ≡ []
    → let loaded =
        load_active_rvms fault true
          (record { error = none; rows = map rvm_row rs; rows_error = none }) in
      let next = hydrate_from_storage (some (loaded, bins)) p in
      (next.active_rvms ≡ index_from rs []) × (next.has_client ≡ p.has_client)
unfolding hydrate_from_storage
active-hydrate_from_storage fault rs bins p fresh =
    let (same, client) = active-if_loaded bins (hydrate_rvms (index_from rs []) p) in
    let (loaded, client') = active-hydrate_rvms (index_from rs []) p fresh in
    rw (load_active_rvms-rvm_row fault rs) (same ∙ loaded, client ∙ client')
