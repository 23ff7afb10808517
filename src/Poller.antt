-- ===== src/Poller.antt =====
-- internal/poller/poller.go: the poller's state. The clock, the answers of the client and the rows
-- loaded from ClickHouse are arguments of the operations, which the children define.
pub mod Counts
pub mod Locations
pub mod Bins
pub mod Workers
pub mod Hydration
pub mod Loops
use bcrstracking.Prelude.{ℕ, nat_keys, string_keys, String, Option, none, some, Bool, List, [], ◌∷◌}
use bcrstracking.Prelude.GoMap.{Entries}
use bcrstracking.Model.{Rvm}
use bcrstracking.Model.Index.{index_from}
use bcrstracking.Config.{Config}
use bcrstracking.Metrics.{Metrics}
use bcrstracking.Batch.{BatchBuffer}

-- binKey{rvmID, compartmentType}
abbrev pub BinKey : Type 0
BinKey = ℕ × String

-- `buffer` is p.storage.Buffer(), with `none` where p.storage or the buffer is nil. In the program
-- the poller and the buffer share one Metrics: the poller moves the vectors of machines, bins and
-- poll cycles, and the buffer those of ClickHouse, so each keeps its own here.
pub record Poller : Type 0 where
  pub cfg : Option Config
  pub has_client : Bool
  pub buffer : Option BatchBuffer
  pub metrics : Option Metrics
  pub active_rvms : Entries ℕ Rvm
  pub last_bin_counts : Entries BinKey ℕ

-- New
unfoldable pub new_poller : Option Config → Bool → Option BatchBuffer → Option Metrics → Poller
new_poller cfg has_client buffer metrics = record {
  cfg = cfg;
  has_client = has_client;
  buffer = buffer;
  metrics = metrics;
  active_rvms = [];
  last_bin_counts = [];
}
