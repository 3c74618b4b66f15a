-- ===== src/Watch/Store/Views.antt =====
-- `WatchStore.status` of watch/store.py.
use watershed_memory.Base.{ℕ, Option, Result, ok, ◌>>=◌, List, map, ◌==◌}
use watershed_memory.Base.Table.{select}
use watershed_memory.Watch.Records.{MonitorRow}
use watershed_memory.Watch.Tables.{Cursor, Db}
use watershed_memory.Watch.Store.{monitor, lease_expiry}

-- The answer: the fields of the row, the cursors by series, and when a lease expires.
pub record StatusView : Type 0 where
  pub row : MonitorRow
  pub series_cursors : List (ℕ × ℕ)
  pub poll_lease_expires_at : Option ℕ

unfoldable pub status : ℕ → Db → Result StatusView
status m db = do
  row ← monitor db m
  ok (record {
    row = row;
    series_cursors =
        map (λ (c : Cursor). (c.series_id, c.cursor))
          (select (λ (c : Cursor). c.monitor_id == m) db.ledger.cursors);
    poll_lease_expires_at = lease_expiry m db;
  })
