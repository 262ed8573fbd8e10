-- ===== src/Store/Errors.antt =====
-- What a failed put leaves behind.
use gocachez.Prelude.{◌≡◌, ◌≢◌, ◌⊎◌, true, none}
use gocachez.Store.Cleared.{SameOrDisputed, Cleared}
use gocachez.Store.State.{Request, LivePath, Store}
use gocachez.Store.Put.{PutFaults, Body}

-- What every failure leaves alone: the paths that were handed out, and the files behind them. The
-- file that was begun is gone unless removing it fails, or was never made.
pub record Undone (f : PutFaults) (body : Body) (req : Request) (st st' : Store) : Type 0 where
  pub materialized : st'.materialized ≡ st.materialized
  pub removed : (f.remove ≡ true) ⊎ ((st'.live st.next_path ≡ none) ⊎ (st'.live ≡ st.live))
  pub others : (p : LivePath) → p ≢ st.next_path → st'.live p ≡ st.live p
  pub catalog : SameOrDisputed f body req st st'
