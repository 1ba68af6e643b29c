-- ===== src/Execution/Responsive.antt =====
-- A host whose storage and clock answer every call.
use mt5_execution_bridge.Prelude.{ℕ, ◌≡◌, refl}
use mt5_execution_bridge.Storage.{Database}
use mt5_execution_bridge.Outside.{answer, Host}
use mt5_execution_bridge.Exec.{Bridge, ok, ask, gets, utc_now, transaction, query, ◌>>=◌}

pub record IsResponsive {T : Type 0} (host : Host T) : Type 0 where
  pub stores : (t : T) → (u : T) × (host.storage t ≡ (answer tt, u))
  pub tells : (t : T) → (now : ℕ) × (u : T) × (host.utc_now t ≡ (answer now, u))

module _ {F T A : Type 0} ⦃host : Host T⦄ where
  pub transaction_done :
      IsResponsive host
      → (op : ℕ → Database F → A × Database F) (s : Bridge F T)
      → (now : ℕ) × (t : T) × (transaction op s
          ≡ (ok (op now s.db).0, record s { outside = t; db = (op now s.db).1 }))
  unfolding transaction ask utc_now ◌>>=◌
  transaction_done responds op s =
      let (t, stored) = responds.stores s.outside in
      let (now, u, told) = responds.tells t in (now, u, rw (stored, told) refl)

  pub query_done :
      IsResponsive host
      → (q : Database F → A) (s : Bridge F T)
      → (t : T) × (query q s ≡ (ok (q s.db), record s { outside = t }))
  unfolding query ask gets ◌>>=◌
  query_done responds q s = let (t, stored) = responds.stores s.outside in (t, rw stored refl)
