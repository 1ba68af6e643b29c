-- ===== src/Worker/Lifecycle.antt =====
-- The life of a signal as its clients see it, apart from the tables: an id is unknown, then its
-- signal is PENDING, then PROCESSING, and then it has a status at which it stays.
pub mod Queueing
pub mod Recovering
pub mod Restarting
pub mod Rested
pub mod Refined
use mt5_execution_bridge.Prelude.{
  String, ◌≡◌, refl, ap, sym, ◌∙◌, Bool, true, false, Option, none, some, arith, get_or,
}
use mt5_execution_bridge.Models.{ExecutionStatus, pending, processing, is_pending, is_processing}
use mt5_execution_bridge.Storage.{Database}
use mt5_execution_bridge.Storage.Rows.{status_of}
use mt5_execution_bridge.Execution.Quiet.{IsFinal}

-- One change in the life of a signal.
pub data Next : Option ExecutionStatus → Option ExecutionStatus → Type 0 where
  queued : Next none (some pending)
  taken : Next (some pending) (some processing)
  settled : (st : ExecutionStatus) → IsFinal st → Next (some processing) (some st)

-- Any number of changes after one another.
pub data Moves : Option ExecutionStatus → Option ExecutionStatus → Type 0 where
  stays : {a : Option ExecutionStatus} → Moves a a
  onward : {a b c : Option ExecutionStatus} → Moves a b → Next b c → Moves a c

pub Moves-trans : {a b c : Option ExecutionStatus} → Moves a b → Moves b c → Moves a c
Moves-trans m stays = m
Moves-trans m (onward n next) = onward (Moves-trans m n) next

pub Moves-same : {a b : Option ExecutionStatus} → b ≡ a → Moves a b
Moves-same e = rw e stays

-- Nothing follows a final status.
Next-final :
    {a b : Option ExecutionStatus} (st : ExecutionStatus) → Next a b → a ≡ some st → IsFinal st → ⊥
Next-final st queued e h = cc
Next-final st taken e h =
    let same : is_pending pending ≡ is_pending st = ap (λ o. is_pending (get_or o pending)) e in cc
Next-final st (settled st' h') e h =
    let same : is_processing processing ≡ is_processing st =
      ap (λ o. is_processing (get_or o processing)) e in
    cc

pub Moves-final :
    {a b : Option ExecutionStatus} (st : ExecutionStatus)
    → Moves a b
    → a ≡ some st
    → IsFinal st
    → b ≡ some st
Moves-final st stays e h = e
Moves-final st (onward m next) e h = absurd (Next-final st next (Moves-final st m e h) h)

-- What is known stays known.
pub Moves-known :
    {a b : Option ExecutionStatus} (st : ExecutionStatus)
    → Moves a b
    → a ≡ some st
    → (st' : ExecutionStatus) × (b ≡ some st') × Moves (some st) (some st')
Moves-known st stays e = (st, e, stays)
Moves-known st (onward m queued) e = let (st', e', _) = Moves-known st m e in cc
Moves-known st (onward m taken) e =
    let (st', e', m') = Moves-known st m e in (processing, refl, onward (rw e' m') taken)
Moves-known st (onward m (settled st'' h)) e =
    let (st', e', m') = Moves-known st m e in (st'', refl, onward (rw e' m') (settled st'' h))

-- Every signal makes its moves, from one database to another.
abbrev pub AllMove : {F : Type 0} → Database F → Database F → Type 0
AllMove db db' = (i : String) → Moves (status_of i db) (status_of i db')
