-- ===== src/Core/Session.antt =====
-- A link between two operations, with no unnumbered packet of the application's: what its queue
-- holds, and what the callbacks that it runs have confirmed (src/lib/ludlc.c).
pub mod Quiet
pub mod Acknowledge
pub mod Close
pub mod Settle
pub mod Packet
pub mod Receive
pub mod Calls
pub mod Transmit
pub mod Closing
pub mod Enqueue
pub mod History
use ludlc.Prelude.{ℕ, ◌≡◌, Bool, true, false, Option, none, some, List, [], ◌∷◌, ◌++◌, map, All}
use ludlc.Core.State.{Connection, PacketQueueItem, Effect, on_confirm}
use ludlc.Core.Disconnect.{u_outstanding}
use ludlc.Core.Queue.{IsOrdered, SentWithin, HasTtl, view, as_lost}
use ludlc.Core.Queue.Balance.{Parcel, of_request, parcels}

-- No thread reports, the application takes confirmations, and none is owed for the unnumbered packet.
pub record IsQuiet (c : Connection) : Type 0 where
  pub free : c.report_busy ≡ false
  pub calls : c.cb.has_on_confirm ≡ true
  pub no_confirm : c.flags.u_confirm_f ≡ false
  pub no_u : u_outstanding c.flags ≡ false

-- The packets accepted and not yet confirmed, in the order they were accepted.
abbrev pub pending : Connection → List Parcel
pending c = map of_request (view c).requests

-- A link between two operations.
pub record IsSound (c : Connection) : Type 0 where
  pub ordered : IsOrdered c
  pub sent : SentWithin c
  pub ttl : All HasTtl (view c).requests
  pub reported : (view c).outcomes ≡ []
  pub quiet : IsQuiet c

-- A sweep that the callbacks hold up leaves last_sent behind, until the sequence starts anew.
abbrev pub SentWhenOpen : Connection → Type 0
SentWhenOpen c = c.flags.bus_out ≡ false → SentWithin c

-- Under the lock, an operation may have resolved some packets of `c`, in order, and may have given up
-- the one behind them.
pub record Between (c out : Connection) (expired : Option PacketQueueItem) : Type 0 where
  pub ordered : IsOrdered out
  pub sent : SentWhenOpen out
  pub ttl : All HasTtl (view out).requests
  pub quiet : IsQuiet out
  pub balance : parcels (view out, as_lost expired) ≡ pending c

-- The packets confirmed by the callbacks run, in order.
unfoldable pub confirmed : List Effect → List Parcel
confirmed [] = []
confirmed (on_confirm _ chan payload size ∷ effects) =
    record { payload = payload; size = size; chan = chan } ∷ confirmed effects
confirmed (_ ∷ effects) = confirmed effects
