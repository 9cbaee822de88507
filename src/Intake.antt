-- ===== src/Intake.antt =====
-- The way of a client's transaction into the queues of the RPUs: prellblock/src/turi.rs, batcher.rs,
-- data_broadcaster.rs and peer/peer_inbox.rs.
pub mod Delivered
mod Tests
use prellblock.Prelude.{
  ℕ, List, [], ◌∷◌, ◌++◌, length, Option, none, some, Bool, true, false, leb, ◌||◌, if◌then◌else◌,
  Outcome, ok, err, panicked, ◌>>=◌, ◌>>◌, map_err,
}
use prellblock.Pinxit
use prellblock.Pinxit.{Bytes, Ed25519, Signed, Verified}
use prellblock.Api.Account.{Time}
use prellblock.Api.Transaction.{Transaction}
use prellblock.Queue.{Queue}
use prellblock.WorldState.{WorldState}
use prellblock.TransactionChecker.{PermissionError, verify_permissions}
use prellblock.Consensus.ViewChange.{Effect}
use prellblock.Consensus.Dispatch.{take_transactions}

-- what the `BoxError` of an answer holds
pub data IntakeError : Type 0 where
  invalid_signature : Pinxit.Error → IntakeError
  permission : PermissionError → IntakeError
  data_storage : IntakeError

abbrev pub max_transactions_per_batch : ℕ
max_transactions_per_batch = 4000

-- `Batcher`: the channel has room for one notification, and is closed when its task has ended.
pub record Batcher : Type 0 where
  pub bucket : List (Signed Transaction)
  pub is_notified : Bool
  pub is_closed : Bool

abbrev pub empty_batcher : Batcher
empty_batcher = record { bucket = []; is_notified = false; is_closed = false }

-- `try_send`; `none` is the panic for a closed channel. A full channel is ignored.
abbrev pub notify : Batcher → Option Batcher
notify b = if b.is_closed then none else some (record b { is_notified = true })

unfoldable pub add_to_batch : Signed Transaction → Batcher → Option Batcher
add_to_batch t b =
    let b' = record b { bucket = b.bucket ++ (t ∷ []) } in
    if leb max_transactions_per_batch (length b'.bucket) then notify b' else some b'

-- what `timeout(.., receiver.recv())` gives
pub data Wakeup : Type 0 where
  closed notified timed_out : Wakeup

-- What a turn of `periodically_send_to_broadcaster` leaves and sends; it may end the task.
pub record BatcherTurn : Type 0 where
  pub batcher : Batcher
  pub sent : Option (List (Signed Transaction))
  pub ends : Bool

abbrev pub batch_of : List (Signed Transaction) → Option (List (Signed Transaction))
batch_of [] = none
batch_of (t ∷ ts) = some (t ∷ ts)

unfoldable pub send_batch : Wakeup → Batcher → BatcherTurn
send_batch closed b = record { batcher = record b { is_closed = true }; sent = none; ends = true }
send_batch notified b = record {
  batcher = record b { bucket = []; is_notified = false };
  sent = batch_of b.bucket;
  ends = false;
}
send_batch timed_out b = record {
  batcher = record b { bucket = [] };
  sent = batch_of b.bucket;
  ends = false;
}

-- The result of a broadcast, from those of the peers: a task that failed is logged, and the first error
-- of a peer is returned.
pub data PeerResult : Type 0 where
  sent failed task_failed : PeerResult

unfoldable pub broadcast_result : List PeerResult → Bool
broadcast_result [] = true
broadcast_result (sent ∷ results) = broadcast_result results
broadcast_result (task_failed ∷ results) = broadcast_result results
broadcast_result (failed ∷ results) = false

module _ (e : Ed25519) (signable_data : Transaction → Option Bytes) (now : Time)
    (w : WorldState) where
  -- `Turi::handle_execute`: the answer, and the batcher after the spawned task
  abbrev pub batched : Option Batcher → Outcome IntakeError Batcher
  batched none = panicked
  batched (some b) = ok b

  unfoldable pub turi_handle_execute : Signed Transaction → Batcher → Outcome IntakeError Batcher
  unfolding add_to_batch
  turi_handle_execute t b = do
    verified ← map_err invalid_signature (Pinxit.verify e signable_data t)
    map_err permission (verify_permissions now w verified)
    batched (add_to_batch verified.inner b)

  -- `DataStorage` writes each transaction; nothing of the program reads it.
  module _ {D : Type 0} (write : Signed Transaction → D → Option D) where
    abbrev written : Option D → Outcome IntakeError D
    written none = err data_storage
    written (some d) = ok d

    -- `PeerInbox::handle_execute`
    unfoldable pub handle_execute : Verified Transaction → D → Outcome IntakeError D
    handle_execute t d = do
      map_err permission (verify_permissions now w t)
      written (write t.inner d)

    -- the loop of `handle_execute_batch`
    unfoldable pub handle_each : List (Verified Transaction) → D → Outcome IntakeError D
    unfolding handle_execute
    handle_each [] d = ok d
    handle_each (t ∷ ts) d = do d' ← handle_execute t d; handle_each ts d'

    -- `PeerInbox::handle_execute_batch`, with the times at which the transactions are queued
    unfoldable pub handle_execute_batch :
        (List (Signed Transaction) → List (ℕ × Signed Transaction))
        → List (Signed Transaction)
        → D
        → Queue (Signed Transaction)
        → Outcome IntakeError (D × Queue (Signed Transaction) × List Effect)
    unfolding handle_each
    handle_execute_batch at_times batch d q = do
      verified ← map_err invalid_signature (Pinxit.verify_signed_batch e signable_data batch)
      d' ← handle_each verified d
      let (q', effects) = take_transactions (at_times batch) q in ok (d', q', effects)
