-- ===== src/Log.antt =====
-- The log streams of src/server_log.rs: `ServerLog` and `ServerAuditLog`. A stream is the queue
-- behind a sender, with its capacity and whether its receiver is still there.
pub mod Dispatch
use smartdns_plus_ui.Base.{
  ℕ, zero, suc, Bool, true, false, List, [], ◌∷◌, ◌++◌, Option, none, some, if◌then◌else◌, ltb,
  length, is_empty, reverse, Text,
}

pub record ServerLogMsg : Type 0 where
  pub level : ℕ
  pub msg : Text
  pub len : ℕ

pub record ServerAuditLogMsg : Type 0 where
  pub msg : Text
  pub len : ℕ

-- the capacity of the channels
abbrev pub stream_capacity : ℕ
stream_capacity = 4096

pub record Stream {ℓ} (Msg : Type ℓ) : Type ℓ where
  pub queue : List Msg
  pub closed : Bool

pub data Sent {ℓ} (Msg : Type ℓ) : Type ℓ where
  sent : Stream Msg → Sent Msg
  full : Sent Msg
  gone : Sent Msg

module _ {ℓ} {Msg : Type ℓ} where
  -- `Sender::try_send`
  unfoldable pub try_send : Msg → Stream Msg → Sent Msg
  try_send m s =
      if s.closed
      then gone
      else if ltb (length s.queue) stream_capacity
      then sent (record s { queue = s.queue ++ m ∷ [] })
      else full

  -- the loop over the streams: the streams with their new queues, and `remove_list`
  unfoldable pub send_from : ℕ → Msg → List (Stream Msg) → List (Stream Msg) × List ℕ
  unfolding try_send
  send_from i m [] = ([], [])
  send_from i m (s ∷ ss) =
      let rest = send_from (suc i) m ss in
      elim (try_send m s) [
        | sent s' ↦ (s' ∷ rest.0, rest.1)
        | full ↦ (s ∷ rest.0, rest.1)
        | gone ↦ (s ∷ rest.0, i ∷ rest.1)
      ]

  -- `Vec::remove`; out of bounds it panics, here it changes nothing
  unfoldable pub remove : ℕ → List (Stream Msg) → List (Stream Msg)
  remove i [] = []
  remove zero (s ∷ ss) = ss
  remove (suc i) (s ∷ ss) = s ∷ remove i ss

  unfoldable pub remove_all : List ℕ → List (Stream Msg) → List (Stream Msg)
  unfolding remove
  remove_all [] ss = ss
  remove_all (i ∷ is) ss = remove_all is (remove i ss)

  -- `dispatch_log` and `dispatch_audit_log`, of a message
  unfoldable pub dispatch : Msg → List (Stream Msg) → List (Stream Msg)
  unfolding send_from remove_all
  dispatch m [] = []
  dispatch m (s ∷ ss) =
      let result = send_from 0 m (s ∷ ss) in
      if is_empty result.1 then result.0 else remove_all (reverse result.1) result.0

  -- `get_log_stream` and `get_audit_log_stream`
  unfoldable pub get_stream : List (Stream Msg) → List (Stream Msg)
  get_stream ss = ss ++ record { queue = []; closed = false } ∷ []

unfoldable pub dispatch_log : ℕ → Text → ℕ → List (Stream ServerLogMsg) → List (Stream ServerLogMsg)
unfolding dispatch
dispatch_log level msg len = dispatch (record { level = level; msg = msg; len = len })

unfoldable pub dispatch_audit_log :
    Text → ℕ → List (Stream ServerAuditLogMsg) → List (Stream ServerAuditLogMsg)
unfolding dispatch
dispatch_audit_log msg len = dispatch (record { msg = msg; len = len })
