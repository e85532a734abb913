-- ===== src/Server/Replication.antt =====
-- crates/kamino-server/src/replication.rs: the time stamps of writes, and the replies of backups.
-- A text is the list of its bytes.
pub mod Stamps
pub mod Quorum
use kamino.Prelude.{
  ℕ, zero, suc, ◌+◌, ◌-◌, ◌%◌, ◌^◌, ◌&&◌, Bool, true, false, List, [], ◌∷◌, ◌++◌, Option, none,
  some, ltb, ◌==◌, if◌then◌else◌, max, min,
}
use kamino.Protocol.Frame.{
  Frame, simple_string, error, integer, bulk, array, no_frames, more_frames,
}
use kamino.Prelude.Int.{ℤ, pos, negsuc, leb_ℤ}

abbrev pub i64_max : ℤ
i64_max = pos (2 ^ 63 - 1)

abbrev pub max_ℤ : ℤ → ℤ → ℤ
max_ℤ a b = if leb_ℤ a b then b else a

-- `i64::saturating_add(1)`
abbrev pub saturating_suc : ℤ → ℤ
saturating_suc (pos n) = pos (min (suc n) (2 ^ 63 - 1))
saturating_suc (negsuc zero) = pos 0
saturating_suc (negsuc (suc n)) = negsuc n

-- `TimestampSource`, a shared atomic integer
pub record TimestampSource : Type 0 where
  pub last : ℤ

unfoldable pub new : TimestampSource
new = record { last = pos 0 }

-- What `next` computes from the value that it loaded.
unfoldable pub candidate : (prev wall : ℤ) → ℤ
candidate prev wall = max_ℤ (saturating_suc prev) wall

-- `compare_exchange_weak` of one round of `next`: the time stamp that the call returns when the
-- value is still the one loaded, or none, and the round is repeated. `lucky` is false when the
-- exchange fails without a reason, which the weak form may.
unfoldable pub exchange :
    TimestampSource → (prev wall : ℤ) → (same lucky : Bool) → Option ℤ × TimestampSource
exchange s prev wall same lucky =
    if same && lucky
    then (some (candidate prev wall), record { last = candidate prev wall })
    else (none, s)

unfoldable pub observe : TimestampSource → ℤ → TimestampSource
observe s observed = record { last = max_ℤ s.last observed }

-- A reply of the forwarder: a frame, or the text of a transport error.
pub data Reply : Type 0 where
  replied : Frame → Reply
  failed : List ℕ → Reply

-- What went wrong first, from which the source formats a text.
pub data FirstError : Type 0 where
  backup_error : List ℕ → FirstError
  unexpected_reply : Frame → FirstError
  transport_error : List ℕ → FirstError

pub record ReplicationOutcome : Type 0 where
  pub acks : ℕ
  pub failures : ℕ
  pub first_error : Option FirstError

unfoldable pub default : ReplicationOutcome
default = record { acks = 0; failures = 0; first_error = none }

-- `s == "OK"`
abbrev is_ok : List ℕ → Bool
is_ok (o ∷ k ∷ []) = o == 79 && k == 75
is_ok _ = false

abbrev pub is_ack : Reply → Bool
is_ack (replied (simple_string s)) = is_ok s
is_ack (replied (integer _)) = true
is_ack (replied (bulk _)) = true
is_ack _ = false

abbrev reason : Reply → FirstError
reason (replied (error e)) = backup_error e
reason (replied f) = unexpected_reply f
reason (failed e) = transport_error e

abbrev or_first : Option FirstError → FirstError → Option FirstError
or_first none e = some e
or_first (some e) _ = some e

-- One round of the loop of `aggregate`; the counters are `u32`.
unfoldable pub count_reply : ReplicationOutcome → Reply → ReplicationOutcome
count_reply out r = if is_ack r then record out { acks = (out.acks + 1) % 2 ^ 32 } else record out {
  failures = (out.failures + 1) % 2 ^ 32;
  first_error = or_first out.first_error (reason r);
}

unfoldable pub aggregate_from : ReplicationOutcome → List Reply → ReplicationOutcome
aggregate_from out [] = out
aggregate_from out (r ∷ rs) = aggregate_from (count_reply out r) rs

unfoldable pub aggregate : List Reply → ReplicationOutcome
unfolding default
aggregate replies = aggregate_from default replies

-- The value and the time stamp of a reply to a read, if it is well formed.
unfoldable pub decode_get_with_ts : Reply → Option (List ℕ × ℤ)
decode_get_with_ts
      (replied (array (more_frames (bulk (some v)) (more_frames (integer ts) no_frames)))) =
    some (v, ts)
decode_get_with_ts _ = none

-- A fan-out: the replies that the forwarder gave for a command at each backup, in their order.
module _ {Command : Type 0} (forward_command : ℕ → Command → Reply) where
  unfoldable pub forward_all : List ℕ → Command → List Reply
  forward_all [] cmd = []
  forward_all (addr ∷ backups) cmd = forward_command addr cmd ∷ forward_all backups cmd

  -- `replicate_put` and `replicate_delete`, which differ in the command
  unfoldable pub replicate : List ℕ → Command → ReplicationOutcome
  unfolding aggregate
  replicate backups cmd = aggregate (forward_all backups cmd)

  unfoldable pub decode_all : List Reply → List (Option (List ℕ × ℤ))
  decode_all [] = []
  decode_all (r ∷ rs) = decode_get_with_ts r ∷ decode_all rs

  unfoldable pub read_from_backups : List ℕ → Command → List (Option (List ℕ × ℤ))
  read_from_backups backups cmd = decode_all (forward_all backups cmd)
