-- ===== src/Protocol/Command.antt =====
-- crates/kamino-protocol/src/command.rs and hello.rs: the commands of the wire protocol.
-- A `Bytes` is the list of its bytes, an integer field a number with its range in `IsSendable`, and
-- an `f64` its bit pattern.
pub mod Arguments
pub mod Options
pub mod Parse
pub mod Print
pub mod RoundTrip
pub mod Values
pub mod Clauses
pub mod Checked
pub mod Accepted
use kamino.Prelude.{ℕ, zero, suc, Bool, false, List, Option, none, some}
use kamino.Prelude.Int.{ℤ}

abbrev pub Bytes : Type 0
Bytes = List ℕ

pub data PartitionType : Type 0 where
  primary backup : PartitionType

unfoldable pub as_u8 : PartitionType → ℕ
as_u8 primary = 0
as_u8 backup = 1

unfoldable pub from_u8 : ℕ → Option PartitionType
from_u8 zero = some primary
from_u8 (suc zero) = some backup
from_u8 (suc (suc _)) = none

pub record PutCommandOptions : Type 0 where
  pub ex : Option ℕ
  pub px : Option ℕ
  pub exat : Option ℕ
  pub pxat : Option ℕ
  pub nx : Bool
  pub xx : Bool
  pub timestamp : Option ℤ

abbrev pub no_put_options : PutCommandOptions
no_put_options = record {
  ex = none;
  px = none;
  exat = none;
  pxat = none;
  nx = false;
  xx = false;
  timestamp = none;
}

pub record ScanCommandOptions : Type 0 where
  pub match_pattern : Option Bytes
  pub count : Option ℕ

abbrev pub no_scan_options : ScanCommandOptions
no_scan_options = record { match_pattern = none; count = none }

pub record HelloArgs : Type 0 where
  pub protocol_version : Option ℕ
  pub auth : Option (Option Bytes × Bytes)
  pub client_name : Option Bytes

abbrev pub no_hello_args : HelloArgs
no_hello_args = record { protocol_version = none; auth = none; client_name = none }

pub data Command : Type 0 where
  ping : Option Bytes → Command
  auth : Option Bytes → Bytes → Command
  hello : HelloArgs → Command
  quit stats : Command
  dm_put : Bytes → Bytes → Bytes → PutCommandOptions → Command
  dm_get : Bytes → Bytes → Command
  dm_del : Bytes → List Bytes → Command
  dm_expire dm_pexpire : Bytes → Bytes → ℕ → Command
  dm_incr dm_decr : Bytes → Bytes → ℤ → Command
  dm_get_put : Bytes → Bytes → Bytes → Command
  dm_incr_by_float : Bytes → Bytes → ℕ → Command
  dm_destroy : Bytes → Command
  dm_scan : ℕ → Bytes → ℕ → ScanCommandOptions → Command
  cluster_members cluster_routing_table cluster_ready : Command
  internal_node_update_routing : Bytes → Command
  internal_node_length_of_part : ℕ → Command
  internal_node_get_with_ts : Bytes → Bytes → Command
  internal_node_move_fragment : ℕ → PartitionType → Bytes → Bytes → Command
  internal_node_publish : Bytes → Bytes → Command
  subscribe psubscribe unsubscribe punsubscribe : List Bytes → Command
  publish : Bytes → Bytes → Command
  pubsub_channels : Option Bytes → Command
  pubsub_numsub : List Bytes → Command
  pubsub_numpat : Command
