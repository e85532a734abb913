-- ===== src/Protocol/Error.antt =====
-- crates/kamino-protocol/src/error.rs: what the codec and the command parser report. The texts
-- that `InvalidEncoding` and `InvalidArgument` carry are enumerations here.
use Prim.Native.String.{String}
use kamino.Prelude.{ℕ, List}
use kamino.Prelude.Int.{ℤ}

pub data Result {ℓ κ} (E : Type κ) (A : Type ℓ) : Type (ℓ ⊔ κ) where
  ok : A → Result E A
  err : E → Result E A

infixl 5 ◌>>=◌
abbrev pub ◌>>=◌ {ℓ κ μ} :
    {E : Type κ} {A : Type ℓ} {B : Type μ} → Result E A → (A → Result E B) → Result E B
ok a >>= f = f a
err e >>= f = err e

-- The frames that have a length of their own, for the reports on it.
pub data Counted : Type 0 where
  array_length map_length set_length push_length bulk_length : Counted

pub data Reason : Type 0 where
  leading_byte : ℕ → Reason
  nesting_deeper : ℕ → Reason
  simple_string_not_utf8 error_not_utf8 integer_not_utf8 double_not_utf8 : Reason
  big_number_not_utf8 : Reason
  bad_integer bad_double bad_big_number : List ℕ → Reason
  invalid_boolean null_with_payload missing_crlf : Reason
  negative_length : Counted → ℤ → Reason
  resp3_only_prefix unknown_prefix : ℕ → Reason
  simple_string_has_crlf error_has_crlf : Reason

pub data FrameKind : Type 0 where
  simple_string_kind error_kind integer_kind bulk_kind array_kind map_kind : FrameKind
  set_kind push_kind boolean_kind double_kind null_kind big_number_kind : FrameKind

pub data ProtocolError : Type 0 where
  incomplete : ProtocolError
  invalid_encoding : Reason → ProtocolError
  bulk_too_large : ℕ → ℕ → ProtocolError
  array_too_large : ℕ → ℕ → ProtocolError
  inline_command_rejected : ProtocolError
  resp3_required : FrameKind → ProtocolError

pub data ArityHint : Type 0 where
  exactly : ℕ → ArityHint
  at_least : ℕ → ArityHint
  range : ℕ → ℕ → ArityHint

-- The field or the option that a report is about, and the argument.
pub data ArgumentFault : Type 0 where
  null_bulk : ArgumentFault
  not_utf8 : String → ArgumentFault
  not_an_integer not_a_float : String → List ℕ → ArgumentFault
  needs_value : String → ArgumentFault
  unexpected_token unknown_option unknown_subcommand : List ℕ → ArgumentFault
  unknown_partition_type : ℕ → ArgumentFault

pub data Conflict : Type 0 where
  more_than_once : String → Conflict
  nx_and_xx : Conflict
  several_expiries : Conflict

-- The command is the name that the program puts into the report.
pub data CommandError : Type 0 where
  not_an_array : CommandError
  unknown_command : List ℕ → CommandError
  wrong_arity : String → ArityHint → ℕ → CommandError
  invalid_argument : String → ArgumentFault → CommandError
  conflicting_options : String → Conflict → CommandError
