-- ===== src/Protocol/Command/Options.antt =====
-- crates/kamino-protocol/src/command.rs: the loops over the options of `DM.PUT` and `DM.SCAN` and
-- over the clauses of `HELLO`.
use Prim.Native.String.{String}
use kamino.Prelude.{ℕ, ◌+◌, true, ◌&&◌, List, [], ◌∷◌, Option, none, some, ltb, if◌then◌else◌}
use kamino.Prelude.Int.{ℤ}
use kamino.Protocol.Error.{
  Result, ok, err, ◌>>=◌, CommandError, invalid_argument, conflicting_options, needs_value,
  unexpected_token, unknown_option, more_than_once, nx_and_xx, several_expiries,
}
use kamino.Protocol.Text.{codes, eq_ignore_ascii_case}
use kamino.Protocol.Command.{Bytes, PutCommandOptions, ScanCommandOptions, HelloArgs}
use kamino.Protocol.Command.Arguments.{parse_uint, parse_int}

-- The options with a value.
pub data PutField : Type 0 where
  ex_field px_field exat_field pxat_field ts_field : PutField

pub data PutKeyword : Type 0 where
  put_field : PutField → PutKeyword
  nx_flag xx_flag no_put_keyword : PutKeyword

unfoldable pub put_keyword : Bytes → PutKeyword
unfolding eq_ignore_ascii_case
put_keyword tok =
    if eq_ignore_ascii_case tok (codes "EX")
    then put_field ex_field
    else if eq_ignore_ascii_case tok (codes "PX")
    then put_field px_field
    else if eq_ignore_ascii_case tok (codes "EXAT")
    then put_field exat_field
    else if eq_ignore_ascii_case tok (codes "PXAT")
    then put_field pxat_field
    else if eq_ignore_ascii_case tok (codes "NX")
    then nx_flag
    else if eq_ignore_ascii_case tok (codes "XX")
    then xx_flag
    else if eq_ignore_ascii_case tok (codes "TS")
    then put_field ts_field
    else no_put_keyword

abbrev pub field_name : PutField → String
field_name ex_field = "EX"
field_name px_field = "PX"
field_name exat_field = "EXAT"
field_name pxat_field = "PXAT"
field_name ts_field = "TS"

-- A value for an option that has none yet.
abbrev pub once {ℓ} :
    {A : Type ℓ} → String → String → Option A → Result CommandError A → Result CommandError A
once command name none value = value
once command name (some _) value = err (conflicting_options command (more_than_once name))

unfoldable pub set_field :
    PutCommandOptions → PutField → Bytes → Result CommandError PutCommandOptions
set_field o ex_field v = once "DM.PUT" "EX" o.ex (parse_uint 64 v "DM.PUT" "EX") >>= λ (n : ℕ).
    ok (record o { ex = some n })
set_field o px_field v = once "DM.PUT" "PX" o.px (parse_uint 64 v "DM.PUT" "PX") >>= λ (n : ℕ).
    ok (record o { px = some n })
set_field o exat_field v =
    once "DM.PUT" "EXAT" o.exat (parse_uint 64 v "DM.PUT" "EXAT") >>= λ (n : ℕ).
    ok (record o { exat = some n })
set_field o pxat_field v =
    once "DM.PUT" "PXAT" o.pxat (parse_uint 64 v "DM.PUT" "PXAT") >>= λ (n : ℕ).
    ok (record o { pxat = some n })
set_field o ts_field v = once "DM.PUT" "TS" o.timestamp (parse_int v "DM.PUT" "TS") >>= λ (t : ℤ).
    ok (record o { timestamp = some t })

-- An option at the end of the arguments.
unfoldable pub last_option :
    PutCommandOptions → Bytes → PutKeyword → Result CommandError PutCommandOptions
last_option o tok (put_field f) = err (invalid_argument "DM.PUT" (needs_value (field_name f)))
last_option o tok nx_flag = ok (record o { nx = true })
last_option o tok xx_flag = ok (record o { xx = true })
last_option o tok no_put_keyword = err (invalid_argument "DM.PUT" (unknown_option tok))

-- The loop over the tokens behind the value.
unfoldable pub parse_put_options :
    PutCommandOptions → List Bytes → Result CommandError PutCommandOptions
unfolding put_keyword set_field last_option
parse_put_options o [] = ok o
parse_put_options o (tok ∷ []) = last_option o tok (put_keyword tok)
parse_put_options o (tok ∷ v ∷ rest) = elim (put_keyword tok) [
  | put_field f ↦ set_field o f v >>= λ (o' : PutCommandOptions). parse_put_options o' rest
  | nx_flag ↦ parse_put_options (record o { nx = true }) (v ∷ rest)
  | xx_flag ↦ parse_put_options (record o { xx = true }) (v ∷ rest)
  | no_put_keyword ↦ err (invalid_argument "DM.PUT" (unknown_option tok))
]

abbrev pub count_some {ℓ} : {A : Type ℓ} → Option A → ℕ
count_some none = 0
count_some (some _) = 1

abbrev pub expiry_count : PutCommandOptions → ℕ
expiry_count o = count_some o.ex + count_some o.px + count_some o.exat + count_some o.pxat

-- The tests behind the loop.
unfoldable pub check_put_options : PutCommandOptions → Result CommandError PutCommandOptions
check_put_options o =
    if o.nx && o.xx
    then err (conflicting_options "DM.PUT" nx_and_xx)
    else if ltb 1 (expiry_count o)
    then err (conflicting_options "DM.PUT" several_expiries)
    else ok o

pub data ScanKeyword : Type 0 where
  match_keyword count_keyword no_scan_keyword : ScanKeyword

unfoldable pub scan_keyword : Bytes → ScanKeyword
unfolding eq_ignore_ascii_case
scan_keyword tok =
    if eq_ignore_ascii_case tok (codes "MATCH")
    then match_keyword
    else if eq_ignore_ascii_case tok (codes "COUNT")
    then count_keyword
    else no_scan_keyword

unfoldable pub lone_scan_option : Bytes → ScanKeyword → Result CommandError ScanCommandOptions
lone_scan_option tok match_keyword = err (invalid_argument "DM.SCAN" (needs_value "MATCH"))
lone_scan_option tok count_keyword = err (invalid_argument "DM.SCAN" (needs_value "COUNT"))
lone_scan_option tok no_scan_keyword = err (invalid_argument "DM.SCAN" (unknown_option tok))

unfoldable pub parse_scan_options :
    ScanCommandOptions → List Bytes → Result CommandError ScanCommandOptions
unfolding scan_keyword lone_scan_option
parse_scan_options o [] = ok o
parse_scan_options o (tok ∷ []) = lone_scan_option tok (scan_keyword tok)
parse_scan_options o (tok ∷ v ∷ rest) = elim (scan_keyword tok) [
  | match_keyword ↦ once "DM.SCAN" "MATCH" o.match_pattern (ok v) >>= λ (p : Bytes).
      parse_scan_options (record o { match_pattern = some p }) rest
  | count_keyword ↦
      once "DM.SCAN" "COUNT" o.count (parse_uint 32 v "DM.SCAN" "COUNT") >>= λ (n : ℕ).
      parse_scan_options (record o { count = some n }) rest
  | no_scan_keyword ↦ err (invalid_argument "DM.SCAN" (unknown_option tok))
]

pub data HelloKeyword : Type 0 where
  auth_keyword setname_keyword no_hello_keyword : HelloKeyword

unfoldable pub hello_keyword : Bytes → HelloKeyword
unfolding eq_ignore_ascii_case
hello_keyword tok =
    if eq_ignore_ascii_case tok (codes "AUTH")
    then auth_keyword
    else if eq_ignore_ascii_case tok (codes "SETNAME")
    then setname_keyword
    else no_hello_keyword

-- A clause whose values are cut off, or none.
unfoldable pub cut_clause : Bytes → HelloKeyword → Result CommandError HelloArgs
cut_clause tok auth_keyword = err (invalid_argument "HELLO" (needs_value "AUTH"))
cut_clause tok setname_keyword = err (invalid_argument "HELLO" (needs_value "SETNAME"))
cut_clause tok no_hello_keyword = err (invalid_argument "HELLO" (unexpected_token tok))

-- The `AUTH` and `SETNAME` clauses in any order; a later clause replaces an earlier one.
unfoldable pub parse_hello_clauses : HelloArgs → List Bytes → Result CommandError HelloArgs
unfolding cut_clause
parse_hello_clauses h [] = ok h
parse_hello_clauses h (tok ∷ []) = cut_clause tok (hello_keyword tok)
parse_hello_clauses h (tok ∷ a ∷ []) = elim (hello_keyword tok) [
  | setname_keyword ↦ ok (record h { client_name = some a })
  | auth_keyword ↦ cut_clause tok auth_keyword
  | no_hello_keyword ↦ cut_clause tok no_hello_keyword
]
parse_hello_clauses h (tok ∷ a ∷ b ∷ rest) = elim (hello_keyword tok) [
  | setname_keyword ↦ parse_hello_clauses (record h { client_name = some a }) (b ∷ rest)
  | auth_keyword ↦ parse_hello_clauses (record h { auth = some (some a, b) }) rest
  | no_hello_keyword ↦ cut_clause tok no_hello_keyword
]

-- The first token of `HELLO` is the version, unless a clause starts.
unfoldable pub hello_start :
    HelloArgs → Bytes → List Bytes → HelloKeyword → Result CommandError HelloArgs
hello_start h tok rest no_hello_keyword = parse_uint 32 tok "HELLO" "protover" >>= λ (pv : ℕ).
    parse_hello_clauses (record h { protocol_version = some pv }) rest
hello_start h tok rest _ = parse_hello_clauses h (tok ∷ rest)

unfoldable pub parse_hello_args : HelloArgs → List Bytes → Result CommandError HelloArgs
unfolding hello_start
parse_hello_args h [] = ok h
parse_hello_args h (tok ∷ rest) = hello_start h tok rest (hello_keyword tok)
