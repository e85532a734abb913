-- ===== src/Protocol/Command/Checked.antt =====
-- Every command that the parser answers keeps the rules for commands.
use Prim.Native.String.{String}
use kamino.Prelude.{
  ℕ, zero, suc, ◌+◌, ◌^◌, ◌≤◌, ◌<◌, ◌≡◌, true, false, ◌&&◌, List, [], ◌∷◌, Option, none, some,
  arith, ltb, ltb→lt, ◌==◌, Bool-cases, inl, inr,
}
use kamino.Prelude.Int.{InI64}
use kamino.Protocol.Error.{
  Result, ok, err, ◌>>=◌, CommandError, ArgumentFault, invalid_argument, unknown_option,
  not_an_integer, not_utf8,
}
use kamino.Protocol.Text.{parse_unsigned, parse_signed, parse_nat, is_utf8, below, as_pos, as_neg}
use kamino.Protocol.Command.{Bytes, PutCommandOptions, ScanCommandOptions, HelloArgs}
use kamino.Protocol.Command.Arguments.{parse_text, parse_uint, parse_int, or_fault}
use kamino.Protocol.Command.Options.{
  parse_put_options, check_put_options, parse_scan_options, parse_hello_clauses, parse_hello_args,
  PutField, ex_field, px_field, exat_field, pxat_field, ts_field, set_field, last_option,
  PutKeyword, once, scan_keyword, match_keyword, count_keyword, no_scan_keyword, lone_scan_option,
  ScanKeyword, hello_keyword, auth_keyword, setname_keyword, no_hello_keyword, cut_clause,
  HelloKeyword, hello_start, expiry_count, put_keyword, put_field, nx_flag, xx_flag, no_put_keyword,
}
use kamino.Protocol.Command.Print.{Below, InI64?, HasUser}

-- What holds of a result, if there is one.
abbrev pub Gives {ℓ κ} : {A : Type ℓ} → (A → Type κ) → Result CommandError A → Type κ
Gives P (ok a) = P a
Gives P (err e) = Unit

pub bind-Gives {ℓ κ μ} :
    {A : Type ℓ} {B : Type κ} (P : A → Type μ) (Q : B → Type μ) (r : Result CommandError A)
    (k : A → Result CommandError B)
    → Gives P r
    → ((a : A) → P a → Gives Q (k a))
    → Gives Q (r >>= k)
bind-Gives P Q (ok a) k y later = later a y
bind-Gives P Q (err e) k y later = tt

abbrev pub Holds {ℓ κ} : {A : Type ℓ} → (A → Type κ) → Option A → Type κ
Holds P none = Unit
Holds P (some a) = P a

below-Holds : (bound : ℕ) (o : Option ℕ) → Holds (λ n. n < bound) (below bound o)
below-Holds bound none = tt
below-Holds bound (some n) = elim (Bool-cases (ltb n bound)) [
  | inl fits ↦ rw fits (ltb→lt n bound fits)
  | inr large ↦ rw large tt
]

parse_unsigned-Holds : (bits : ℕ) (s : Bytes) → Holds (λ n. n < 2 ^ bits) (parse_unsigned bits s)
unfolding parse_unsigned
parse_unsigned-Holds bits [] = tt
parse_unsigned-Holds bits (c ∷ cs) = below-Holds (2 ^ bits) _

as_pos-Holds : (o : Option ℕ) → Holds (λ n. n < 2 ^ 63) o → Holds InI64 (as_pos o)
as_pos-Holds none h = tt
as_pos-Holds (some n) h = h

as_neg-Holds : (o : Option ℕ) → Holds (λ n. n < 2 ^ 63 + 1) o → Holds InI64 (as_neg o)
as_neg-Holds none h = tt
as_neg-Holds (some zero) h = omega arith
as_neg-Holds (some (suc n)) h = omega arith

parse_signed-Holds : (s : Bytes) → Holds InI64 (parse_signed s)
unfolding parse_signed
parse_signed-Holds [] = tt
parse_signed-Holds (c ∷ cs) = elim (Bool-cases (c == b'-')) [
  | inl minus ↦
      rw minus
        (as_neg-Holds (below (2 ^ 63 + 1) (parse_nat cs)) (below-Holds (2 ^ 63 + 1) (parse_nat cs)))
  | inr unsigned ↦ elim (Bool-cases (c == b'+')) [
    | inl plus ↦
        rw (unsigned, plus)
          (as_pos-Holds (below (2 ^ 63) (parse_nat cs)) (below-Holds (2 ^ 63) (parse_nat cs)))
    | inr plain ↦
        rw (unsigned, plain)
          (as_pos-Holds (below (2 ^ 63) (parse_nat (c ∷ cs)))
            (below-Holds (2 ^ 63) (parse_nat (c ∷ cs))))
  ]
]

pub or_fault-Gives {ℓ κ} :
    {A : Type ℓ} (P : A → Type κ) (command : String) (fault : ArgumentFault) (o : Option A)
    → Holds P o
    → Gives P (or_fault command fault o)
or_fault-Gives P command fault none h = tt
or_fault-Gives P command fault (some a) h = h

pub parse_text-Gives {ℓ κ} :
    {A : Type ℓ} (P : A → Type κ) (read : Bytes → Option A) (command : String)
    (invalid : Bytes → ArgumentFault) (undecodable : ArgumentFault) (s : Bytes)
    → Holds P (read s)
    → Gives P (parse_text read command invalid undecodable s)
unfolding parse_text
parse_text-Gives P read command invalid undecodable s h = elim (Bool-cases (is_utf8 s)) [
  | inl valid ↦ rw valid (or_fault-Gives P command (invalid s) (read s) h)
  | inr broken ↦ rw broken tt
]

pub parse_uint-Gives :
    (bits : ℕ) (s : Bytes) (command field : String)
    → Gives (λ n. n < 2 ^ bits) (parse_uint bits s command field)
unfolding parse_uint
parse_uint-Gives bits s command field =
    parse_text-Gives (λ n. n < 2 ^ bits) (parse_unsigned bits) command (not_an_integer field)
      (not_utf8 field) s (parse_unsigned-Holds bits s)

pub parse_int-Gives : (s : Bytes) (command field : String) → Gives InI64 (parse_int s command field)
unfolding parse_int
parse_int-Gives s command field =
    parse_text-Gives InI64 parse_signed command (not_an_integer field) (not_utf8 field) s
      (parse_signed-Holds s)

once-Gives {ℓ κ} :
    {A : Type ℓ} (P : A → Type κ) (command name : String) (o : Option A) (r : Result CommandError A)
    → Gives P r
    → Gives P (once command name o r)
once-Gives P command name none r h = h
once-Gives P command name (some a) r h = tt

-- Every integer of the options is in the range of its type.
abbrev pub InRange : PutCommandOptions → Type 0
InRange o = Below 64 o.ex × Below 64 o.px × Below 64 o.exat × Below 64 o.pxat × InI64? o.timestamp

set_field-Gives :
    (o : PutCommandOptions) (f : PutField) (v : Bytes) → InRange o → Gives InRange (set_field o f v)
unfolding set_field
set_field-Gives o ex_field v h =
    bind-Gives (λ n. n < 2 ^ 64) InRange (once "DM.PUT" "EX" o.ex (parse_uint 64 v "DM.PUT" "EX")) _
      (once-Gives (λ n. n < 2 ^ 64) "DM.PUT" "EX" o.ex _ (parse_uint-Gives 64 v "DM.PUT" "EX"))
      λ n n64. (n64, h.1, h.2, h.3, h.4)
set_field-Gives o px_field v h =
    bind-Gives (λ n. n < 2 ^ 64) InRange (once "DM.PUT" "PX" o.px (parse_uint 64 v "DM.PUT" "PX")) _
      (once-Gives (λ n. n < 2 ^ 64) "DM.PUT" "PX" o.px _ (parse_uint-Gives 64 v "DM.PUT" "PX"))
      λ n n64. (h.0, n64, h.2, h.3, h.4)
set_field-Gives o exat_field v h =
    bind-Gives (λ n. n < 2 ^ 64) InRange
      (once "DM.PUT" "EXAT" o.exat (parse_uint 64 v "DM.PUT" "EXAT")) _
      (once-Gives (λ n. n < 2 ^ 64) "DM.PUT" "EXAT" o.exat _
        (parse_uint-Gives 64 v "DM.PUT" "EXAT"))
      λ n n64. (h.0, h.1, n64, h.3, h.4)
set_field-Gives o pxat_field v h =
    bind-Gives (λ n. n < 2 ^ 64) InRange
      (once "DM.PUT" "PXAT" o.pxat (parse_uint 64 v "DM.PUT" "PXAT")) _
      (once-Gives (λ n. n < 2 ^ 64) "DM.PUT" "PXAT" o.pxat _
        (parse_uint-Gives 64 v "DM.PUT" "PXAT"))
      λ n n64. (h.0, h.1, h.2, n64, h.4)
set_field-Gives o ts_field v h =
    bind-Gives InI64 InRange (once "DM.PUT" "TS" o.timestamp (parse_int v "DM.PUT" "TS")) _
      (once-Gives InI64 "DM.PUT" "TS" o.timestamp _ (parse_int-Gives v "DM.PUT" "TS"))
      λ t i64. (h.0, h.1, h.2, h.3, i64)

last_option-Gives :
    (o : PutCommandOptions) (tok : Bytes) (k : PutKeyword)
    → InRange o
    → Gives InRange (last_option o tok k)
unfolding last_option
last_option-Gives o tok (put_field f) h = tt
last_option-Gives o tok nx_flag h = h
last_option-Gives o tok xx_flag h = h
last_option-Gives o tok no_put_keyword h = tt

pub parse_put_options-Gives :
    (o : PutCommandOptions) (toks : List Bytes)
    → InRange o
    → Gives InRange (parse_put_options o toks)
unfolding parse_put_options
parse_put_options-Gives o [] h = h
parse_put_options-Gives o (tok ∷ []) h = last_option-Gives o tok (put_keyword tok) h
parse_put_options-Gives o (tok ∷ v ∷ rest) h =
    elim (put_keyword tok)
      as (λ k. Gives InRange (elim k [
        | put_field f ↦ set_field o f v >>= λ (o' : PutCommandOptions). parse_put_options o' rest
        | nx_flag ↦ parse_put_options (record o { nx = true }) (v ∷ rest)
        | xx_flag ↦ parse_put_options (record o { xx = true }) (v ∷ rest)
        | no_put_keyword ↦ err (invalid_argument "DM.PUT" (unknown_option tok))
      ])) [
        | put_field f ↦
            bind-Gives InRange InRange (set_field o f v) _ (set_field-Gives o f v h)
              λ o' h'. parse_put_options-Gives o' rest h'
        | nx_flag ↦ parse_put_options-Gives (record o { nx = true }) (v ∷ rest) h
        | xx_flag ↦ parse_put_options-Gives (record o { xx = true }) (v ∷ rest) h
        | no_put_keyword ↦ tt
      ]

-- The options may stand together.
abbrev pub IsCompatible : PutCommandOptions → Type 0
IsCompatible o = ((o.nx && o.xx) ≡ false) × (expiry_count o ≤ 1)

pub check_put_options-Gives :
    (o : PutCommandOptions)
    → InRange o
    → Gives (λ o'. InRange o' × IsCompatible o') (check_put_options o)
unfolding check_put_options
check_put_options-Gives o h = elim (Bool-cases (o.nx && o.xx)) [
  | inl both ↦ rw both tt
  | inr one ↦ elim (Bool-cases (ltb 1 (expiry_count o))) [
    | inl several ↦ rw (one, several) tt
    | inr single ↦ rw (one, single) (h, (one, ground arith))
  ]
]

abbrev pub CountInRange : ScanCommandOptions → Type 0
CountInRange o = Below 32 o.count

lone_scan_option-Gives :
    (tok : Bytes) (k : ScanKeyword) → Gives CountInRange (lone_scan_option tok k)
unfolding lone_scan_option
lone_scan_option-Gives tok match_keyword = tt
lone_scan_option-Gives tok count_keyword = tt
lone_scan_option-Gives tok no_scan_keyword = tt

pub parse_scan_options-Gives :
    (o : ScanCommandOptions) (toks : List Bytes)
    → CountInRange o
    → Gives CountInRange (parse_scan_options o toks)
unfolding parse_scan_options
parse_scan_options-Gives o [] h = h
parse_scan_options-Gives o (tok ∷ []) h = lone_scan_option-Gives tok (scan_keyword tok)
parse_scan_options-Gives o (tok ∷ v ∷ rest) h =
    elim (scan_keyword tok)
      as (λ k. Gives CountInRange (elim k [
        | match_keyword ↦ once "DM.SCAN" "MATCH" o.match_pattern (ok v) >>= λ (p : Bytes).
            parse_scan_options (record o { match_pattern = some p }) rest
        | count_keyword ↦
            once "DM.SCAN" "COUNT" o.count (parse_uint 32 v "DM.SCAN" "COUNT") >>= λ (n : ℕ).
            parse_scan_options (record o { count = some n }) rest
        | no_scan_keyword ↦ err (invalid_argument "DM.SCAN" (unknown_option tok))
      ])) [
        | match_keyword ↦
            bind-Gives (λ (p : Bytes). Unit {0}) CountInRange
              (once "DM.SCAN" "MATCH" o.match_pattern (ok v)) _
              (once-Gives (λ (p : Bytes). Unit {0}) "DM.SCAN" "MATCH" o.match_pattern (ok v) tt)
              λ p _. parse_scan_options-Gives (record o { match_pattern = some p }) rest h
        | count_keyword ↦
            bind-Gives (λ n. n < 2 ^ 32) CountInRange
              (once "DM.SCAN" "COUNT" o.count (parse_uint 32 v "DM.SCAN" "COUNT")) _
              (once-Gives (λ n. n < 2 ^ 32) "DM.SCAN" "COUNT" o.count _
                (parse_uint-Gives 32 v "DM.SCAN" "COUNT"))
              λ n n32. parse_scan_options-Gives (record o { count = some n }) rest n32
        | no_scan_keyword ↦ tt
      ]

abbrev pub IsLogin : HelloArgs → Type 0
IsLogin h = Below 32 h.protocol_version × HasUser h.auth

cut_clause-Gives : (tok : Bytes) (k : HelloKeyword) → Gives IsLogin (cut_clause tok k)
unfolding cut_clause
cut_clause-Gives tok auth_keyword = tt
cut_clause-Gives tok setname_keyword = tt
cut_clause-Gives tok no_hello_keyword = tt

parse_hello_clauses-Gives :
    (h : HelloArgs) (toks : List Bytes) → IsLogin h → Gives IsLogin (parse_hello_clauses h toks)
unfolding parse_hello_clauses
parse_hello_clauses-Gives h [] l = l
parse_hello_clauses-Gives h (tok ∷ []) l = cut_clause-Gives tok (hello_keyword tok)
parse_hello_clauses-Gives h (tok ∷ a ∷ []) l =
    elim (hello_keyword tok)
      as (λ k. Gives IsLogin (elim k [
        | setname_keyword ↦ ok (record h { client_name = some a })
        | auth_keyword ↦ cut_clause tok auth_keyword
        | no_hello_keyword ↦ cut_clause tok no_hello_keyword
      ])) [ setname_keyword ↦ l | auth_keyword ↦ tt | no_hello_keyword ↦ tt ]
parse_hello_clauses-Gives h (tok ∷ a ∷ b ∷ rest) l =
    elim (hello_keyword tok)
      as (λ k. Gives IsLogin (elim k [
        | setname_keyword ↦ parse_hello_clauses (record h { client_name = some a }) (b ∷ rest)
        | auth_keyword ↦ parse_hello_clauses (record h { auth = some (some a, b) }) rest
        | no_hello_keyword ↦ cut_clause tok no_hello_keyword
      ])) [
        | setname_keyword ↦
            parse_hello_clauses-Gives (record h { client_name = some a }) (b ∷ rest) l
        | auth_keyword ↦
            parse_hello_clauses-Gives (record h { auth = some (some a, b) }) rest (l.0, tt)
        | no_hello_keyword ↦ tt
      ]

hello_start-Gives :
    (h : HelloArgs) (tok : Bytes) (rest : List Bytes) (k : HelloKeyword)
    → IsLogin h
    → Gives IsLogin (hello_start h tok rest k)
unfolding hello_start
hello_start-Gives h tok rest no_hello_keyword l =
    bind-Gives (λ n. n < 2 ^ 32) IsLogin (parse_uint 32 tok "HELLO" "protover") _
      (parse_uint-Gives 32 tok "HELLO" "protover")
      λ n n32. parse_hello_clauses-Gives (record h { protocol_version = some n }) rest (n32, l.1)
hello_start-Gives h tok rest _ l = parse_hello_clauses-Gives h (tok ∷ rest) l

pub parse_hello_args-Gives :
    (h : HelloArgs) (toks : List Bytes) → IsLogin h → Gives IsLogin (parse_hello_args h toks)
unfolding parse_hello_args
parse_hello_args-Gives h [] l = l
parse_hello_args-Gives h (tok ∷ rest) l = hello_start-Gives h tok rest (hello_keyword tok) l
