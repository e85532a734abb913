-- ===== src/Protocol/Command/Clauses.antt =====
-- Options and clauses that were sent are the ones that the loops answer.
use kamino.Prelude.{
  ℕ, ◌^◌, ◌≤◌, ◌<◌, ◌≡◌, refl, ◌∙◌, Bool, true, false, ◌&&◌, List, [], ◌∷◌, ◌++◌, Option, none,
  some, arith, ◌==◌,
}
use kamino.Prelude.Int.{ℤ}
use kamino.Protocol.Error.{ok}
use kamino.Protocol.Text.{print_nat, print_int, to_lower}
use kamino.Protocol.Text.Digits.{starts_with_digit, print_nat-starts_with_digit}
use kamino.Protocol.Command.Values.{parse_uint-print_nat, parse_int-print_int}
use kamino.Protocol.Command.{
  Bytes, PutCommandOptions, ScanCommandOptions, HelloArgs, no_put_options, no_scan_options,
  no_hello_args,
}
use kamino.Protocol.Command.Options.{
  parse_put_options, check_put_options, parse_scan_options, parse_hello_clauses, parse_hello_args,
  hello_keyword, expiry_count, no_hello_keyword,
}
use kamino.Protocol.Command.Print.{
  given, flag, auth_parts, version_parts, put_options_to_frames, scan_options_to_frames,
  hello_to_frame_parts, Below, InI64?, HasUser,
}

abbrev options :
    Option ℕ → Option ℕ → Option ℕ → Option ℕ → Bool → Bool → Option ℤ → PutCommandOptions
options ex px exat pxat nx xx timestamp = record {
  ex = ex;
  px = px;
  exat = exat;
  pxat = pxat;
  nx = nx;
  xx = xx;
  timestamp = timestamp;
}

-- The steps of the option loop of `DM.PUT`, in the order in which the options are sent.
put_ex :
    (v : Option ℕ) (tail : List Bytes)
    → Below 64 v
    → parse_put_options no_put_options (given "EX" print_nat v ++ tail)
      ≡ parse_put_options (options v none none none false false none) tail
unfolding parse_put_options
put_ex none tail h = refl
put_ex (some n) tail h = rw (parse_uint-print_nat 64 n "DM.PUT" "EX" h)

put_px :
    (ex v : Option ℕ) (tail : List Bytes)
    → Below 64 v
    → parse_put_options
        (options ex none none none false false none)
        (given "PX" print_nat v ++ tail)
      ≡ parse_put_options (options ex v none none false false none) tail
unfolding parse_put_options
put_px ex none tail h = refl
put_px ex (some n) tail h = rw (parse_uint-print_nat 64 n "DM.PUT" "PX" h)

put_exat :
    (ex px v : Option ℕ) (tail : List Bytes)
    → Below 64 v
    → parse_put_options
        (options ex px none none false false none)
        (given "EXAT" print_nat v ++ tail)
      ≡ parse_put_options (options ex px v none false false none) tail
unfolding parse_put_options
put_exat ex px none tail h = refl
put_exat ex px (some n) tail h = rw (parse_uint-print_nat 64 n "DM.PUT" "EXAT" h)

put_pxat :
    (ex px exat v : Option ℕ) (tail : List Bytes)
    → Below 64 v
    → parse_put_options
        (options ex px exat none false false none)
        (given "PXAT" print_nat v ++ tail)
      ≡ parse_put_options (options ex px exat v false false none) tail
unfolding parse_put_options
put_pxat ex px exat none tail h = refl
put_pxat ex px exat (some n) tail h = rw (parse_uint-print_nat 64 n "DM.PUT" "PXAT" h)

put_nx :
    (ex px exat pxat : Option ℕ) (nx : Bool) (tail : List Bytes)
    → parse_put_options (options ex px exat pxat false false none) (flag "NX" nx ++ tail)
      ≡ parse_put_options (options ex px exat pxat nx false none) tail
unfolding parse_put_options
put_nx ex px exat pxat false tail = refl
put_nx ex px exat pxat true [] = refl
put_nx ex px exat pxat true (t ∷ tail) = refl

put_xx :
    (ex px exat pxat : Option ℕ) (nx xx : Bool) (tail : List Bytes)
    → parse_put_options (options ex px exat pxat nx false none) (flag "XX" xx ++ tail)
      ≡ parse_put_options (options ex px exat pxat nx xx none) tail
unfolding parse_put_options
put_xx ex px exat pxat nx false tail = refl
put_xx ex px exat pxat nx true [] = refl
put_xx ex px exat pxat nx true (t ∷ tail) = refl

put_ts :
    (ex px exat pxat : Option ℕ) (nx xx : Bool) (v : Option ℤ)
    → InI64? v
    → parse_put_options (options ex px exat pxat nx xx none) (given "TS" print_int v)
      ≡ ok (options ex px exat pxat nx xx v)
unfolding parse_put_options
put_ts ex px exat pxat nx xx none h = refl
put_ts ex px exat pxat nx xx (some d) h = rw (parse_int-print_int d "DM.PUT" "TS" h)

pub parse_put_options-frames :
    (o : PutCommandOptions)
    → Below 64 o.ex
    → Below 64 o.px
    → Below 64 o.exat
    → Below 64 o.pxat
    → InI64? o.timestamp
    → parse_put_options no_put_options (put_options_to_frames o) ≡ ok o
unfolding put_options_to_frames
parse_put_options-frames o ex px exat pxat ts =
    put_ex o.ex _ ex
    ∙ put_px o.ex o.px _ px
    ∙ put_exat o.ex o.px o.exat _ exat
    ∙ put_pxat o.ex o.px o.exat o.pxat _ pxat
    ∙ put_nx o.ex o.px o.exat o.pxat o.nx _
    ∙ put_xx o.ex o.px o.exat o.pxat o.nx o.xx _
    ∙ put_ts o.ex o.px o.exat o.pxat o.nx o.xx o.timestamp ts

pub check_put_options-ok :
    (o : PutCommandOptions)
    → (o.nx && o.xx) ≡ false
    → expiry_count o ≤ 1
    → check_put_options o ≡ ok o
unfolding check_put_options
check_put_options-ok o exclusive single = rw exclusive (ground arith)

scan :
    (pattern : Option Bytes) (count : Option ℕ)
    → Below 32 count
    → parse_scan_options no_scan_options
        (given "MATCH" (λ (p : Bytes). p) pattern ++ given "COUNT" print_nat count)
      ≡ ok (record { match_pattern = pattern; count = count })
unfolding parse_scan_options
scan none none h = refl
scan (some p) none h = refl
scan none (some n) h = rw (parse_uint-print_nat 32 n "DM.SCAN" "COUNT" h)
scan (some p) (some n) h = rw (parse_uint-print_nat 32 n "DM.SCAN" "COUNT" h)

pub parse_scan_options-frames :
    (o : ScanCommandOptions)
    → Below 32 o.count
    → parse_scan_options no_scan_options (scan_options_to_frames o) ≡ ok o
unfolding scan_options_to_frames
parse_scan_options-frames o h = scan o.match_pattern o.count h

digits-hello_keyword : (s : Bytes) → starts_with_digit s ≡ true → hello_keyword s ≡ no_hello_keyword
unfolding hello_keyword starts_with_digit
digits-hello_keyword [] h = cc
digits-hello_keyword (c ∷ cs) h =
    let not_auth : (to_lower c == b'a') ≡ false = ground arith in
    let not_setname : (to_lower c == b's') ≡ false = ground arith in rw (not_auth, not_setname)

abbrev hello_args : Option ℕ → Option (Option Bytes × Bytes) → Option Bytes → HelloArgs
hello_args pv login name = record { protocol_version = pv; auth = login; client_name = name }

hello_clauses :
    (pv : Option ℕ) (login : Option (Option Bytes × Bytes)) (name : Option Bytes)
    → HasUser login
    → parse_hello_clauses
        (hello_args pv none none)
        (auth_parts login ++ given "SETNAME" (λ (n : Bytes). n) name)
      ≡ ok (hello_args pv login name)
unfolding parse_hello_clauses hello_keyword
hello_clauses pv none none h = refl
hello_clauses pv none (some n) h = refl
hello_clauses pv (some (none, p)) name h = absurd h
hello_clauses pv (some (some u, p)) none h = refl
hello_clauses pv (some (some u, p)) (some n) h = refl

hello_versioned :
    (n : ℕ) (login : Option (Option Bytes × Bytes)) (name : Option Bytes)
    → n < 2 ^ 32
    → HasUser login
    → parse_hello_args no_hello_args
        (print_nat n ∷ auth_parts login ++ given "SETNAME" (λ (s : Bytes). s) name)
      ≡ ok (hello_args (some n) login name)
unfolding parse_hello_args
hello_versioned n login name b h =
    rw
      (
        digits-hello_keyword (print_nat n) (print_nat-starts_with_digit n),
        parse_uint-print_nat 32 n "HELLO" "protover" b,
      )
      (hello_clauses (some n) login name h)

hello_all :
    (pv : Option ℕ) (login : Option (Option Bytes × Bytes)) (name : Option Bytes)
    → Below 32 pv
    → HasUser login
    → parse_hello_args no_hello_args
        (version_parts pv ++ (auth_parts login ++ given "SETNAME" (λ (n : Bytes). n) name))
      ≡ ok (hello_args pv login name)
unfolding parse_hello_args parse_hello_clauses hello_keyword
hello_all (some n) login name b h = hello_versioned n login name b h
hello_all none none none b h = refl
hello_all none none (some n) b h = refl
hello_all none (some (none, p)) name b h = absurd h
hello_all none (some (some u, p)) none b h = refl
hello_all none (some (some u, p)) (some n) b h = refl

pub parse_hello_args-frames :
    (h : HelloArgs)
    → Below 32 h.protocol_version
    → HasUser h.auth
    → parse_hello_args no_hello_args (hello_to_frame_parts h) ≡ ok h
unfolding hello_to_frame_parts
parse_hello_args-frames h b u = hello_all h.protocol_version h.auth h.client_name b u
