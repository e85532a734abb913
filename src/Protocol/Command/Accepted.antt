-- ===== src/Protocol/Command/Accepted.antt =====
-- Every command that the parser answers can be sent again, and is then the same command.
use Prim.Native.String.{String}
use kamino.Prelude.{
  ℕ, ◌^◌, ◌<◌, ◌≡◌, Bool, true, false, List, [], ◌∷◌, Option, none, some, arith, if◌then◌else◌,
}
use kamino.Prelude.Int.{ℤ, InI64}
use kamino.Protocol.Frame.{Frame, array}
use kamino.Protocol.Error.{
  Result, ok, err, ◌>>=◌, CommandError, ArgumentFault, invalid_argument, unknown_partition_type,
  unknown_subcommand, not_a_float, not_utf8,
}
use kamino.Protocol.Text.{codes, eq_ignore_ascii_case}
use kamino.Protocol.Codec.{FloatText, nan_bits}
use kamino.Protocol.Codec.Encode.{is_nan}
use kamino.Protocol.Codec.Grammar.{IsFloatText}
use kamino.Protocol.Command.{
  Bytes, Command, from_u8, no_put_options, no_scan_options, no_hello_args, quit, stats,
  cluster_members, cluster_routing_table, cluster_ready, pubsub_numsub,
}
use kamino.Protocol.Command.Arguments.{
  Parsed, parse_text, parse_uint, parse_int, parse_float, or_fault, exactly_0, exactly_1, exactly_2,
  exactly_3, exactly_4, at_least_1, at_least_2, at_least_3,
}
use kamino.Protocol.Command.Options.{
  parse_put_options, check_put_options, parse_scan_options, parse_hello_args,
}
use kamino.Protocol.Command.Parse.{
  Verb, arguments_of, verb_of, verb_upper, parse_verb, parse_arguments, parse,
  parse_pubsub_channels, parse_pubsub_numpat, parse_ping, parse_auth, parse_hello, parse_dm_put,
  parse_dm_incrbyfloat, parse_dm_scan, parse_internal_move_fragment, parse_pubsub,
}
use kamino.Protocol.Command.Print.{to_frame, IsSendable, ParsesSpecial}
use kamino.Protocol.Command.RoundTrip.{parse-to_frame}
use kamino.Protocol.Command.Checked.{
  Gives, Holds, bind-Gives, parse_text-Gives, parse_uint-Gives, parse_int-Gives, InRange,
  IsCompatible, CountInRange, IsLogin, parse_put_options-Gives, check_put_options-Gives,
  parse_scan_options-Gives, parse_hello_args-Gives,
}

-- What `f64`'s `parse` answers is a bit pattern, and a NaN is the one that the model has.
abbrev pub ReadsBits : FloatText → Type 0
ReadsBits f64 =
    (s : Bytes) → Holds (λ d. (d < 2 ^ 64) × (is_nan d ≡ true → d ≡ nan_bits)) (f64.parse s)

abbrev Checked : Parsed → Type 0
Checked r = Gives IsSendable r

exactly_1-Gives :
    (command : String) (make : Bytes → Parsed) (args : List Bytes)
    → ((a : Bytes) → Checked (make a))
    → Checked (exactly_1 command make args)
exactly_1-Gives command make (a ∷ []) each = each a
exactly_1-Gives command make _ each = tt

exactly_2-Gives :
    (command : String) (make : Bytes → Bytes → Parsed) (args : List Bytes)
    → ((a b : Bytes) → Checked (make a b))
    → Checked (exactly_2 command make args)
exactly_2-Gives command make (a ∷ b ∷ []) each = each a b
exactly_2-Gives command make _ each = tt

exactly_3-Gives :
    (command : String) (make : Bytes → Bytes → Bytes → Parsed) (args : List Bytes)
    → ((a b c : Bytes) → Checked (make a b c))
    → Checked (exactly_3 command make args)
exactly_3-Gives command make (a ∷ b ∷ c ∷ []) each = each a b c
exactly_3-Gives command make _ each = tt

exactly_4-Gives :
    (command : String) (make : Bytes → Bytes → Bytes → Bytes → Parsed) (args : List Bytes)
    → ((a b c d : Bytes) → Checked (make a b c d))
    → Checked (exactly_4 command make args)
exactly_4-Gives command make (a ∷ b ∷ c ∷ d ∷ []) each = each a b c d
exactly_4-Gives command make _ each = tt

at_least_1-Gives :
    (command : String) (make : Bytes → List Bytes → Parsed) (args : List Bytes)
    → ((a : Bytes) (rest : List Bytes) → Checked (make a rest))
    → Checked (at_least_1 command make args)
at_least_1-Gives command make (a ∷ rest) each = each a rest
at_least_1-Gives command make _ each = tt

at_least_2-Gives :
    (command : String) (make : Bytes → Bytes → List Bytes → Parsed) (args : List Bytes)
    → ((a b : Bytes) (rest : List Bytes) → Checked (make a b rest))
    → Checked (at_least_2 command make args)
at_least_2-Gives command make (a ∷ b ∷ rest) each = each a b rest
at_least_2-Gives command make _ each = tt

at_least_3-Gives :
    (command : String) (make : Bytes → Bytes → Bytes → List Bytes → Parsed) (args : List Bytes)
    → ((a b c : Bytes) (rest : List Bytes) → Checked (make a b c rest))
    → Checked (at_least_3 command make args)
at_least_3-Gives command make (a ∷ b ∷ c ∷ rest) each = each a b c rest
at_least_3-Gives command make _ each = tt

exactly_0-Gives :
    (command : String) (c : Command) (args : List Bytes)
    → IsSendable c
    → Checked (exactly_0 command c args)
exactly_0-Gives command c [] s = s
exactly_0-Gives command c (x ∷ xs) s = tt

uint-Gives :
    (bits : ℕ) (s : Bytes) (command field : String) (k : ℕ → Parsed)
    → ((n : ℕ) → n < 2 ^ bits → Checked (k n))
    → Checked (parse_uint bits s command field >>= k)
uint-Gives bits s command field k each =
    bind-Gives (λ n. n < 2 ^ bits) IsSendable (parse_uint bits s command field) k
      (parse_uint-Gives bits s command field) each

int-Gives :
    (s : Bytes) (command field : String) (k : ℤ → Parsed)
    → ((d : ℤ) → InI64 d → Checked (k d))
    → Checked (parse_int s command field >>= k)
int-Gives s command field k each =
    bind-Gives InI64 IsSendable (parse_int s command field) k (parse_int-Gives s command field) each

any_fault-Gives {ℓ} :
    {A : Type ℓ} (command : String) (fault : ArgumentFault) (o : Option A) (k : A → Parsed)
    → ((a : A) → Checked (k a))
    → Checked (or_fault command fault o >>= k)
any_fault-Gives command fault none k each = tt
any_fault-Gives command fault (some a) k each = each a

parse_ping-Gives : (args : List Bytes) → Checked (parse_ping args)
unfolding parse_ping
parse_ping-Gives [] = tt
parse_ping-Gives (m ∷ []) = tt
parse_ping-Gives (m ∷ x ∷ xs) = tt

parse_auth-Gives : (args : List Bytes) → Checked (parse_auth args)
unfolding parse_auth
parse_auth-Gives [] = tt
parse_auth-Gives (p ∷ []) = tt
parse_auth-Gives (u ∷ p ∷ []) = tt
parse_auth-Gives (u ∷ p ∷ x ∷ xs) = tt

parse_pubsub_channels-Gives : (args : List Bytes) → Checked (parse_pubsub_channels args)
unfolding parse_pubsub_channels
parse_pubsub_channels-Gives [] = tt
parse_pubsub_channels-Gives (p ∷ []) = tt
parse_pubsub_channels-Gives (p ∷ q ∷ rest) = tt

parse_pubsub_numpat-Gives : (args : List Bytes) → Checked (parse_pubsub_numpat args)
unfolding parse_pubsub_numpat
parse_pubsub_numpat-Gives [] = tt
parse_pubsub_numpat-Gives (p ∷ rest) = tt

choose-Gives :
    (b c d : Bool) (r s t u : Parsed)
    → Checked r
    → Checked s
    → Checked t
    → Checked u
    → Checked (if b then r else if c then s else if d then t else u)
choose-Gives true c d r s t u hr hs ht hu = hr
choose-Gives false true d r s t u hr hs ht hu = hs
choose-Gives false false true r s t u hr hs ht hu = ht
choose-Gives false false false r s t u hr hs ht hu = hu

parse_pubsub-Gives : (args : List Bytes) → Checked (parse_pubsub args)
unfolding parse_pubsub
parse_pubsub-Gives [] = tt
parse_pubsub-Gives (sub ∷ rest) =
    choose-Gives (eq_ignore_ascii_case sub (codes "CHANNELS"))
      (eq_ignore_ascii_case sub (codes "NUMSUB")) (eq_ignore_ascii_case sub (codes "NUMPAT"))
      (parse_pubsub_channels rest) (ok (pubsub_numsub rest)) (parse_pubsub_numpat rest)
      (err (invalid_argument "PUBSUB" (unknown_subcommand sub))) (parse_pubsub_channels-Gives rest)
      tt (parse_pubsub_numpat-Gives rest) tt

parse_dm_put-Gives : (args : List Bytes) → Checked (parse_dm_put args)
unfolding parse_dm_put
parse_dm_put-Gives args = at_least_3-Gives "DM.PUT" _ args λ dmap key value rest.
    bind-Gives InRange IsSendable (parse_put_options no_put_options rest) _
      (parse_put_options-Gives no_put_options rest (tt, tt, tt, tt, tt))
      λ o h.
        bind-Gives (λ o'. InRange o' × IsCompatible o') IsSendable (check_put_options o) _
          (check_put_options-Gives o h)
          λ o' h'. (h'.0.0, h'.0.1, h'.0.2, h'.0.3, h'.0.4, h'.1.0, h'.1.1)

parse_dm_scan-Gives : (args : List Bytes) → Checked (parse_dm_scan args)
unfolding parse_dm_scan
parse_dm_scan-Gives args = at_least_3-Gives "DM.SCAN" _ args λ part dmap cursor rest.
    uint-Gives 32 part "DM.SCAN" "partID" _ λ n n32.
      uint-Gives 64 cursor "DM.SCAN" "cursor" _ λ m m64.
        bind-Gives CountInRange IsSendable (parse_scan_options no_scan_options rest) _
          (parse_scan_options-Gives no_scan_options rest tt) λ o h. (n32, m64, h)

parse_internal_move_fragment-Gives :
    (args : List Bytes) → Checked (parse_internal_move_fragment args)
unfolding parse_internal_move_fragment
parse_internal_move_fragment-Gives args =
    exactly_4-Gives "INTERNAL.NODE.MOVEFRAGMENT" _ args λ part kind dmap payload.
      uint-Gives 32 part "INTERNAL.NODE.MOVEFRAGMENT" "partition_id" _ λ n n32.
        uint-Gives 8 kind "INTERNAL.NODE.MOVEFRAGMENT" "partition_type" _ λ byte b8.
          any_fault-Gives "INTERNAL.NODE.MOVEFRAGMENT" (unknown_partition_type byte) (from_u8 byte)
            _ λ k. n32

parse_hello-Gives : (args : List Bytes) → Checked (parse_hello args)
unfolding parse_hello
parse_hello-Gives args =
    bind-Gives IsLogin IsSendable (parse_hello_args no_hello_args args) _
      (parse_hello_args-Gives no_hello_args args (tt, tt)) λ h l. l

parse_dm_incrbyfloat-Gives :
    (f64 : FloatText) (args : List Bytes) → ReadsBits f64 → Checked (parse_dm_incrbyfloat f64 args)
unfolding parse_dm_incrbyfloat parse_float
parse_dm_incrbyfloat-Gives f64 args bits = exactly_3-Gives "DM.INCRBYFLOAT" _ args λ dmap key delta.
    bind-Gives (λ d. (d < 2 ^ 64) × (is_nan d ≡ true → d ≡ nan_bits)) IsSendable
      (parse_text f64.parse "DM.INCRBYFLOAT" (not_a_float "delta") (not_utf8 "delta") delta) _
      (parse_text-Gives _ f64.parse "DM.INCRBYFLOAT" (not_a_float "delta") (not_utf8 "delta") delta
        (bits delta))
      λ d h. h

parse_verb-Gives :
    (f64 : FloatText) (verb : Bytes) (v : Verb) (args : List Bytes)
    → ReadsBits f64
    → Checked (parse_verb f64 verb v args)
unfolding parse_verb
parse_verb-Gives f64 verb Verb.ping_verb args bits = parse_ping-Gives args
parse_verb-Gives f64 verb Verb.auth_verb args bits = parse_auth-Gives args
parse_verb-Gives f64 verb Verb.hello_verb args bits = parse_hello-Gives args
parse_verb-Gives f64 verb Verb.quit_verb args bits = exactly_0-Gives "QUIT" quit args tt
parse_verb-Gives f64 verb Verb.stats_verb args bits = exactly_0-Gives "STATS" stats args tt
parse_verb-Gives f64 verb Verb.cluster_members_verb args bits =
    exactly_0-Gives "CLUSTER.MEMBERS" cluster_members args tt
parse_verb-Gives f64 verb Verb.cluster_routing_table_verb args bits =
    exactly_0-Gives "CLUSTER.ROUTINGTABLE" cluster_routing_table args tt
parse_verb-Gives f64 verb Verb.cluster_ready_verb args bits =
    exactly_0-Gives "CLUSTER.READY" cluster_ready args tt
parse_verb-Gives f64 verb Verb.dm_put_verb args bits = parse_dm_put-Gives args
parse_verb-Gives f64 verb Verb.dm_get_verb args bits =
    exactly_2-Gives "DM.GET" _ args λ dmap key. tt
parse_verb-Gives f64 verb Verb.dm_del_verb args bits =
    at_least_2-Gives "DM.DEL" _ args λ dmap key rest. omega arith
parse_verb-Gives f64 verb Verb.dm_expire_verb args bits =
    exactly_3-Gives "DM.EXPIRE" _ args
      λ dmap key text. uint-Gives 64 text "DM.EXPIRE" "seconds" _ λ n h. h
parse_verb-Gives f64 verb Verb.dm_pexpire_verb args bits =
    exactly_3-Gives "DM.PEXPIRE" _ args
      λ dmap key text. uint-Gives 64 text "DM.PEXPIRE" "milliseconds" _ λ n h. h
parse_verb-Gives f64 verb Verb.dm_incr_verb args bits =
    exactly_3-Gives "DM.INCR" _ args λ dmap key text. int-Gives text "DM.INCR" "delta" _ λ n h. h
parse_verb-Gives f64 verb Verb.dm_decr_verb args bits =
    exactly_3-Gives "DM.DECR" _ args λ dmap key text. int-Gives text "DM.DECR" "delta" _ λ n h. h
parse_verb-Gives f64 verb Verb.dm_getput_verb args bits =
    exactly_3-Gives "DM.GETPUT" _ args λ dmap key value. tt
parse_verb-Gives f64 verb Verb.dm_incrbyfloat_verb args bits =
    parse_dm_incrbyfloat-Gives f64 args bits
parse_verb-Gives f64 verb Verb.dm_destroy_verb args bits =
    exactly_1-Gives "DM.DESTROY" _ args λ dmap. tt
parse_verb-Gives f64 verb Verb.dm_scan_verb args bits = parse_dm_scan-Gives args
parse_verb-Gives f64 verb Verb.update_routing_verb args bits =
    exactly_1-Gives "INTERNAL.NODE.UPDATEROUTING" _ args λ table. tt
parse_verb-Gives f64 verb Verb.length_of_part_verb args bits =
    exactly_1-Gives "INTERNAL.NODE.LENGTHOFPART" _ args
      λ part. uint-Gives 32 part "INTERNAL.NODE.LENGTHOFPART" "partition_id" _ λ n h. h
parse_verb-Gives f64 verb Verb.get_with_ts_verb args bits =
    exactly_2-Gives "INTERNAL.NODE.GETWITHTS" _ args λ dmap key. tt
parse_verb-Gives f64 verb Verb.move_fragment_verb args bits =
    parse_internal_move_fragment-Gives args
parse_verb-Gives f64 verb Verb.internal_publish_verb args bits =
    exactly_2-Gives "INTERNAL.NODE.PUBLISH" _ args λ channel message. tt
parse_verb-Gives f64 verb Verb.subscribe_verb args bits =
    at_least_1-Gives "SUBSCRIBE" _ args λ channel rest. omega arith
parse_verb-Gives f64 verb Verb.psubscribe_verb args bits =
    at_least_1-Gives "PSUBSCRIBE" _ args λ pattern rest. omega arith
parse_verb-Gives f64 verb Verb.unsubscribe_verb args bits = tt
parse_verb-Gives f64 verb Verb.punsubscribe_verb args bits = tt
parse_verb-Gives f64 verb Verb.publish_verb args bits =
    exactly_2-Gives "PUBLISH" _ args λ channel message. tt
parse_verb-Gives f64 verb Verb.pubsub_verb args bits = parse_pubsub-Gives args
parse_verb-Gives f64 verb Verb.no_verb args bits = tt

parse_arguments-Gives :
    (f64 : FloatText) (args : List Bytes) → ReadsBits f64 → Checked (parse_arguments f64 args)
unfolding parse_arguments
parse_arguments-Gives f64 [] bits = tt
parse_arguments-Gives f64 (verb ∷ args) bits =
    parse_verb-Gives f64 verb (verb_of (verb_upper verb)) args bits

any-Gives {ℓ} : {A : Type ℓ} (r : Result CommandError A) → Gives (λ _. Unit {0}) r
any-Gives (ok a) = tt
any-Gives (err e) = tt

parse-Gives : (f64 : FloatText) (f : Frame) → ReadsBits f64 → Checked (parse f64 f)
unfolding parse
parse-Gives f64 (array fs) bits =
    bind-Gives (λ _. Unit {0}) IsSendable (arguments_of fs) _ (any-Gives (arguments_of fs))
      λ args _. parse_arguments-Gives f64 args bits
parse-Gives f64 _ bits = tt

-- Every command that the parser answers has integers in the range of their types, no conflicting
-- options, a user in a login, and at least one key or channel where it needs one, where the `f64`
-- parser answers bit patterns with one NaN.
pub parse-IsSendable :
    (f64 : FloatText) (f : Frame) (c : Command) → ReadsBits f64 → parse f64 f ≡ ok c → IsSendable c
parse-IsSendable f64 f c bits e = rw e at (parse-Gives f64 f bits)

-- A command that was parsed from any frame and is sent on by `to_frame` is parsed as the same
-- command, where the text codec of doubles reads back what it writes, reads the three special
-- texts, and answers bit patterns with one NaN.
pub parse-to_frame-parse :
    (f64 : FloatText) (f : Frame) (c : Command)
    → IsFloatText f64
    → ParsesSpecial f64
    → ReadsBits f64
    → parse f64 f ≡ ok c
    → parse f64 (to_frame f64 c) ≡ ok c
parse-to_frame-parse f64 f c laws specials bits e =
    parse-to_frame f64 c laws specials (parse-IsSendable f64 f c bits e)
