-- ===== src/Protocol/Command/Parse.antt =====
-- crates/kamino-protocol/src/command.rs: `Command::parse`.
use kamino.Prelude.{ℕ, List, [], ◌∷◌, none, some, map, take, length, if◌then◌else◌}
use kamino.Prelude.Int.{ℤ}
use kamino.Protocol.Frame.{Frame, Frames, bulk, array, no_frames, more_frames}
use kamino.Protocol.Error.{
  Result, ok, err, ◌>>=◌, CommandError, not_an_array, unknown_command, wrong_arity,
  invalid_argument, exactly, range, null_bulk, unknown_subcommand, unknown_partition_type,
}
use kamino.Protocol.Text.{codes, same_text, to_upper, eq_ignore_ascii_case}
use kamino.Protocol.Codec.{FloatText}
use kamino.Protocol.Command.{
  Bytes, Command, PartitionType, from_u8, PutCommandOptions, ScanCommandOptions, HelloArgs,
  no_put_options, no_scan_options, no_hello_args, ping, auth, hello, quit, stats, dm_put, dm_get,
  dm_del, dm_expire, dm_pexpire, dm_incr, dm_decr, dm_get_put, dm_incr_by_float, dm_destroy,
  dm_scan, cluster_members, cluster_routing_table, cluster_ready, internal_node_update_routing,
  internal_node_length_of_part, internal_node_get_with_ts, internal_node_move_fragment,
  internal_node_publish, subscribe, psubscribe, unsubscribe, punsubscribe, publish, pubsub_channels,
  pubsub_numsub, pubsub_numpat,
}
use kamino.Protocol.Command.Arguments.{
  Parsed, exactly_0, exactly_1, exactly_2, exactly_3, exactly_4, at_least_1, at_least_2, at_least_3,
  or_fault, parse_uint, parse_int, parse_float,
}
use kamino.Protocol.Command.Options.{
  parse_put_options, check_put_options, parse_scan_options, parse_hello_args,
}

-- The bytes of the elements, which all have to be bulk strings.
unfoldable pub arguments_of : Frames → Result CommandError (List Bytes)
arguments_of no_frames = ok []
arguments_of (more_frames (bulk (some b)) fs) =
    arguments_of fs >>= λ (args : List Bytes). ok (b ∷ args)
arguments_of (more_frames (bulk none) fs) = err (invalid_argument "<unknown>" null_bulk)
arguments_of (more_frames _ fs) = err not_an_array

-- What the verb is matched with: its first 32 bytes in upper case.
unfoldable pub verb_upper : Bytes → Bytes
verb_upper verb = map to_upper (take 32 verb)

pub data Verb : Type 0 where
  ping_verb auth_verb hello_verb quit_verb stats_verb : Verb
  dm_put_verb dm_get_verb dm_del_verb dm_expire_verb dm_pexpire_verb : Verb
  dm_incr_verb dm_decr_verb dm_getput_verb dm_incrbyfloat_verb dm_destroy_verb : Verb
  dm_scan_verb cluster_members_verb cluster_routing_table_verb cluster_ready_verb
        update_routing_verb :
      Verb
  length_of_part_verb get_with_ts_verb move_fragment_verb internal_publish_verb subscribe_verb :
      Verb
  psubscribe_verb unsubscribe_verb punsubscribe_verb publish_verb pubsub_verb : Verb
  no_verb : Verb

unfoldable pub verb_of : Bytes → Verb
unfolding same_text
verb_of verb =
    if same_text verb (codes "PING")
    then ping_verb
    else if same_text verb (codes "AUTH")
    then auth_verb
    else if same_text verb (codes "HELLO")
    then hello_verb
    else if same_text verb (codes "QUIT")
    then quit_verb
    else if same_text verb (codes "STATS")
    then stats_verb
    else if same_text verb (codes "DM.PUT")
    then dm_put_verb
    else if same_text verb (codes "DM.GET")
    then dm_get_verb
    else if same_text verb (codes "DM.DEL")
    then dm_del_verb
    else if same_text verb (codes "DM.EXPIRE")
    then dm_expire_verb
    else if same_text verb (codes "DM.PEXPIRE")
    then dm_pexpire_verb
    else if same_text verb (codes "DM.INCR")
    then dm_incr_verb
    else if same_text verb (codes "DM.DECR")
    then dm_decr_verb
    else if same_text verb (codes "DM.GETPUT")
    then dm_getput_verb
    else if same_text verb (codes "DM.INCRBYFLOAT")
    then dm_incrbyfloat_verb
    else if same_text verb (codes "DM.DESTROY")
    then dm_destroy_verb
    else if same_text verb (codes "DM.SCAN")
    then dm_scan_verb
    else if same_text verb (codes "CLUSTER.MEMBERS")
    then cluster_members_verb
    else if same_text verb (codes "CLUSTER.ROUTINGTABLE")
    then cluster_routing_table_verb
    else if same_text verb (codes "CLUSTER.READY")
    then cluster_ready_verb
    else if same_text verb (codes "INTERNAL.NODE.UPDATEROUTING")
    then update_routing_verb
    else if same_text verb (codes "INTERNAL.NODE.LENGTHOFPART")
    then length_of_part_verb
    else if same_text verb (codes "INTERNAL.NODE.GETWITHTS")
    then get_with_ts_verb
    else if same_text verb (codes "INTERNAL.NODE.MOVEFRAGMENT")
    then move_fragment_verb
    else if same_text verb (codes "INTERNAL.NODE.PUBLISH")
    then internal_publish_verb
    else if same_text verb (codes "SUBSCRIBE")
    then subscribe_verb
    else if same_text verb (codes "PSUBSCRIBE")
    then psubscribe_verb
    else if same_text verb (codes "UNSUBSCRIBE")
    then unsubscribe_verb
    else if same_text verb (codes "PUNSUBSCRIBE")
    then punsubscribe_verb
    else if same_text verb (codes "PUBLISH")
    then publish_verb
    else if same_text verb (codes "PUBSUB")
    then pubsub_verb
    else no_verb

unfoldable pub parse_ping : List Bytes → Parsed
parse_ping [] = ok (ping none)
parse_ping (message ∷ []) = ok (ping (some message))
parse_ping args = err (wrong_arity "PING" (range 0 1) (length args))

unfoldable pub parse_auth : List Bytes → Parsed
parse_auth (password ∷ []) = ok (auth none password)
parse_auth (username ∷ password ∷ []) = ok (auth (some username) password)
parse_auth args = err (wrong_arity "AUTH" (range 1 2) (length args))

unfoldable pub parse_hello : List Bytes → Parsed
unfolding parse_hello_args
parse_hello args = parse_hello_args no_hello_args args >>= λ (h : HelloArgs). ok (hello h)

unfoldable pub parse_quit : List Bytes → Parsed
parse_quit = exactly_0 "QUIT" quit

unfoldable pub parse_stats : List Bytes → Parsed
parse_stats = exactly_0 "STATS" stats

unfoldable pub parse_cluster_members : List Bytes → Parsed
parse_cluster_members = exactly_0 "CLUSTER.MEMBERS" cluster_members

unfoldable pub parse_cluster_routing_table : List Bytes → Parsed
parse_cluster_routing_table = exactly_0 "CLUSTER.ROUTINGTABLE" cluster_routing_table

unfoldable pub parse_cluster_ready : List Bytes → Parsed
parse_cluster_ready = exactly_0 "CLUSTER.READY" cluster_ready

unfoldable pub parse_unsubscribe : List Bytes → Command
parse_unsubscribe args = unsubscribe args

unfoldable pub parse_punsubscribe : List Bytes → Command
parse_punsubscribe args = punsubscribe args

unfoldable pub parse_dm_put : List Bytes → Parsed
unfolding parse_put_options check_put_options
parse_dm_put = at_least_3 "DM.PUT" λ dmap key value rest.
    parse_put_options no_put_options rest >>= λ (o : PutCommandOptions).
    check_put_options o >>= λ (o' : PutCommandOptions). ok (dm_put dmap key value o')

unfoldable pub parse_dm_get : List Bytes → Parsed
parse_dm_get = exactly_2 "DM.GET" λ dmap key. ok (dm_get dmap key)

unfoldable pub parse_dm_del : List Bytes → Parsed
parse_dm_del = at_least_2 "DM.DEL" λ dmap key rest. ok (dm_del dmap (key ∷ rest))

unfoldable pub parse_dm_expire : List Bytes → Parsed
parse_dm_expire = exactly_3 "DM.EXPIRE" λ dmap key seconds.
    parse_uint 64 seconds "DM.EXPIRE" "seconds" >>= λ (n : ℕ). ok (dm_expire dmap key n)

unfoldable pub parse_dm_pexpire : List Bytes → Parsed
parse_dm_pexpire = exactly_3 "DM.PEXPIRE" λ dmap key milliseconds.
    parse_uint 64 milliseconds "DM.PEXPIRE" "milliseconds" >>= λ (n : ℕ). ok (dm_pexpire dmap key n)

unfoldable pub parse_dm_incr : List Bytes → Parsed
parse_dm_incr =
    exactly_3 "DM.INCR"
      λ dmap key delta. parse_int delta "DM.INCR" "delta" >>= λ (d : ℤ). ok (dm_incr dmap key d)

unfoldable pub parse_dm_decr : List Bytes → Parsed
parse_dm_decr =
    exactly_3 "DM.DECR"
      λ dmap key delta. parse_int delta "DM.DECR" "delta" >>= λ (d : ℤ). ok (dm_decr dmap key d)

unfoldable pub parse_dm_getput : List Bytes → Parsed
parse_dm_getput = exactly_3 "DM.GETPUT" λ dmap key value. ok (dm_get_put dmap key value)

unfoldable pub parse_dm_incrbyfloat : FloatText → List Bytes → Parsed
parse_dm_incrbyfloat f64 = exactly_3 "DM.INCRBYFLOAT" λ dmap key delta.
    parse_float f64 delta "DM.INCRBYFLOAT" "delta" >>= λ (d : ℕ). ok (dm_incr_by_float dmap key d)

unfoldable pub parse_dm_destroy : List Bytes → Parsed
parse_dm_destroy = exactly_1 "DM.DESTROY" λ dmap. ok (dm_destroy dmap)

unfoldable pub parse_dm_scan : List Bytes → Parsed
unfolding parse_scan_options
parse_dm_scan = at_least_3 "DM.SCAN" λ part dmap cursor rest.
    parse_uint 32 part "DM.SCAN" "partID" >>= λ (partition_id : ℕ).
    parse_uint 64 cursor "DM.SCAN" "cursor" >>= λ (from : ℕ).
    parse_scan_options no_scan_options rest >>= λ (o : ScanCommandOptions).
    ok (dm_scan partition_id dmap from o)

unfoldable pub parse_internal_update_routing : List Bytes → Parsed
parse_internal_update_routing =
    exactly_1 "INTERNAL.NODE.UPDATEROUTING" λ table. ok (internal_node_update_routing table)

unfoldable pub parse_internal_length_of_part : List Bytes → Parsed
parse_internal_length_of_part = exactly_1 "INTERNAL.NODE.LENGTHOFPART" λ part.
    parse_uint 32 part "INTERNAL.NODE.LENGTHOFPART" "partition_id" >>= λ (n : ℕ).
    ok (internal_node_length_of_part n)

unfoldable pub parse_internal_get_with_ts : List Bytes → Parsed
parse_internal_get_with_ts =
    exactly_2 "INTERNAL.NODE.GETWITHTS" λ dmap key. ok (internal_node_get_with_ts dmap key)

unfoldable pub parse_internal_move_fragment : List Bytes → Parsed
unfolding from_u8
parse_internal_move_fragment = exactly_4 "INTERNAL.NODE.MOVEFRAGMENT" λ part type dmap payload.
    parse_uint 32 part "INTERNAL.NODE.MOVEFRAGMENT" "partition_id" >>= λ (partition_id : ℕ).
    parse_uint 8 type "INTERNAL.NODE.MOVEFRAGMENT" "partition_type" >>= λ (byte : ℕ).
    or_fault "INTERNAL.NODE.MOVEFRAGMENT" (unknown_partition_type byte) (from_u8 byte)
    >>= λ (partition_type : PartitionType).
        ok (internal_node_move_fragment partition_id partition_type dmap payload)

unfoldable pub parse_internal_publish : List Bytes → Parsed
parse_internal_publish =
    exactly_2 "INTERNAL.NODE.PUBLISH" λ channel message. ok (internal_node_publish channel message)

unfoldable pub parse_subscribe : List Bytes → Parsed
parse_subscribe = at_least_1 "SUBSCRIBE" λ channel rest. ok (subscribe (channel ∷ rest))

unfoldable pub parse_psubscribe : List Bytes → Parsed
parse_psubscribe = at_least_1 "PSUBSCRIBE" λ pattern rest. ok (psubscribe (pattern ∷ rest))

unfoldable pub parse_publish : List Bytes → Parsed
parse_publish = exactly_2 "PUBLISH" λ channel message. ok (publish channel message)

-- More than one pattern is reported as two.
unfoldable pub parse_pubsub_channels : List Bytes → Parsed
parse_pubsub_channels [] = ok (pubsub_channels none)
parse_pubsub_channels (pattern ∷ []) = ok (pubsub_channels (some pattern))
parse_pubsub_channels (_ ∷ _ ∷ _) = err (wrong_arity "PUBSUB CHANNELS" (range 0 1) 2)

unfoldable pub parse_pubsub_numpat : List Bytes → Parsed
parse_pubsub_numpat [] = ok pubsub_numpat
parse_pubsub_numpat (_ ∷ _) = err (wrong_arity "PUBSUB NUMPAT" (exactly 0) 1)

unfoldable pub parse_pubsub : List Bytes → Parsed
unfolding parse_pubsub_channels parse_pubsub_numpat eq_ignore_ascii_case
parse_pubsub = at_least_1 "PUBSUB" λ sub rest.
    if eq_ignore_ascii_case sub (codes "CHANNELS")
    then parse_pubsub_channels rest
    else if eq_ignore_ascii_case sub (codes "NUMSUB")
    then ok (pubsub_numsub rest)
    else if eq_ignore_ascii_case sub (codes "NUMPAT")
    then parse_pubsub_numpat rest
    else err (invalid_argument "PUBSUB" (unknown_subcommand sub))

-- The `match` on the verb. `verb` is as the client wrote it, without the lossy decoding of the report.
unfoldable pub parse_verb : FloatText → Bytes → Verb → List Bytes → Parsed
unfolding parse_ping parse_auth parse_hello parse_dm_put parse_dm_get parse_dm_del parse_dm_expire
    parse_dm_pexpire parse_dm_incr parse_dm_decr parse_dm_getput parse_dm_incrbyfloat
    parse_dm_destroy parse_dm_scan parse_internal_update_routing parse_internal_length_of_part
    parse_internal_get_with_ts parse_internal_move_fragment parse_internal_publish parse_subscribe
    parse_psubscribe parse_publish parse_pubsub parse_quit parse_stats parse_cluster_members
    parse_cluster_routing_table parse_cluster_ready parse_unsubscribe parse_punsubscribe
parse_verb f64 verb ping_verb args = parse_ping args
parse_verb f64 verb auth_verb args = parse_auth args
parse_verb f64 verb hello_verb args = parse_hello args
parse_verb f64 verb quit_verb args = parse_quit args
parse_verb f64 verb stats_verb args = parse_stats args
parse_verb f64 verb dm_put_verb args = parse_dm_put args
parse_verb f64 verb dm_get_verb args = parse_dm_get args
parse_verb f64 verb dm_del_verb args = parse_dm_del args
parse_verb f64 verb dm_expire_verb args = parse_dm_expire args
parse_verb f64 verb dm_pexpire_verb args = parse_dm_pexpire args
parse_verb f64 verb dm_incr_verb args = parse_dm_incr args
parse_verb f64 verb dm_decr_verb args = parse_dm_decr args
parse_verb f64 verb dm_getput_verb args = parse_dm_getput args
parse_verb f64 verb dm_incrbyfloat_verb args = parse_dm_incrbyfloat f64 args
parse_verb f64 verb dm_destroy_verb args = parse_dm_destroy args
parse_verb f64 verb dm_scan_verb args = parse_dm_scan args
parse_verb f64 verb cluster_members_verb args = parse_cluster_members args
parse_verb f64 verb cluster_routing_table_verb args = parse_cluster_routing_table args
parse_verb f64 verb cluster_ready_verb args = parse_cluster_ready args
parse_verb f64 verb update_routing_verb args = parse_internal_update_routing args
parse_verb f64 verb length_of_part_verb args = parse_internal_length_of_part args
parse_verb f64 verb get_with_ts_verb args = parse_internal_get_with_ts args
parse_verb f64 verb move_fragment_verb args = parse_internal_move_fragment args
parse_verb f64 verb internal_publish_verb args = parse_internal_publish args
parse_verb f64 verb subscribe_verb args = parse_subscribe args
parse_verb f64 verb psubscribe_verb args = parse_psubscribe args
parse_verb f64 verb unsubscribe_verb args = ok (parse_unsubscribe args)
parse_verb f64 verb punsubscribe_verb args = ok (parse_punsubscribe args)
parse_verb f64 verb publish_verb args = parse_publish args
parse_verb f64 verb pubsub_verb args = parse_pubsub args
parse_verb f64 verb no_verb args = err (unknown_command verb)

unfoldable pub parse_arguments : FloatText → List Bytes → Parsed
unfolding verb_of verb_upper parse_verb
parse_arguments f64 [] = err not_an_array
parse_arguments f64 (verb ∷ args) = parse_verb f64 verb (verb_of (verb_upper verb)) args

unfoldable pub parse : FloatText → Frame → Parsed
unfolding arguments_of parse_arguments
parse f64 (array fs) = arguments_of fs >>= λ (args : List Bytes). parse_arguments f64 args
parse f64 _ = err not_an_array
