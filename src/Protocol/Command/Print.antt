-- ===== src/Protocol/Command/Print.antt =====
-- crates/kamino-protocol/src/command.rs: `Command::to_frame`, and which commands it can carry.
use Prim.Native.String.{String}
use kamino.Prelude.{
  ℕ, ◌^◌, ◌≤◌, ◌<◌, ◌≡◌, Bool, true, false, ◌&&◌, List, [], ◌∷◌, ◌++◌, Option, none, some, length,
  if◌then◌else◌,
}
use kamino.Prelude.Int.{ℤ, InI64}
use kamino.Protocol.Frame.{Frame, Frames, bulk, array, no_frames, more_frames}
use kamino.Protocol.Text.{codes, print_nat, print_int}
use kamino.Protocol.Codec.{FloatText, nan_bits, infinity_bits, negative_infinity_bits}
use kamino.Protocol.Codec.Encode.{double_text, is_nan}
use kamino.Protocol.Command.{
  Bytes, Command, as_u8, PutCommandOptions, ScanCommandOptions, HelloArgs, ping, auth, hello, quit,
  stats, dm_put, dm_get, dm_del, dm_expire, dm_pexpire, dm_incr, dm_decr, dm_get_put,
  dm_incr_by_float, dm_destroy, dm_scan, cluster_members, cluster_routing_table, cluster_ready,
  internal_node_update_routing, internal_node_length_of_part, internal_node_get_with_ts,
  internal_node_move_fragment, internal_node_publish, subscribe, psubscribe, unsubscribe,
  punsubscribe, publish, pubsub_channels, pubsub_numsub, pubsub_numpat,
}
use kamino.Protocol.Command.Options.{expiry_count}

-- The frames of the parts, each a bulk string.
unfoldable pub bulks : List Bytes → Frames
bulks [] = no_frames
bulks (b ∷ bs) = more_frames (bulk (some b)) (bulks bs)

-- The keyword and the value of an option that is given.
abbrev pub given {ℓ} : {A : Type ℓ} → String → (A → Bytes) → Option A → List Bytes
given keyword text none = []
given keyword text (some a) = codes keyword ∷ text a ∷ []

abbrev pub flag : String → Bool → List Bytes
flag keyword b = if b then codes keyword ∷ [] else []

abbrev pub optional : Option Bytes → List Bytes
optional none = []
optional (some b) = b ∷ []

unfoldable pub put_options_to_frames : PutCommandOptions → List Bytes
unfolding print_nat print_int
put_options_to_frames o =
    given "EX" print_nat o.ex
    ++ (given "PX" print_nat o.px
        ++ (given "EXAT" print_nat o.exat
            ++ (given "PXAT" print_nat o.pxat
                ++ (flag "NX" o.nx ++ (flag "XX" o.xx ++ given "TS" print_int o.timestamp)))))

unfoldable pub scan_options_to_frames : ScanCommandOptions → List Bytes
unfolding print_nat
scan_options_to_frames o =
    given "MATCH" (λ (p : Bytes). p) o.match_pattern ++ given "COUNT" print_nat o.count

abbrev pub auth_parts : Option (Option Bytes × Bytes) → List Bytes
auth_parts none = []
auth_parts (some (none, password)) = codes "AUTH" ∷ codes "default" ∷ password ∷ []
auth_parts (some (some user, password)) = codes "AUTH" ∷ user ∷ password ∷ []

abbrev pub version_parts : Option ℕ → List Bytes
version_parts none = []
version_parts (some pv) = print_nat pv ∷ []

-- Behind the verb.
unfoldable pub hello_to_frame_parts : HelloArgs → List Bytes
unfolding print_nat
hello_to_frame_parts h =
    version_parts h.protocol_version
    ++ (auth_parts h.auth ++ given "SETNAME" (λ (n : Bytes). n) h.client_name)

-- The texts of the bulk strings, the verb first.
unfoldable pub parts : FloatText → Command → List Bytes
unfolding put_options_to_frames scan_options_to_frames hello_to_frame_parts double_text print_nat
    print_int as_u8
parts f64 (ping message) = codes "PING" ∷ optional message
parts f64 (auth username password) = codes "AUTH" ∷ optional username ++ password ∷ []
parts f64 (hello h) = codes "HELLO" ∷ hello_to_frame_parts h
parts f64 quit = codes "QUIT" ∷ []
parts f64 stats = codes "STATS" ∷ []
parts f64 (dm_put dmap key value o) = codes "DM.PUT" ∷ dmap ∷ key ∷ value ∷ put_options_to_frames o
parts f64 (dm_get dmap key) = codes "DM.GET" ∷ dmap ∷ key ∷ []
parts f64 (dm_del dmap keys) = codes "DM.DEL" ∷ dmap ∷ keys
parts f64 (dm_expire dmap key n) = codes "DM.EXPIRE" ∷ dmap ∷ key ∷ print_nat n ∷ []
parts f64 (dm_pexpire dmap key n) = codes "DM.PEXPIRE" ∷ dmap ∷ key ∷ print_nat n ∷ []
parts f64 (dm_incr dmap key d) = codes "DM.INCR" ∷ dmap ∷ key ∷ print_int d ∷ []
parts f64 (dm_decr dmap key d) = codes "DM.DECR" ∷ dmap ∷ key ∷ print_int d ∷ []
parts f64 (dm_get_put dmap key value) = codes "DM.GETPUT" ∷ dmap ∷ key ∷ value ∷ []
parts f64 (dm_incr_by_float dmap key d) =
    codes "DM.INCRBYFLOAT" ∷ dmap ∷ key ∷ double_text f64 d ∷ []
parts f64 (dm_destroy dmap) = codes "DM.DESTROY" ∷ dmap ∷ []
parts f64 (dm_scan partition_id dmap cursor o) =
    codes "DM.SCAN" ∷ print_nat partition_id ∷ dmap ∷ print_nat cursor ∷ scan_options_to_frames o
parts f64 cluster_members = codes "CLUSTER.MEMBERS" ∷ []
parts f64 cluster_routing_table = codes "CLUSTER.ROUTINGTABLE" ∷ []
parts f64 cluster_ready = codes "CLUSTER.READY" ∷ []
parts f64 (internal_node_update_routing table) = codes "INTERNAL.NODE.UPDATEROUTING" ∷ table ∷ []
parts f64 (internal_node_length_of_part n) = codes "INTERNAL.NODE.LENGTHOFPART" ∷ print_nat n ∷ []
parts f64 (internal_node_get_with_ts dmap key) = codes "INTERNAL.NODE.GETWITHTS" ∷ dmap ∷ key ∷ []
parts f64 (internal_node_move_fragment n kind dmap payload) =
    codes "INTERNAL.NODE.MOVEFRAGMENT" ∷ print_nat n ∷ print_nat (as_u8 kind) ∷ dmap ∷ payload ∷ []
parts f64 (internal_node_publish channel message) =
    codes "INTERNAL.NODE.PUBLISH" ∷ channel ∷ message ∷ []
parts f64 (subscribe channels) = codes "SUBSCRIBE" ∷ channels
parts f64 (psubscribe patterns) = codes "PSUBSCRIBE" ∷ patterns
parts f64 (unsubscribe channels) = codes "UNSUBSCRIBE" ∷ channels
parts f64 (punsubscribe patterns) = codes "PUNSUBSCRIBE" ∷ patterns
parts f64 (publish channel message) = codes "PUBLISH" ∷ channel ∷ message ∷ []
parts f64 (pubsub_channels pattern) = codes "PUBSUB" ∷ codes "CHANNELS" ∷ optional pattern
parts f64 (pubsub_numsub channels) = codes "PUBSUB" ∷ codes "NUMSUB" ∷ channels
parts f64 pubsub_numpat = codes "PUBSUB" ∷ codes "NUMPAT" ∷ []

unfoldable pub to_frame : FloatText → Command → Frame
unfolding bulks parts
to_frame f64 c = array (bulks (parts f64 c))

abbrev pub Below : ℕ → Option ℕ → Type 0
Below bits none = Unit
Below bits (some n) = n < 2 ^ bits

abbrev pub InI64? : Option ℤ → Type 0
InI64? none = Unit
InI64? (some t) = InI64 t

-- The user of an `AUTH` clause is named.
abbrev pub HasUser : Option (Option Bytes × Bytes) → Type 0
HasUser none = Unit
HasUser (some (none, _)) = ⊥
HasUser (some (some _, _)) = Unit

-- What `f64`'s `parse` documents of the texts that have no decimals.
pub record ParsesSpecial (f64 : FloatText) : Type 0 where
  pub inf : f64.parse (codes "inf") ≡ some infinity_bits
  pub negative_inf : f64.parse (codes "-inf") ≡ some negative_infinity_bits
  pub nan : f64.parse (codes "nan") ≡ some nan_bits

-- What the types and the parser ask of a command: integers in the range of their types, at least
-- one key or channel, no conflicting options, a named user, and the one NaN.
abbrev pub IsSendable : Command → Type 0
IsSendable (hello h) = Below 32 h.protocol_version × HasUser h.auth
IsSendable (dm_put dmap key value o) =
    Below 64 o.ex
    × Below 64 o.px
    × Below 64 o.exat
    × Below 64 o.pxat
    × InI64? o.timestamp
    × ((o.nx && o.xx) ≡ false)
    × (expiry_count o ≤ 1)
IsSendable (dm_del dmap keys) = 0 < length keys
IsSendable (dm_expire dmap key n) = n < 2 ^ 64
IsSendable (dm_pexpire dmap key n) = n < 2 ^ 64
IsSendable (dm_incr dmap key d) = InI64 d
IsSendable (dm_decr dmap key d) = InI64 d
IsSendable (dm_incr_by_float dmap key d) = (d < 2 ^ 64) × (is_nan d ≡ true → d ≡ nan_bits)
IsSendable (dm_scan partition_id dmap cursor o) =
    (partition_id < 2 ^ 32) × (cursor < 2 ^ 64) × Below 32 o.count
IsSendable (internal_node_length_of_part n) = n < 2 ^ 32
IsSendable (internal_node_move_fragment n kind dmap payload) = n < 2 ^ 32
IsSendable (subscribe channels) = 0 < length channels
IsSendable (psubscribe patterns) = 0 < length patterns
IsSendable _ = Unit
