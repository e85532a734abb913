-- ===== src/Cluster/Membership.antt =====
-- crates/kamino-cluster/src/membership.rs: the membership view. The lock around it is taken for
-- each whole method, so a method is a function of the state behind the lock.
pub mod Order
pub mod Valid
pub mod Precedence
pub mod Entries
pub mod Sweeps
pub mod Snapshot
pub mod Reachable
use kamino.Prelude.{
  ℕ, suc, ◌+◌, ◌-◌, ◌%◌, ◌^◌, Bool, true, false, not, ◌&&◌, ◌||◌, List, [], ◌∷◌, Option, none, some,
  ltb, leb, ◌==◌, if◌then◌else◌, min, HashMap, lookup, remove, insert, length,
}
use kamino.Prelude.Sort.{sort, keys}
use kamino.Cluster.Message.{SocketAddr, Member, GossipEvent, alive, suspect, dead, leave}

pub data MemberState : Type 0 where
  is_alive is_suspect is_dead : MemberState

abbrev pub dead? : MemberState → Bool
dead? is_dead = true
dead? _ = false

abbrev pub alive? : MemberState → Bool
alive? is_alive = true
alive? _ = false

abbrev pub suspect? : MemberState → Bool
suspect? is_suspect = true
suspect? _ = false

pub record MemberEntry : Type 0 where
  pub member : Member
  pub state : MemberState
  pub incarnation : ℕ
  pub suspect_deadline_ns : ℕ

pub record Inner : Type 0 where
  pub by_id : HashMap MemberEntry
  pub sorted : List ℕ
  pub local_id : Option ℕ
  pub local_incarnation : ℕ

pub data ApplyOutcome : Type 0 where
  ignored new_member updated self_refutation_needed : ApplyOutcome

abbrev pub u64_max : ℕ
u64_max = 2 ^ 64 - 1

-- `u64::saturating_add`
abbrev pub saturating_add : ℕ → ℕ → ℕ
saturating_add a b = min (a + b) u64_max

-- `inner.by_id[a].member.birthdate`, asked for keys of the map only
abbrev pub birthdate_of : HashMap MemberEntry → ℕ → ℕ
birthdate_of m a = elim (lookup a m) [ none ↦ 0 | some e ↦ e.member.birthdate ]

unfoldable pub sorted_ids : HashMap MemberEntry → List ℕ
sorted_ids m = sort (birthdate_of m) (keys m)

unfoldable pub re_sort : Inner → Inner
unfolding sorted_ids
re_sort inner = record inner { sorted = sorted_ids inner.by_id }

unfoldable pub bootstrap : Member → Inner
bootstrap local = record {
  by_id =
      (
        local.id,
        record { member = local; state = is_alive; incarnation = 1; suspect_deadline_ns = 0 },
      )
      ∷ [];
  sorted = local.id ∷ [];
  local_id = some local.id;
  local_incarnation = 1;
}

-- The loop of `snapshot`; `idx` counts the ids, dead members included.
unfoldable pub snapshot_from : HashMap MemberEntry → ℕ → List ℕ → List Member
snapshot_from m idx [] = []
snapshot_from m idx (id ∷ ids) =
    let rest = snapshot_from m (suc idx) ids in
    elim (lookup id m) [
      | none ↦ rest
      | some e ↦
          if dead? e.state then rest else record e.member { is_coordinator = idx == 0 } ∷ rest
    ]

unfoldable pub snapshot : Inner → List Member
snapshot inner = snapshot_from inner.by_id 0 inner.sorted

unfoldable pub snapshot_all_from : HashMap MemberEntry → List ℕ → List (Member × MemberState × ℕ)
snapshot_all_from m [] = []
snapshot_all_from m (id ∷ ids) =
    let rest = snapshot_all_from m ids in
    elim (lookup id m) [ none ↦ rest | some e ↦ (e.member, e.state, e.incarnation) ∷ rest ]

unfoldable pub snapshot_all : Inner → List (Member × MemberState × ℕ)
snapshot_all inner = snapshot_all_from inner.by_id inner.sorted

unfoldable pub count_live : HashMap MemberEntry → ℕ
count_live [] = 0
count_live ((id, e) ∷ m) = (if dead? e.state then 0 else 1) + count_live m

unfoldable pub live_count : Inner → ℕ
live_count inner = count_live inner.by_id

abbrev revived : MemberEntry → ℕ → MemberEntry
revived e new_inc = record e { incarnation = new_inc; state = is_alive; suspect_deadline_ns = 0 }

-- `u64` addition, in a release build
unfoldable pub bump_local_incarnation : Inner → ℕ × Inner
bump_local_incarnation inner =
    let new_inc = (inner.local_incarnation + 1) % 2 ^ 64 in
    (
      new_inc,
      record inner {
        local_incarnation = new_inc;
        by_id = elim inner.local_id [
          | none ↦ inner.by_id
          | some local ↦ elim (lookup local inner.by_id) [
            | none ↦ inner.by_id
            | some e ↦ insert local (revived e new_inc) inner.by_id
          ]
        ];
      },
    )

abbrev pub is_local : Inner → ℕ → Bool
is_local inner id = elim inner.local_id [ none ↦ false | some local ↦ local == id ]

unfoldable pub apply_alive :
    Inner → ℕ → List ℕ → SocketAddr → SocketAddr → ℕ → ℕ → ApplyOutcome × Inner
unfolding re_sort
apply_alive inner id name addr discovery_addr birthdate incarnation =
    let member : Member = record {
      id = id;
      name = name;
      addr = addr;
      discovery_addr = discovery_addr;
      birthdate = birthdate;
      is_coordinator = false;
    } in
    let entry : MemberEntry = record {
      member = member;
      state = is_alive;
      incarnation = incarnation;
      suspect_deadline_ns = 0;
    } in
    let inserted = re_sort (record inner { by_id = insert id entry inner.by_id }) in
    if is_local inner id then (ignored, inner) else elim (lookup id inner.by_id) [
      | none ↦ (new_member, inserted)
      | some existing ↦
          if ltb incarnation existing.incarnation
          then (ignored, inner)
          else if incarnation == existing.incarnation && alive? existing.state
          then (ignored, inner)
          else if incarnation == existing.incarnation && dead? existing.state
          then (ignored, inner)
          else (updated, inserted)
    ]

unfoldable pub apply_suspect : Inner → ℕ → ℕ → ℕ → ℕ → ApplyOutcome × Inner
apply_suspect inner id incarnation now_ns suspicion_timeout_ns =
    if is_local inner id then (self_refutation_needed, inner) else elim (lookup id inner.by_id) [
      | none ↦ (ignored, inner)
      | some entry ↦
          if ltb incarnation entry.incarnation
          then (ignored, inner)
          else if incarnation == entry.incarnation && (dead? entry.state || suspect? entry.state)
          then (ignored, inner)
          else (
            updated,
            record inner {
              by_id =
                  insert id
                    (record entry {
                      state = is_suspect;
                      incarnation = incarnation;
                      suspect_deadline_ns = saturating_add now_ns suspicion_timeout_ns;
                    })
                    inner.by_id;
            },
          )
    ]

unfoldable pub apply_dead : Inner → ℕ → ℕ → ApplyOutcome × Inner
unfolding re_sort
apply_dead inner id incarnation =
    if is_local inner id then (self_refutation_needed, inner) else elim (lookup id inner.by_id) [
      | none ↦ (ignored, inner)
      | some entry ↦
          if ltb incarnation entry.incarnation
          then (ignored, inner)
          else if dead? entry.state && incarnation == entry.incarnation
          then (ignored, inner)
          else (
            updated,
            re_sort (record inner {
              by_id =
                  insert id
                    (record entry {
                      state = is_dead;
                      incarnation = incarnation;
                      suspect_deadline_ns = 0;
                    })
                    inner.by_id;
            }),
          )
    ]

unfoldable pub apply : Inner → GossipEvent → ℕ → ℕ → ApplyOutcome × Inner
unfolding apply_alive apply_suspect apply_dead
apply inner (alive id name addr discovery_addr birthdate incarnation) now_ns timeout =
    apply_alive inner id name addr discovery_addr birthdate incarnation
apply inner (suspect id incarnation from) now_ns timeout =
    apply_suspect inner id incarnation now_ns timeout
apply inner (dead id incarnation from) now_ns timeout = apply_dead inner id incarnation
apply inner (leave id incarnation) now_ns timeout = apply_dead inner id incarnation

abbrev pub is_due : ℕ → MemberEntry → Bool
is_due now_ns e = suspect? e.state && leb e.suspect_deadline_ns now_ns

-- The loop of `reap_suspects`: the promoted members and the map after it.
unfoldable pub reap : ℕ → HashMap MemberEntry → List (ℕ × ℕ) × HashMap MemberEntry
reap now_ns [] = ([], [])
reap now_ns ((id, e) ∷ m) =
    let (promoted, m') = reap now_ns m in
    if is_due now_ns e
    then ((e.member.id, e.incarnation) ∷ promoted, (id, record e { state = is_dead }) ∷ m')
    else (promoted, (id, e) ∷ m')

unfoldable pub reap_suspects : Inner → ℕ → List (ℕ × ℕ) × Inner
unfolding re_sort
reap_suspects inner now_ns =
    let (promoted, by_id) = reap now_ns inner.by_id in
    let inner' = record inner { by_id = by_id } in
    (promoted, elim promoted [ [] ↦ inner' | _ ∷ _ ↦ re_sort inner' ])

abbrev pub is_old : ℕ → ℕ → MemberEntry → Bool
is_old older_than_ns now_ns e =
    dead? e.state
    && not (e.suspect_deadline_ns == 0)
    && leb older_than_ns (now_ns - e.suspect_deadline_ns)

unfoldable pub old_ids : ℕ → ℕ → HashMap MemberEntry → List ℕ
old_ids older_than_ns now_ns [] = []
old_ids older_than_ns now_ns ((id, e) ∷ m) =
    let rest = old_ids older_than_ns now_ns m in
    if is_old older_than_ns now_ns e then e.member.id ∷ rest else rest

unfoldable pub remove_all : List ℕ → HashMap MemberEntry → HashMap MemberEntry
remove_all [] m = m
remove_all (id ∷ ids) m = remove_all ids (remove id m)

unfoldable pub evict_tombstones : Inner → ℕ → ℕ → Inner
unfolding re_sort
evict_tombstones inner older_than_ns now_ns =
    let to_remove = old_ids older_than_ns now_ns inner.by_id in
    let inner' = record inner { by_id = remove_all to_remove inner.by_id } in
    elim to_remove [ [] ↦ inner' | _ ∷ _ ↦ re_sort inner' ]
