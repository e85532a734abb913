-- ===== src/Cluster/Membership/Order.antt =====
-- The sorted ids of the membership view.
use kamino.Prelude.{
  ℕ, ◌≡◌, ◌∙◌, fun_ext, Option, none, some, arith, HashMap, lookup, IsMap, contains,
}
use kamino.Prelude.Sort.{
  keys, is_some, contains-sort, contains-keys, keys-AllDistinct, IsAscending, sort-IsAscending,
  IsAscending-unique,
}
use kamino.Cluster.Membership.{MemberEntry, birthdate_of, sorted_ids}

abbrev pub birthdate? : Option MemberEntry → Option ℕ
birthdate? none = none
birthdate? (some e) = some e.member.birthdate

-- The ids that are sorted are the keys of the map.
pub contains-sorted_ids :
    (m : HashMap MemberEntry) (z : ℕ) → contains z (sorted_ids m) ≡ is_some (lookup z m)
unfolding sorted_ids
contains-sorted_ids m z = contains-sort (birthdate_of m) z (keys m) ∙ contains-keys z m

pub sorted_ids-IsAscending :
    (m : HashMap MemberEntry) → IsMap m → IsAscending (birthdate_of m) (sorted_ids m)
unfolding sorted_ids
sorted_ids-IsAscending m i = sort-IsAscending (birthdate_of m) (keys m) (keys-AllDistinct m i)

-- The order is determined by the birthdate that each id has.
pub sorted_ids_ext :
    (m n : HashMap MemberEntry)
    → IsMap m
    → IsMap n
    → ((k : ℕ) → birthdate? (lookup k m) ≡ birthdate? (lookup k n))
    → sorted_ids m ≡ sorted_ids n
sorted_ids_ext m n i i' h =
    let same : birthdate_of m ≡ birthdate_of n = fun_ext (λ k. same_at k) in
    IsAscending-unique (birthdate_of n) (sorted_ids m) (sorted_ids n)
      (rw (← same) (sorted_ids-IsAscending m i)) (sorted_ids-IsAscending n i')
      λ z. ground (arith, contains-sorted_ids m z, contains-sorted_ids n z, h z)
  where
    same_at : (k : ℕ) → birthdate_of m k ≡ birthdate_of n k
    same_at k = ground (arith, h k)
