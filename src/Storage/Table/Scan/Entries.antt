-- ===== src/Storage/Table/Scan/Entries.antt =====
-- What a scan visits: each live entry of the table once, in the order of the offsets.
use kamino.Prelude.{
  ℕ, ◌≤◌, ◌≡◌, refl, sym, ◌∙◌, ap, fun_ext, List, [], ◌∷◌, Option, none, some, arith, inl, inr,
  HashMap, lookup, insert, IsMap, total, total_ext, length-total, contains, AllDistinct,
  if◌then◌else◌, Option-cases, lookup-insert, length, weight,
}
use kamino.Storage.Deps.{Deps}
use kamino.Storage.Outcome.{ok}
use kamino.Storage.Entry.{Entry, encoded_len}
use kamino.Storage.Table.{Table, len, u32_max, offset_to_u32, decode_at}
use kamino.Storage.Table.Valid.{entry_at, size_at, entry_at-Stored, size_at-Stored, view, IsValid}
use kamino.Storage.Table.Scan.{Callback, resume, invert, scan_offsets, scan, visit}

-- The index by offset, without the test of the offsets.
inverse : HashMap ℕ → HashMap ℕ
inverse [] = []
inverse ((hk, off) ∷ m) = insert off hk (inverse m)

invert-inverse :
    (m : HashMap ℕ)
    → IsMap m
    → ((k off : ℕ) → lookup k m ≡ some off → off ≤ u32_max)
    → invert m ≡ ok (inverse m)
unfolding invert inverse offset_to_u32 lookup
invert-inverse [] i h = refl
invert-inverse ((hk, off) ∷ m) i h =
    ground (arith, h hk off, invert-inverse m i.1 λ k o e. h k o (ground arith))

inverse_sound :
    (m : HashMap ℕ) (hk off : ℕ)
    → IsMap m
    → lookup off (inverse m) ≡ some hk
    → lookup hk m ≡ some off
unfolding inverse lookup
inverse_sound [] hk off i h = cc
inverse_sound ((k, o) ∷ m) hk off i h =
    ground (arith, lookup-insert o off k (inverse m), inverse_sound m hk off i.1)

inverse_complete :
    (m : HashMap ℕ) (hk off : ℕ)
    → IsMap m
    → ((k j o : ℕ) → lookup k m ≡ some o → lookup j m ≡ some o → k ≡ j)
    → lookup hk m ≡ some off
    → lookup off (inverse m) ≡ some hk
unfolding inverse lookup
inverse_complete [] hk off i inj h = cc
inverse_complete ((k, o) ∷ m) hk off i inj h = ground (
  arith,
  lookup-insert o off k (inverse m),
  inj k hk off,
  inverse_complete m hk off i.1 (λ a b c p q. inj a b c (ground arith) (ground arith)),
)

abbrev add_entry : ℕ → Option Entry → List (ℕ × Entry) → List (ℕ × Entry)
add_entry hk none es = es
add_entry hk (some e) es = (hk, e) ∷ es

entries_from : List ℕ → HashMap ℕ → List ℕ → List (ℕ × Entry)
entries_from memory inv [] = []
entries_from memory inv (off ∷ offs) = elim (lookup off inv) [
  | none ↦ entries_from memory inv offs
  | some hk ↦ add_entry hk (entry_at memory off) (entries_from memory inv offs)
]

abbrev entry_if : Option ℕ → List ℕ → List ℕ → Option Entry
entry_if none memory offs = none
entry_if (some off) memory offs = if contains off offs then entry_at memory off else none

module _ (deps : Deps) (t : Table deps) (v : IsValid deps t) where
  open deps use {bitmap_iter}

  abbrev inv : HashMap ℕ
  inv = inverse t.hkeys

  sound : (hk off : ℕ) → lookup off inv ≡ some hk → lookup hk t.hkeys ≡ some off
  sound hk off = inverse_sound t.hkeys hk off v.keys

  complete : (hk off : ℕ) → lookup hk t.hkeys ≡ some off → lookup off inv ≡ some hk
  complete hk off = inverse_complete t.hkeys hk off v.keys v.injective

  entry_found :
      (hk off : ℕ)
      → lookup off inv ≡ some hk
      → (e : Entry) × (entry_at t.memory off ≡ some e) × (decode_at deps t off ≡ ok e)
  unfolding decode_at
  entry_found hk off h =
      let s = v.stored hk off (sound hk off h) in
      (s.entry, entry_at-Stored t.memory off s, ground (arith, s.decoded))

  lookup-entries_from :
      (k : ℕ) (offs : List ℕ)
      → lookup k (entries_from t.memory inv offs) ≡ entry_if (lookup k t.hkeys) t.memory offs
  unfolding entries_from lookup contains
  lookup-entries_from k [] = ground arith
  lookup-entries_from k (off ∷ offs) = elim (Option-cases (lookup off inv)) [
    | inl unknown ↦ ground (arith, lookup-entries_from k offs, complete k off)
    | inr (hk, known) ↦
        let (e, at, _) = entry_found hk off known in
        ground (arith, lookup-entries_from k offs, complete k off, sound hk off known)
  ]

  entries_from-IsMap : (offs : List ℕ) → AllDistinct offs → IsMap (entries_from t.memory inv offs)
  unfolding entries_from contains
  entries_from-IsMap [] d = tt
  entries_from-IsMap (off ∷ offs) d = elim (Option-cases (lookup off inv)) [
    | inl unknown ↦ rw (unknown, entries_from) (entries_from-IsMap offs d.1)
    | inr (hk, known) ↦
        let (e, at, _) = entry_found hk off known in
        ground (arith, entries_from-IsMap offs d.1, lookup-entries_from hk offs, sound hk off known)
  ]

  scan_offsets-visit :
      {S : Type 0} (f : Callback S) (offs : List ℕ) (s : S)
      → scan_offsets deps f t inv offs s ≡ visit f (entries_from t.memory inv offs) s
  unfolding scan_offsets entries_from
  scan_offsets-visit f [] s = refl
  scan_offsets-visit f (off ∷ offs) s = elim (Option-cases (lookup off inv)) [
    | inl unknown ↦ rw (unknown, scan_offsets, entries_from) (scan_offsets-visit f offs s)
    | inr (hk, known) ↦
        let (e, at, decoded) = entry_found hk off known in
        rw (known, scan_offsets, entries_from, at, decoded)
          (ap (resume (f s hk e)) (fun_ext (scan_offsets-visit f offs)))
  ]

-- The entries that a scan visits, in order.
pub entries : (deps : Deps) → Table deps → List (ℕ × Entry)
entries deps t = entries_from t.memory (inverse t.hkeys) (deps.bitmap_iter t.offset_index)

module _ (deps : Deps) (t : Table deps) (v : IsValid deps t) where
  -- A scan of a valid table is the callback over its list of live entries, in order, until it asks
  -- to stop or panics: the scan adds no error.
  pub scan-visit :
      {S : Type 0} (f : Callback S) (s : S) → scan deps f t s ≡ visit f (entries deps t) s
  unfolding scan entries
  scan-visit f s =
      rw (invert-inverse t.hkeys v.keys v.small, scan)
        (scan_offsets-visit deps t v f (deps.bitmap_iter t.offset_index) s)

  -- The entries are the map that the table stands for, and no key stands twice among them.
  pub lookup-entries : (k : ℕ) → lookup k (entries deps t) ≡ view deps t k
  unfolding entries view
  lookup-entries k = elim (Option-cases (lookup k t.hkeys)) [
    | inl missing ↦ ground (arith, lookup-entries_from deps t v k (deps.bitmap_iter t.offset_index))
    | inr (off, live) ↦ ground (
      arith,
      lookup-entries_from deps t v k (deps.bitmap_iter t.offset_index),
      v.live_indexed k off live,
    )
  ]

  pub entries-IsMap : IsMap (entries deps t)
  unfolding entries
  entries-IsMap = entries_from-IsMap deps t v (deps.bitmap_iter t.offset_index) v.distinct

  size-view :
      (k : ℕ) → weight encoded_len (view deps t k) ≡ weight (size_at t.memory) (lookup k t.hkeys)
  unfolding view
  size-view k = elim (Option-cases (lookup k t.hkeys)) [
    | inl none' ↦ ground arith
    | inr (off, live) ↦
        let s = v.stored k off live in
        ground (arith, entry_at-Stored t.memory off s, size_at-Stored t.memory off s)
  ]

  -- The entries take the live bytes.
  pub total-entries : total encoded_len (entries deps t) ≡ t.live_bytes
  total-entries = sym (
      v.live
      ∙ total_ext (size_at t.memory) encoded_len t.hkeys (entries deps t) v.keys entries-IsMap
          λ k. rw (lookup-entries k) (sym (size-view k)))

  presence-view : (k : ℕ) → weight (λ _. 1) (view deps t k) ≡ weight (λ _. 1) (lookup k t.hkeys)
  unfolding view
  presence-view k = elim (Option-cases (lookup k t.hkeys)) [
    | inl none' ↦ ground arith
    | inr (off, live) ↦ ground (arith, entry_at-Stored t.memory off (v.stored k off live))
  ]

  -- A table counts the entries that a scan visits.
  pub length-entries : length (entries deps t) ≡ len deps t
  unfolding len
  length-entries =
      length-total (entries deps t)
      ∙ total_ext (λ _. 1) (λ _. 1) (entries deps t) t.hkeys entries-IsMap v.keys
          (λ k. rw (lookup-entries k) (presence-view k))
      ∙ sym (length-total t.hkeys)
