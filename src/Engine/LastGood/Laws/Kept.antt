-- ===== src/Engine/LastGood/Laws/Kept.antt =====
-- The directory of the last good files of internal/engine/engine.go after `SaveLastGood`.
use stageneth.Prelude.{
  Bool, true, false, List, [], ◌∷◌, ◌++◌, none, some, Text, lit, equal, equal_iff, equal_refl,
  lookup, insert, has_prefix, ◌≡◌, refl, sym, ◌∙◌, arith, Bool-cases, inl, inr, lookup-insert,
  IsMap, keys, member, any, ◌==◌, lookup-select_entries, insert-IsMap, append_assoc, append-nil,
}
use stageneth.Engine.Disk.{Files, Snapshot}
use stageneth.Engine.LastGood.{
  base_name, kept_path, index_path, Entry, Index, IndexFormat, LastGoodFaults, is_some_text,
  index_of, keep_files, entry_name, wanted_entry, stays, prune_dir, save_index, save_kept,
}

abbrev pub saved_bases : Snapshot → List Text
saved_bases [] = []
saved_bases ((p, b) ∷ s) = base_name p ∷ saved_bases s

-- a path in the directory
abbrev pub inside : Text → Text → Bool
inside dir p = has_prefix p (kept_path dir [])

-- The names that a snapshot is kept under are apart, and apart from the index; its own paths are not
-- in the directory.
abbrev pub Apart : Text → Snapshot → Type 0
Apart dir [] = Unit
Apart dir ((p, b) ∷ s) =
    (member (base_name p) (saved_bases s) ≡ false)
    × (equal (base_name p) (lit "index.json") ≡ false)
    × (inside dir p ≡ false)
    × Apart dir s

-- The directory has the content of each file of the snapshot that was there.
abbrev pub Held : Text → Snapshot → Files → Type 0
Held dir [] fs = Unit
Held dir ((p, none) ∷ s) fs = Held dir s fs
Held dir ((p, some c) ∷ s) fs = (lookup (kept_path dir (base_name p)) fs ≡ some c) × Held dir s fs

abbrev pub entries_of : Snapshot → Index
entries_of [] = []
entries_of ((p, b) ∷ s) =
    (base_name p, record { path = p; existed = is_some_text b }) ∷ entries_of s

pub kept_path-inside : (dir base : Text) → inside dir (kept_path dir base) ≡ true
unfolding has_prefix
kept_path-inside [] base = refl
kept_path-inside (c ∷ dir) base = ground (arith, kept_path-inside dir base)

equal-kept_path : (dir a b : Text) → equal (kept_path dir a) (kept_path dir b) ≡ equal a b
unfolding equal
equal-kept_path [] a b = refl
equal-kept_path (c ∷ dir) a b = ground (arith, equal-kept_path dir a b)

slash-base_name : (p : Text) → any (λ d. d == b'/') (base_name p) ≡ false
unfolding base_name any
slash-base_name [] = refl
slash-base_name (c ∷ p) = elim (Bool-cases (any (λ d. d == b'/') (c ∷ p))) [
  | inl e ↦ rw e (slash-base_name p)
  | inr e ↦ rw e e
]

entry_name-kept_path :
    (dir base : Text)
    → any (λ d. d == b'/') base ≡ false
    → entry_name dir (kept_path dir base) ≡ some base
unfolding entry_name
entry_name-kept_path [] base h = rw h refl
entry_name-kept_path (c ∷ dir) base h = ground (arith, entry_name-kept_path dir base h)

pub Held-agree :
    (dir : Text) (s : Snapshot) (fs gs : Files)
    → ((p : Text) → inside dir p ≡ true → lookup p gs ≡ lookup p fs)
    → Held dir s fs
    → Held dir s gs
Held-agree dir [] fs gs same h = tt
Held-agree dir ((p, none) ∷ s) fs gs same h = Held-agree dir s fs gs same h
Held-agree dir ((p, some c) ∷ s) fs gs same h =
    (same _ (kept_path-inside dir (base_name p)) ∙ h.0, Held-agree dir s fs gs same h.1)

-- Only the bases of the snapshot are written.
lookup-keep_files :
    (io_faults : LastGoodFaults) (dir k : Text) (s : Snapshot) (fs : Files)
    → member k (saved_bases s) ≡ false
    → lookup (kept_path dir k) (keep_files io_faults dir s fs).0 ≡ lookup (kept_path dir k) fs
unfolding keep_files member
lookup-keep_files io_faults dir k [] fs h = refl
lookup-keep_files io_faults dir k ((p, none) ∷ s) fs h =
    lookup-keep_files io_faults dir k s fs (ground (arith, h))
lookup-keep_files io_faults dir k ((p, some c) ∷ s) fs h =
    let path = kept_path dir (base_name p) in
    ground (
      arith,
      h,
      lookup-keep_files io_faults dir k s (insert path c fs),
      lookup-insert path (kept_path dir k) c fs,
      equal-kept_path dir (base_name p) k,
    )

pub keep_files-Held :
    (io_faults : LastGoodFaults) (dir : Text) (s : Snapshot) (fs : Files)
    → Apart dir s
    → (keep_files io_faults dir s fs).1 ≡ true
    → Held dir s (keep_files io_faults dir s fs).0
unfolding keep_files
keep_files-Held io_faults dir [] fs a h = tt
keep_files-Held io_faults dir ((p, none) ∷ s) fs a h = keep_files-Held io_faults dir s fs a.3 h
keep_files-Held io_faults dir ((p, some c) ∷ s) fs a h =
    let path = kept_path dir (base_name p) in
    elim (Bool-cases (io_faults.write path)) [
      | inl e ↦ cc (rw e at h)
      | inr e ↦ rw e (
        lookup-keep_files io_faults dir (base_name p) s (insert path c fs) a.0
            ∙ (rw (lookup-insert, equal_refl)),
        keep_files-Held io_faults dir s (insert path c fs) a.3 (rw e at h),
      )
    ]

pub keep_files-IsMap :
    (io_faults : LastGoodFaults) (dir : Text) (s : Snapshot) (fs : Files)
    → IsMap fs
    → IsMap (keep_files io_faults dir s fs).0
unfolding keep_files
keep_files-IsMap io_faults dir [] fs m = m
keep_files-IsMap io_faults dir ((p, none) ∷ s) fs m = keep_files-IsMap io_faults dir s fs m
keep_files-IsMap io_faults dir ((p, some c) ∷ s) fs m =
    let path = kept_path dir (base_name p) in
    elim (Bool-cases (io_faults.write path)) [
      | inl e ↦ rw e m
      | inr e ↦
          rw e (keep_files-IsMap io_faults dir s (insert path c fs) (insert-IsMap path c fs m))
    ]

-- No base of the snapshot is a key of the index.
abbrev pub Fresh : Index → Snapshot → Type 0
Fresh m [] = Unit
Fresh m ((p, b) ∷ s) = (member (base_name p) (keys m) ≡ false) × Fresh m s

abbrev pub Distinct : Snapshot → Type 0
Distinct [] = Unit
Distinct ((p, b) ∷ s) = (member (base_name p) (saved_bases s) ≡ false) × Distinct s

insert-Fresh :
    (k : Text) (v : Entry) (m : Index) → member k (keys m) ≡ false → insert k v m ≡ m ++ (k, v) ∷ []
unfolding insert member
insert-Fresh k v [] h = refl
insert-Fresh k v ((j, w) ∷ m) h = ground (arith, h, insert-Fresh k v m)

member-keys :
    (q k : Text) (v : Entry) (m : Index)
    → member q (keys m) ≡ false
    → equal k q ≡ false
    → member q (keys (m ++ (k, v) ∷ [])) ≡ false
unfolding member
member-keys q k v [] h n = rw n refl
member-keys q k v ((j, w) ∷ m) h n = ground (arith, h, member-keys q k v m, n)

Fresh-append :
    (k : Text) (v : Entry) (m : Index) (s : Snapshot)
    → Fresh m s
    → member k (saved_bases s) ≡ false
    → Fresh (m ++ (k, v) ∷ []) s
unfolding member
Fresh-append k v m [] f h = tt
Fresh-append k v m ((p, b) ∷ s) f h =
    let apart : equal (base_name p) k ≡ false = ground (arith, h) in
    let rest : member k (saved_bases s) ≡ false = ground (arith, h) in
    (
      member-keys (base_name p) k v m f.0
          (ground (arith, apart, equal_iff (base_name p) k, equal_iff k (base_name p))),
      Fresh-append k v m s f.1 rest,
    )

pub index_of-entries_of :
    (s : Snapshot) (m : Index) → Fresh m s → Distinct s → index_of s m ≡ m ++ entries_of s
unfolding index_of
index_of-entries_of [] m f d = sym (append-nil m)
index_of-entries_of ((p, b) ∷ s) m f d =
    let ent : Entry = record { path = p; existed = is_some_text b } in
    rw (insert-Fresh (base_name p) ent m f.0) (
      index_of-entries_of s (m ++ (base_name p, ent) ∷ [])
        (Fresh-append (base_name p) ent m s f.1 d.0) d.1
      ∙ append_assoc m ((base_name p, ent) ∷ []) (entries_of s))

-- The index wants each file of the snapshot that was there.
abbrev pub Wanted : Index → Snapshot → Type 0
Wanted m [] = Unit
Wanted m ((p, none) ∷ s) = Wanted m s
Wanted m ((p, some c) ∷ s) = (wanted_entry (lookup (base_name p) m) ≡ true) × Wanted m s

Wanted-cons :
    (k : Text) (ent : Entry) (m : Index) (s : Snapshot)
    → member k (saved_bases s) ≡ false
    → Wanted m s
    → Wanted ((k, ent) ∷ m) s
unfolding member lookup
Wanted-cons k ent m [] h w = tt
Wanted-cons k ent m ((p, none) ∷ s) h w = Wanted-cons k ent m s (ground (arith, h)) w
Wanted-cons k ent m ((p, some c) ∷ s) h w =
    let other : equal k (base_name p) ≡ false =
      ground (arith, h, equal_iff (base_name p) k, equal_iff k (base_name p)) in
    (rw other w.0, Wanted-cons k ent m s (ground (arith, h)) w.1)

entries_of-Wanted : (s : Snapshot) → Distinct s → Wanted (entries_of s) s
unfolding lookup
entries_of-Wanted [] d = tt
entries_of-Wanted ((p, none) ∷ s) d =
    Wanted-cons (base_name p) _ (entries_of s) s d.0 (entries_of-Wanted s d.1)
entries_of-Wanted ((p, some c) ∷ s) d =
    (rw equal_refl refl, Wanted-cons (base_name p) _ (entries_of s) s d.0 (entries_of-Wanted s d.1))

prune_dir-Held :
    (io_faults : LastGoodFaults) (dir : Text) (m : Index) (s : Snapshot) (fs : Files)
    → Wanted m s
    → IsMap fs
    → Held dir s fs
    → Held dir s (prune_dir io_faults dir m fs)
unfolding prune_dir
prune_dir-Held io_faults dir m [] fs w i h = tt
prune_dir-Held io_faults dir m ((p, none) ∷ s) fs w i h = prune_dir-Held io_faults dir m s fs w i h
prune_dir-Held io_faults dir m ((p, some c) ∷ s) fs w i h =
    let name = base_name p in
    let path = kept_path dir name in
    let is_name : entry_name dir path ≡ some name =
      entry_name-kept_path dir name (slash-base_name p) in
    let kept : stays io_faults m path (entry_name dir path) ≡ true =
      rw (is_name, w.0) (ground arith) in
    (
      lookup-select_entries (λ q t. stays io_faults m q (entry_name dir q)) path fs i
          ∙ rw (h.0, kept) refl,
      prune_dir-Held io_faults dir m s fs w.1 i h.1,
    )

insert-Held :
    (dir t : Text) (s : Snapshot) (fs : Files)
    → Apart dir s
    → Held dir s fs
    → Held dir s (insert (index_path dir) t fs)
insert-Held dir t [] fs a h = tt
insert-Held dir t ((p, none) ∷ s) fs a h = insert-Held dir t s fs a.3 h
insert-Held dir t ((p, some c) ∷ s) fs a h =
    let base = base_name p in
    let apart : equal (index_path dir) (kept_path dir base) ≡ false =
      equal-kept_path dir (lit "index.json") base
      ∙ ground (arith, a.1, equal_iff base (lit "index.json"), equal_iff (lit "index.json") base) in
    (rw (lookup-insert, apart) h.0, insert-Held dir t s fs a.3 h.1)

pub Apart-Distinct : (dir : Text) (s : Snapshot) → Apart dir s → Distinct s
Apart-Distinct dir [] a = tt
Apart-Distinct dir ((p, b) ∷ s) a = (a.0, Apart-Distinct dir s a.3)

pub empty-Fresh : (s : Snapshot) → Fresh [] s
unfolding member
empty-Fresh [] = tt
empty-Fresh ((p, b) ∷ s) = (refl, empty-Fresh s)

-- a save that succeeds leaves the index, and the directory has every file of the snapshot
save_index-Held :
    (fmt : IndexFormat) (io_faults : LastGoodFaults) (dir : Text) (s : Snapshot) (fs : Files)
    → Apart dir s
    → IsMap fs
    → Held dir s fs
    → (save_index fmt io_faults dir (entries_of s) fs).1 ≡ true
    → (lookup (index_path dir) (save_index fmt io_faults dir (entries_of s) fs).0
        ≡ some (fmt.encode (entries_of s)))
      × Held dir s (save_index fmt io_faults dir (entries_of s) fs).0
unfolding save_index
save_index-Held fmt io_faults dir s fs a i h ok =
    let m = entries_of s in
    let pruned =
      prune_dir-Held io_faults dir m s fs (entries_of-Wanted s (Apart-Distinct dir s a)) i h in
    elim (Bool-cases (io_faults.write (index_path dir))) [
      | inl e ↦ cc (rw e at ok)
      | inr e ↦ rw e (
        rw (lookup-insert, equal_refl) refl,
        insert-Held dir (fmt.encode m) s (prune_dir io_faults dir m fs) a pruned,
      )
    ]

pub save_kept-Held :
    (fmt : IndexFormat) (io_faults : LastGoodFaults) (dir : Text) (s : Snapshot) (r : Files × Bool)
    → Apart dir s
    → IsMap r.0
    → (r.1 ≡ true → Held dir s r.0)
    → (save_kept fmt io_faults dir (entries_of s) r).1 ≡ true
    → (lookup (index_path dir) (save_kept fmt io_faults dir (entries_of s) r).0
        ≡ some (fmt.encode (entries_of s)))
      × Held dir s (save_kept fmt io_faults dir (entries_of s) r).0
save_kept-Held fmt io_faults dir s (fs, true) a i h ok =
    save_index-Held fmt io_faults dir s fs a i (h refl) ok
save_kept-Held fmt io_faults dir s (fs, false) a i h ok = cc
