-- ===== src/Auth/Users/Keeps.antt =====
-- What a write through `find`, an appended section and a removal do to a user file
-- (internal/auth/users.go): which accounts are there, and which of them are tech accounts.
use stageneth.Prelude.{
  Bool, true, false, not, ◌&&◌, [], ◌∷◌, ◌++◌, none, some, Text, equal_iff, any, any-append, select,
  ◌≡◌, refl, sym, subst, arith, first, Bool-cases, inl, inr,
}
use stageneth.Ucifile.{Section, File}
use stageneth.Ucifile.Clean.{IsCleanSection, IsCleanFile}
use stageneth.Auth.Users.{is_user, named, find, update, is_tech, has_other_tech}

abbrev pub is_tech_user : Section → Bool
is_tech_user s = is_user s && is_tech s

-- some account has the tech role
abbrev pub has_tech : File → Bool
has_tech f = any is_tech_user f

-- No two accounts share a name.
abbrev pub IsUnique : File → Type 0
IsUnique [] = Unit
IsUnique (s ∷ f) = ((is_user s && any (named s.name) f) ≡ false) × IsUnique f

other_tech-has_tech : (name : Text) (f : File) → has_other_tech name f ≡ true → has_tech f ≡ true
unfolding has_other_tech any
other_tech-has_tech name [] h = h
other_tech-has_tech name (s ∷ f) h = ground (arith, other_tech-has_tech name f)

-- only a section of that name is in the file
not_other :
    (name : Text) (f : File) → any (named name) f ≡ false → has_tech f ≡ has_other_tech name f
unfolding has_other_tech any
not_other name [] h = refl
not_other name (s ∷ f) h = ground (arith, not_other name f)

module _ (name : Text) (g : Section → Section) where
  pub update-other_tech :
      (f : File) → has_other_tech name f ≡ true → has_tech (update name g f) ≡ true
  unfolding has_other_tech any update
  update-other_tech [] h = h
  update-other_tech (s ∷ f) h = ground (arith, update-other_tech f, other_tech-has_tech name f)

  pub update-same_tech :
      (f : File)
      → ((s : Section) → is_tech_user (g s) ≡ is_tech_user s)
      → has_tech (update name g f) ≡ has_tech f
  unfolding any update
  update-same_tech [] h = refl
  update-same_tech (s ∷ f) h = ground (arith, h s, update-same_tech f h)

  pub update-new_tech :
      (f : File) (s : Section)
      → find name f ≡ some s
      → is_tech_user (g s) ≡ true
      → has_tech (update name g f) ≡ true
  unfolding any update find first
  update-new_tech [] s e h = cc
  update-new_tech (x ∷ f) s e h = elim (Bool-cases (named name x)) [
    | inl m ↦
        let same : x ≡ s = cc (rw m at e) in
        let tech : is_tech_user (g x) ≡ true =
          subst (λ y. is_tech_user (g y) ≡ true) (sym same) h in
        rw (m, tech)
    | inr m ↦ ground (arith, update-new_tech f s)
  ]

pub other_tech_unique :
    (name : Text) (f : File) (s : Section)
    → IsUnique f
    → find name f ≡ some s
    → is_tech s ≡ false
    → has_tech f ≡ true
    → has_other_tech name f ≡ true
unfolding any find first has_other_tech
other_tech_unique name [] s u e n h = h
other_tech_unique name (x ∷ f) s u e n h = elim (Bool-cases (named name x)) [
  | inl m ↦
      let same : x ≡ s = cc (rw m at e) in ground (arith, not_other name f, equal_iff x.name name)
  | inr m ↦ ground (arith, other_tech_unique name f s u.1)
]

pub select-other_tech :
    (name : Text) (f : File)
    → has_other_tech name f ≡ true
    → has_tech (select (λ x. not (named name x)) f) ≡ true
unfolding any has_other_tech select
select-other_tech name [] h = h
select-other_tech name (s ∷ f) h = ground (arith, select-other_tech name f)

module _ (name : Text) (g : Section → Section) (m : Text)
    (keeps : (s : Section) → named m (g s) ≡ named m s) where
  pub update-named : (f : File) → any (named m) (update name g f) ≡ any (named m) f
  unfolding any update
  update-named [] = refl
  update-named (s ∷ f) = ground (arith, keeps s, update-named f)

-- The section keeps its type and its name.
abbrev pub KeepsName : (Section → Section) → Type 0
KeepsName g = (s : Section) → ((g s).type ≡ s.type) × ((g s).name ≡ s.name)

named-keeps :
    (g : Section → Section) (k : KeepsName g) (m : Text) (s : Section) → named m (g s) ≡ named m s
named-keeps g k m s = rw ((k s).0, (k s).1)

pub update-IsUnique :
    (name : Text) (g : Section → Section) (f : File)
    → KeepsName g
    → IsUnique f
    → IsUnique (update name g f)
unfolding update
update-IsUnique name g [] k u = u
update-IsUnique name g (s ∷ f) k u = elim (Bool-cases (named name s)) [
  | inl e ↦ rw e (rw ((k s).0, (k s).1) u.0, u.1)
  | inr e ↦ rw e (
    rw (update-named name g s.name (named-keeps g k s.name) f) u.0,
    update-IsUnique name g f k u.1,
  )
]

any-select : (p q : Section → Bool) (f : File) → any p f ≡ false → any p (select q f) ≡ false
unfolding any select
any-select p q [] h = h
any-select p q (s ∷ f) h = ground (arith, any-select p q f)

pub select-IsUnique : (p : Section → Bool) (f : File) → IsUnique f → IsUnique (select p f)
unfolding select
select-IsUnique p [] u = u
select-IsUnique p (s ∷ f) u = elim (Bool-cases (p s)) [
  | inl e ↦ rw e (ground (arith, any-select (named s.name) p f, u.0), select-IsUnique p f u.1)
  | inr e ↦ rw e (select-IsUnique p f u.1)
]

pub append-IsUnique :
    (f : File) (s : Section) → any (named s.name) f ≡ false → IsUnique f → IsUnique (f ++ s ∷ [])
unfolding any
append-IsUnique [] s h u = (unfold any in ground arith, tt)
append-IsUnique (x ∷ f) s h u = (
  ground (
    arith,
    any-append (named x.name) f (s ∷ []),
    equal_iff x.name s.name,
    equal_iff s.name x.name,
    u.0,
  ),
  append-IsUnique f s (ground arith) u.1,
)

pub find-none : (name : Text) (f : File) → find name f ≡ none → any (named name) f ≡ false
unfolding find first any
find-none name [] h = refl
find-none name (s ∷ f) h = ground (arith, find-none name f)

pub find-some : (name : Text) (f : File) (s : Section) → find name f ≡ some s → named name s ≡ true
unfolding find first
find-some name [] s h = cc
find-some name (x ∷ f) s h = ground (arith, find-some name f s)

pub update-clean :
    (name : Text) (g : Section → Section) (f : File)
    → ((s : Section) → IsCleanSection s → IsCleanSection (g s))
    → IsCleanFile f
    → IsCleanFile (update name g f)
unfolding update
update-clean name g [] k c = c
update-clean name g (s ∷ f) k c = elim (Bool-cases (named name s)) [
  | inl e ↦ rw e (k s c.0, c.1)
  | inr e ↦ rw e (c.0, update-clean name g f k c.1)
]
