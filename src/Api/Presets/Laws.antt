-- ===== src/Api/Presets/Laws.antt =====
-- What the configuration file has after a preset of internal/api/presets.go.
use stageneth.Prelude.{
  Bool, true, ◌&&◌, ◌||◌, List, [], ◌∷◌, ◌++◌, Option, none, some, Text, lit, equal, equal_iff,
  equal_refl, member, all, any, first, select, map, All, select-append, select_idem, any-append,
  append-nil, ◌≡◌, ◌≢◌, refl, sym, ◌∙◌, subst, arith, Bool-cases, Option-cases, inl, inr, &&_split,
}
use stageneth.Ucifile.{Section, File, get}
use stageneth.Ucifile.Printer.{text}
use stageneth.Auth.Users.{Disk, Faults}
use stageneth.Api.V1.{load_stageneth, is_section}
use stageneth.Api.Presets.Table.{PresetService, PresetForwarding, Preset, stageneth_presets}
use stageneth.Api.Presets.{
  is_selected, is_kept, forwarding_section, selected_services, selected_forwardings, preset_file,
  known_services, find_preset, save_preset, apply_preset_to_uci,
}

abbrev pub names : List PresetService → List Text
names ss = map (λ (s : PresetService). s.name) ss

-- A preset has the management service, and its forwardings are between services that it has.
abbrev pub is_closed : Preset → Bool
is_closed p =
    member (lit "mgmt") (names p.services)
    && all
        (λ (fw : PresetForwarding).
          member fw.src (names p.services) && member fw.dest (names p.services))
        p.forwardings

table-is_closed : all is_closed stageneth_presets ≡ true
unfolding all member equal
table-is_closed = refl

first-all :
    {A : Type 0} (p q : A → Bool) (xs : List A) (x : A)
    → all q xs ≡ true
    → first p xs ≡ some x
    → q x ≡ true
unfolding all first
first-all p q [] x h e = cc
first-all p q (y ∷ xs) x h e = elim (Bool-cases (p y)) [
  | inl e' ↦
      let same : y ≡ x = cc (rw e' at e) in
      subst (λ z. q z ≡ true) same (&&_split (q y) (all q xs) h).0
  | inr e' ↦ first-all p q xs x (&&_split (q y) (all q xs) h).1 (rw e' at e)
]

-- the services that a selection keeps
any-selected_services :
    (services : List Text) (name : Text) (ss : List PresetService)
    → is_selected services name ≡ true
    → member name (names ss) ≡ true
    → any (is_section (lit "service") name) (selected_services services ss) ≡ true
unfolding member any select
any-selected_services services name [] h m = m
any-selected_services services name (s ∷ ss) h m = elim (Bool-cases (equal s.name name)) [
  | inl e ↦
      let sel : is_selected services s.name ≡ true =
        subst (λ n. is_selected services n ≡ true) (sym ((equal_iff s.name name).0 e)) h in
      rw (sel, equal_refl, e) refl
  | inr e ↦ elim (Bool-cases (is_selected services s.name)) [
    | inl sel ↦ rw (sel, e) (ground (arith, any-selected_services services name ss h (rw e at m)))
    | inr sel ↦ rw sel (any-selected_services services name ss h (rw e at m))
  ]
]

selected-mgmt : (services : List Text) → is_selected services (lit "mgmt") ≡ true
unfolding member equal
selected-mgmt [] = refl
selected-mgmt (s ∷ services) = refl

not_kept-services :
    (services : List Text) (ss : List PresetService)
    → select is_kept (selected_services services ss) ≡ []
unfolding select equal
not_kept-services services [] = refl
not_kept-services services (s ∷ ss) = elim (Bool-cases (is_selected services s.name)) [
  | inl e ↦ rw e (not_kept-services services ss)
  | inr e ↦ rw e (not_kept-services services ss)
]

not_kept-forwardings :
    (services : List Text) (fws : List PresetForwarding)
    → select is_kept (selected_forwardings services fws) ≡ []
unfolding select equal
not_kept-forwardings services [] = refl
not_kept-forwardings services (fw ∷ fws) =
    elim (Bool-cases (is_selected services fw.src && is_selected services fw.dest)) [
      | inl e ↦ rw e (not_kept-forwardings services fws)
      | inr e ↦ rw e (not_kept-forwardings services fws)
    ]

select-preset_file :
    (p : Preset) (services : List Text) (f : File)
    → select is_kept (preset_file p services f) ≡ select is_kept f
unfolding preset_file
select-preset_file p services f =
    let ss = selected_services services p.services in
    let fws = selected_forwardings services p.forwardings in
    select-append is_kept (select is_kept f) (ss ++ fws)
    ∙ rw
        (
          select_idem is_kept f,
          select-append is_kept ss fws,
          not_kept-services services p.services,
          not_kept-forwardings services p.forwardings,
        )
        (append-nil (select is_kept f))

-- a service section of that name
abbrev pub has_service : Text → File → Bool
has_service name f = any (is_section (lit "service") name) f

-- the two ends of a forwarding are services of the file
abbrev pub HasEnds : File → Section → Type 0
HasEnds f s =
    s.type ≡ lit "forwarding"
    → (has_service (get (lit "src") s) f ≡ true) × (has_service (get (lit "dest") s) f ≡ true)

All-append : {A : Type 0} (P : A → Type 0) (xs ys : List A) → All P xs → All P ys → All P (xs ++ ys)
All-append P [] ys h k = k
All-append P (x ∷ xs) ys h k = (h.0, All-append P xs ys h.1 k)

not_forwarding :
    (t : Text)
    → (equal t (lit "stageneth") || equal t (lit "logging")) ≡ true
    → t ≢ lit "forwarding"
not_forwarding t h same =
    ground (arith, h, same, apart, equal_iff t (lit "stageneth"), equal_iff t (lit "logging"))
  where
    apart : (lit "forwarding" ≢ lit "stageneth") × (lit "forwarding" ≢ lit "logging")
    apart = (λ e. cc e, λ e. cc e)

get-forwarding_section :
    (fw : PresetForwarding)
    → (get (lit "src") (forwarding_section fw) ≡ fw.src)
      × (get (lit "dest") (forwarding_section fw) ≡ fw.dest)
unfolding get first equal
get-forwarding_section fw = (refl, refl)

kept-HasEnds : (f g : File) → All (HasEnds g) (select is_kept f)
unfolding select
kept-HasEnds [] g = tt
kept-HasEnds (s ∷ f) g = elim (Bool-cases (is_kept s)) [
  | inl e ↦ rw e (λ is_forwarding. absurd (not_forwarding s.type e is_forwarding), kept-HasEnds f g)
  | inr e ↦ rw e (kept-HasEnds f g)
]

services-HasEnds :
    (services : List Text) (ss : List PresetService) (g : File)
    → All (HasEnds g) (selected_services services ss)
unfolding select equal
services-HasEnds services [] g = tt
services-HasEnds services (s ∷ ss) g = elim (Bool-cases (is_selected services s.name)) [
  | inl e ↦ rw e (λ is_forwarding. cc is_forwarding, services-HasEnds services ss g)
  | inr e ↦ rw e (services-HasEnds services ss g)
]

forwardings-HasEnds :
    (services : List Text) (ss : List Text) (fws : List PresetForwarding) (g : File)
    → ((name : Text)
        → is_selected services name ≡ true
        → member name ss ≡ true
        → has_service name g ≡ true)
    → all (λ (fw : PresetForwarding). member fw.src ss && member fw.dest ss) fws ≡ true
    → All (HasEnds g) (selected_forwardings services fws)
unfolding select all
forwardings-HasEnds services ss [] g has h = tt
forwardings-HasEnds services ss (fw ∷ fws) g has h =
    let (here, rest) = &&_split (member fw.src ss && member fw.dest ss) _ h in
    let (src_in, dest_in) = &&_split (member fw.src ss) (member fw.dest ss) here in
    elim (Bool-cases (is_selected services fw.src && is_selected services fw.dest)) [
      | inl e ↦
          let (src_sel, dest_sel) =
            &&_split (is_selected services fw.src) (is_selected services fw.dest) e in
          rw e (
            λ is_forwarding. (
              rw (get-forwarding_section fw).0 (has fw.src src_sel src_in),
              rw (get-forwarding_section fw).1 (has fw.dest dest_sel dest_in),
            ),
            forwardings-HasEnds services ss fws g has rest,
          )
      | inr e ↦ rw e (forwardings-HasEnds services ss fws g has rest)
    ]

-- What a file has after a preset was put into another.
abbrev pub IsPresetOf : File → File → Type 0
IsPresetOf f g =
    (select is_kept g ≡ select is_kept f) × (has_service (lit "mgmt") g ≡ true) × All (HasEnds g) g

has_service-preset_file :
    (p : Preset) (services : List Text) (f : File) (name : Text)
    → is_selected services name ≡ true
    → member name (names p.services) ≡ true
    → has_service name (preset_file p services f) ≡ true
unfolding preset_file
has_service-preset_file p services f name sel m =
    let ss = selected_services services p.services in
    let fws = selected_forwardings services p.forwardings in
    let is_service = is_section (lit "service") name in
    ground (
      arith,
      any-append is_service (select is_kept f) (ss ++ fws),
      any-append is_service ss fws,
      any-selected_services services name p.services sel m,
    )

preset_file-HasEnds :
    (p : Preset) (services : List Text) (f g : File)
    → ((name : Text)
        → is_selected services name ≡ true
        → member name (names p.services) ≡ true
        → has_service name g ≡ true)
    → is_closed p ≡ true
    → All (HasEnds g) (preset_file p services f)
unfolding preset_file
preset_file-HasEnds p services f g has closed =
    let ss = selected_services services p.services in
    let fws = selected_forwardings services p.forwardings in
    let ends = (&&_split (member (lit "mgmt") (names p.services)) _ closed).1 in
    All-append (HasEnds g) (select is_kept f) (ss ++ fws) (kept-HasEnds f g) (
      All-append (HasEnds g) ss fws (services-HasEnds services p.services g)
        (forwardings-HasEnds services (names p.services) p.forwardings g has ends))

preset_file-IsPresetOf :
    (p : Preset) (services : List Text) (f : File)
    → is_closed p ≡ true
    → IsPresetOf f (preset_file p services f)
preset_file-IsPresetOf p services f closed = (
  select-preset_file p services f,
  has_service-preset_file p services f (lit "mgmt") (selected-mgmt services)
      (&&_split (member (lit "mgmt") (names p.services)) _ closed).0,
  preset_file-HasEnds p services f (preset_file p services f) (has_service-preset_file p services f)
      closed,
)

save_preset-changed :
    (io_faults : Faults) (runs : Bool) (disk : Disk) (p : Preset) (services : List Text)
    (o : Option File)
    → is_closed p ≡ true
    → (save_preset io_faults runs disk p services o).0 ≢ disk
    → (f : File) × (g : File) × (o ≡ some f)
      × ((save_preset io_faults runs disk p services o).0 ≡ some (text g))
      × IsPresetOf f g
save_preset-changed io_faults runs disk p services none closed h = elim (h refl) [ ]
save_preset-changed io_faults runs disk p services (some f) closed h =
    elim (Bool-cases io_faults.write) [
      | inl w ↦ elim (h (rw w refl)) [ ]
      | inr w ↦
          (f, preset_file p services f, refl, rw w refl, preset_file-IsPresetOf p services f closed)
    ]

-- If applying a preset changes the configuration file, whichever services are asked for and whatever
-- fails, the new file has the global and the logging sections of before, in their order and no others, it
-- has the management service, and each forwarding is between two services that the file has.
pub apply_preset_to_uci-IsPresetOf :
    (io_faults : Faults) (runs : Bool) (name : Text) (services : List Text) (disk : Disk)
    → (apply_preset_to_uci io_faults runs name services disk).0 ≢ disk
    → (f : File) × (g : File) × (load_stageneth io_faults disk ≡ some f)
      × ((apply_preset_to_uci io_faults runs name services disk).0 ≡ some (text g))
      × IsPresetOf f g
unfolding apply_preset_to_uci find_preset
apply_preset_to_uci-IsPresetOf io_faults runs name services disk h =
    elim (Option-cases (find_preset name)) [
      | inl e ↦ elim (h (rw e refl)) [ ]
      | inr (p, e) ↦
          let closed : is_closed p ≡ true =
            first-all (λ (q : Preset). equal q.name name) is_closed stageneth_presets p
              table-is_closed e in
          elim (Bool-cases (known_services p services)) [
            | inl known ↦
                rw (e, known)
                  (save_preset-changed io_faults runs disk p services
                    (load_stageneth io_faults disk) closed (rw (e, known) at h))
            | inr unknown ↦ elim (h (rw (e, unknown) refl)) [ ]
          ]
    ]
