-- ===== src/Api/V1/Effects.antt =====
-- What an accepted request of internal/api/v1.go has checked, and what it makes of the services.
use stageneth.Prelude.{
  ℕ, Bool, true, false, not, ◌&&◌, [], ◌∷◌, Option, none, some, Text, lit, equal, equal_iff,
  is_empty, if◌then◌else◌, Dict, lookup, get_text, any, select, ◌≡◌, refl, sym, ap, ◌∙◌, arith,
  Bool-cases, inl, inr,
}
use stageneth.Ucifile.{File}
use stageneth.Ucifile.Printer.{text}
use stageneth.Stcfg.{Config, Options, parse_config}
use stageneth.Stcfg.Laws.{is_service, last_service, parse_config-services, last_service-select}
use stageneth.Auth.Users.{Disk, Faults}
use stageneth.Api.{Host, name_re, service_fields, or_error, field_error, validate_fields}
use stageneth.Api.V1.{
  Decision, refuse, store, load_stageneth, loaded, put_section, replace_section_options,
  refuse_error, validate_service, vlan_holder, vlan_conflict, refuse_conflict, upsert_file,
  upsert_decision, bound_by, binding_conflict, refuse_bound, delete_file, delete_decision,
  put_service, delete_service, decide, handle_v1,
}
use stageneth.Api.V1.Replies.{Stores, handle_v1-saved}

refuse-Stores : (g : File) (n : ℕ) (m : Text) → Stores g (refuse n m) → ⊥
refuse-Stores g n m (msg, h) = cc h

store-Stores : (g f : File) (m : Text) → Stores g (store f m) → f ≡ g
store-Stores g f m (msg, h) = cc h

refuse_error-Stores :
    (g : File) (e : Option Text) (d : Decision)
    → Stores g (refuse_error e d)
    → (e ≡ none) × Stores g d
refuse_error-Stores g none d h = (refl, h)
refuse_error-Stores g (some m) d h = elim (refuse-Stores g 400 m h) [ ]

refuse_conflict-Stores :
    (g : File) (vid : Text) (o : Option Text) (d : Decision)
    → Stores g (refuse_conflict vid o d)
    → (o ≡ none) × Stores g d
refuse_conflict-Stores g vid none d h = (refl, h)
refuse_conflict-Stores g vid (some m) d h = elim (refuse-Stores g 409 _ h) [ ]

refuse_bound-Stores :
    (g : File) (name : Text) (o : Option Text) (d : Decision)
    → Stores g (refuse_bound name o d)
    → (o ≡ none) × Stores g d
refuse_bound-Stores g name none d h = (refl, h)
refuse_bound-Stores g name (some m) d h = elim (refuse-Stores g 409 _ h) [ ]

loaded-Stores :
    (g : File) (next : File → Decision) (o : Option File)
    → Stores g (loaded next o)
    → (f : File) × (o ≡ some f) × Stores g (next f)
loaded-Stores g next none h = elim (refuse-Stores g 500 _ h) [ ]
loaded-Stores g next (some f) h = (f, refl, h)

unless-Stores :
    (g : File) (b : Bool) (n : ℕ) (m : Text) (d : Decision)
    → Stores g (if b then refuse n m else d)
    → (b ≡ false) × Stores g d
unless-Stores g true n m d h = elim (refuse-Stores g n m h) [ ]
unless-Stores g false n m d h = (refl, h)

when-Stores :
    (g : File) (b : Bool) (n : ℕ) (m : Text) (d : Decision)
    → Stores g (if b then d else refuse n m)
    → (b ≡ true) × Stores g d
when-Stores g true n m d h = (refl, h)
when-Stores g false n m d h = elim (refuse-Stores g n m h) [ ]

-- A binding that names the service is found.
bound_by-none :
    (name bn : Text) (bv : Options) (m : Dict Options)
    → bound_by name m ≡ none
    → lookup bn m ≡ some bv
    → equal (get_text (lit "service") bv) name ≡ false
unfolding bound_by lookup
bound_by-none name bn bv [] h e = cc e
bound_by-none name bn bv ((k, v) ∷ m) h e =
    elim (Bool-cases (equal (get_text (lit "service") v) name)) [
      | inl bound ↦ cc (bound, h)
      | inr free ↦ elim (Bool-cases (equal k bn)) [
        | inl same ↦ let e' : some v ≡ some bv = rw same at e in cc (free, e')
        | inr other ↦ bound_by-none name bn bv m (rw free at h) (rw other at e)
      ]
    ]

-- A service with the vlan is found.
vlan_holder-none :
    (name vid other : Text) (sv : Options) (m : Dict Options)
    → vlan_holder name vid m ≡ none
    → lookup other m ≡ some sv
    → equal other name ≡ false
    → equal (get_text (lit "vlan_id") sv) vid ≡ false
unfolding vlan_holder lookup
vlan_holder-none name vid other sv [] h e n = cc e
vlan_holder-none name vid other sv ((k, v) ∷ m) h e n =
    elim (Bool-cases (not (equal k name) && equal (get_text (lit "vlan_id") v) vid)) [
      | inl held ↦ cc (held, h)
      | inr free ↦ elim (Bool-cases (equal k other)) [
        | inl same ↦
            let v_eq : some v ≡ some sv = rw same at e in
            let k_eq : k ≡ other = (equal_iff k other).0 same in
            let free' : (not (equal k name) && equal (get_text (lit "vlan_id") v) vid) ≡ false =
              free in
            let apart : equal k name ≡ false = rw k_eq n in
            let free2 : equal (get_text (lit "vlan_id") v) vid ≡ false = rw apart at free' in
            cc (free2, v_eq)
        | inr differs ↦ vlan_holder-none name vid other sv m (rw free at h) (rw differs at e) n
      ]
    ]

-- Every value is accepted by the validator of its field.
abbrev pub AreValid : Dict (Text → Bool) → Dict Text → Type 0
AreValid fields vals =
    (k v : Text)
    → lookup k vals ≡ some v
    → (vf : Text → Bool) × (lookup k fields ≡ some vf) × (vf v ≡ true)

or_error-none : (a b : Option Text) → or_error a b ≡ none → (a ≡ none) × (b ≡ none)
or_error-none none b h = (refl, h)
or_error-none (some m) b h = cc h

field_error-none :
    (host : Host) (k v : Text) (o : Option (Text → Bool))
    → field_error host k v o ≡ none
    → (vf : Text → Bool) × (o ≡ some vf) × (vf v ≡ true)
field_error-none host k v none h = cc h
field_error-none host k v (some vf) h = elim (Bool-cases (vf v)) [
  | inl e ↦ (vf, refl, e)
  | inr e ↦ cc (e, h)
]

validate_fields-AreValid :
    (host : Host) (fields : Dict (Text → Bool)) (vals : Dict Text)
    → validate_fields host fields vals ≡ none
    → AreValid fields vals
unfolding validate_fields lookup
validate_fields-AreValid host fields [] h k v e = cc e
validate_fields-AreValid host fields ((j, w) ∷ vals) h k v e =
    let both =
      or_error-none (field_error host j w (lookup j fields)) (validate_fields host fields vals) h in
    elim (Bool-cases (equal j k)) [
      | inl same ↦
          let w_eq : some w ≡ some v = rw same at e in
          let j_eq : j ≡ k = (equal_iff j k).0 same in
          let found = field_error-none host j w (lookup j fields) both.0 in
          (found.0, cc (j_eq, found.1), cc (w_eq, found.2))
      | inr other ↦ validate_fields-AreValid host fields vals both.1 k v (rw other at e)
    ]

validate_service-AreValid :
    (host : Host) (vals : Dict Text) (st : Config)
    → validate_service host vals st ≡ none
    → AreValid (service_fields host) vals
unfolding validate_service
validate_service-AreValid host [] st h = cc h
validate_service-AreValid host (e ∷ vals) st h =
    validate_fields-AreValid host (service_fields host) (e ∷ vals) h

vlan_conflict-none :
    (name other : Text) (sv : Options) (vals : Dict Text) (f : File)
    → vlan_conflict (lit "service") name vals (parse_config f) ≡ none
    → is_empty (get_text (lit "vlan_id") vals) ≡ false
    → last_service other f ≡ some sv
    → equal other name ≡ false
    → equal (get_text (lit "vlan_id") sv) (get_text (lit "vlan_id") vals) ≡ false
unfolding vlan_conflict equal
vlan_conflict-none name other sv vals f h filled e n =
    vlan_holder-none name (get_text (lit "vlan_id") vals) other sv (parse_config f).services
      (rw filled at h) (parse_config-services f other ∙ e) n

-- What `PUT /api/v1/services/{name}` has checked, for the file that it read.
pub record IsPutService (host : Host) (name : Text) (vals : Dict Text) (f : File) : Type 0 where
  pub name_ok : name_re name ≡ true
  pub fields_ok : AreValid (service_fields host) vals
  pub vlan_free :
      (other : Text) (sv : Options)
      → is_empty (get_text (lit "vlan_id") vals) ≡ false
      → last_service other f ≡ some sv
      → equal other name ≡ false
      → equal (get_text (lit "vlan_id") sv) (get_text (lit "vlan_id") vals) ≡ false

upsert_file-Stores :
    (host : Host) (name : Text) (vals : Dict Text) (f g : File)
    → Stores g (upsert_file (lit "service") (validate_service host) name vals f)
    → AreValid (service_fields host) vals
      × (vlan_conflict (lit "service") name vals (parse_config f) ≡ none)
      × (g ≡ put_section (lit "service") name (replace_section_options vals) f)
unfolding upsert_file
upsert_file-Stores host name vals f g h =
    let st = parse_config f in
    let valid = refuse_error-Stores g (validate_service host vals st) _ h in
    let free =
      refuse_conflict-Stores g (get_text (lit "vlan_id") vals)
        (vlan_conflict (lit "service") name vals st) _ valid.1 in
    (validate_service-AreValid host vals st valid.0, free.0, sym (store-Stores g _ _ free.1))

put_service-Stores :
    (host : Host) (name : Text) (vals : Dict Text) (file : Option File) (g : File)
    → Stores g (decide host (put_service name (some vals)) file)
    → (f : File) × (file ≡ some f)
      × IsPutService host name vals f
      × (g ≡ put_section (lit "service") name (replace_section_options vals) f)
unfolding decide upsert_decision
put_service-Stores host name vals file g h =
    let named = unless-Stores g (not (name_re name)) 400 _ _ h in
    let read =
      loaded-Stores g (upsert_file (lit "service") (validate_service host) name vals) file
        named.1 in
    let checked = upsert_file-Stores host name vals read.0 g read.2 in
    (
      read.0,
      read.1,
      record {
        name_ok = ground (arith, named.0);
        fields_ok = checked.0;
        vlan_free = (λ other sv filled e n.
            vlan_conflict-none name other sv vals read.0 checked.1 filled e n);
      },
      checked.2,
    )

-- A `PUT` of a service that is answered with 200 had a valid name and only known options with valid
-- values. If it has a `vlan_id`, no other service of the configuration that was read has the same text
-- there; two texts of one number count as different. The file is then that configuration with the options
-- of the first section of that name replaced, or a new section last.
pub put_service-checked :
    (host : Host) (io_faults : Faults) (name : Text) (vals : Dict Text) (disk : Disk)
    → (handle_v1 host io_faults (put_service name (some vals)) disk).1.status ≡ 200
    → (f : File) × (load_stageneth io_faults disk ≡ some f)
      × IsPutService host name vals f
      × ((handle_v1 host io_faults (put_service name (some vals)) disk).0
          ≡ some (text (put_section (lit "service") name (replace_section_options vals) f)))
put_service-checked host io_faults name vals disk h =
    let saved = (handle_v1-saved host io_faults (put_service name (some vals)) disk).1 h in
    let put = put_service-Stores host name vals (load_stageneth io_faults disk) saved.0 saved.1 in
    (put.0, put.1, put.2, saved.2 ∙ ap (λ g. some (text g)) put.3)

delete_service-Stores :
    (host : Host) (name : Text) (file : Option File) (g : File)
    → Stores g (decide host (delete_service name) file)
    → (f : File) × (file ≡ some f)
      × (equal name (lit "mgmt") ≡ false)
      × (bound_by name (parse_config f).bindings ≡ none)
      × (any (is_service name) f ≡ true)
      × (g ≡ select (λ s. not (is_service name s)) f)
unfolding decide delete_decision delete_file binding_conflict equal
delete_service-Stores host name file g h =
    let kept = unless-Stores g (equal name (lit "mgmt")) 400 _ _ h in
    let read = loaded-Stores g (delete_file (lit "service") name) file kept.1 in
    let free = refuse_bound-Stores g name (bound_by name (parse_config read.0).bindings) _ read.2 in
    let found = when-Stores g (any (is_service name) read.0) 404 _ _ free.1 in
    (read.0, read.1, kept.0, free.0, found.0, sym (store-Stores g _ _ found.1))

-- A `DELETE` of a service that is answered with 200 was not of `mgmt`, and no binding referred to the
-- service. In the new file the service is gone, and each other service has the options that it had.
pub delete_service-checked :
    (host : Host) (io_faults : Faults) (name : Text) (disk : Disk)
    → (handle_v1 host io_faults (delete_service name) disk).1.status ≡ 200
    → (f : File) × (g : File) × (load_stageneth io_faults disk ≡ some f)
      × ((handle_v1 host io_faults (delete_service name) disk).0 ≡ some (text g))
      × (equal name (lit "mgmt") ≡ false)
      × ((bn : Text) (bv : Options)
          → lookup bn (parse_config f).bindings ≡ some bv
          → equal (get_text (lit "service") bv) name ≡ false)
      × ((n : Text)
          → lookup n (parse_config g).services
            ≡ (if equal name n then none else lookup n (parse_config f).services))
delete_service-checked host io_faults name disk h =
    let saved = (handle_v1-saved host io_faults (delete_service name) disk).1 h in
    let gone = delete_service-Stores host name (load_stageneth io_faults disk) saved.0 saved.1 in
    (
      gone.0,
      saved.0,
      gone.1,
      saved.2,
      gone.2,
      (λ bn bv e. bound_by-none name bn bv (parse_config gone.0).bindings gone.3 e),
      (λ n.
          parse_config-services saved.0 n
          ∙ ap (last_service n) gone.5
          ∙ last_service-select name n gone.0
          ∙ ap (λ o. if equal name n then none else o) (sym (parse_config-services gone.0 n))),
    )
