-- ===== src/Render/Network/Dedup.antt =====
-- `servicePorts` of internal/render/render.go: every service has a port, and none twice.
use stageneth.Prelude.{
  Bool, true, false, not, ◌&&◌, ◌||◌, List, [], ◌∷◌, ◌++◌, Text, equal, equal_iff, if◌then◌else◌,
  member, ◌≡◌, ◌∙◌, refl, sym, arith, Bool-cases, inl, inr,
}
use stageneth.Stcfg.{Config, Options, sorted_bindings}
use stageneth.Render.{option, or_default, Available, fallback_iface}
use stageneth.Render.Network.{Ports, add_port, port_name, bound_ports, or_trunk, service_ports}

-- No text stands twice.
unfoldable pub distinct : List Text → Bool
distinct [] = true
distinct (p ∷ ps) = not (member p ps) && distinct ps

member-snoc : (k p : Text) (ps : List Text) → member k (ps ++ p ∷ []) ≡ (member k ps || equal p k)
unfolding member
member-snoc k p [] = ground arith
member-snoc k p (q ∷ ps) = ground (arith, member-snoc k p ps)

distinct-snoc :
    (p : Text) (ps : List Text)
    → distinct ps ≡ true
    → member p ps ≡ false
    → distinct (ps ++ p ∷ []) ≡ true
unfolding distinct member
distinct-snoc p [] d m = refl
distinct-snoc p (q ∷ ps) d m =
    ground (arith, member-snoc q p ps, distinct-snoc p ps, equal_iff p q, equal_iff q p)

-- `seen` has the ports, and they are distinct.
record IsTracked (t : Ports) : Type 0 where
  pub same : (k : Text) → member k t.seen ≡ member k t.ports
  pub once : distinct t.ports ≡ true

add_port-IsTracked : (p : Text) (t : Ports) → IsTracked t → IsTracked (add_port p t)
unfolding add_port
add_port-IsTracked p t h = elim (Bool-cases (member p t.seen)) [
  | inl e ↦ rw e h
  | inr e ↦ rw e (record {
    same = (λ k. unfold member in ground (arith, member-snoc k p t.ports, h.same k));
    once = distinct-snoc p t.ports h.once (sym (h.same p) ∙ e);
  })
]

choose-IsTracked :
    (b : Bool) (x y : Ports) → IsTracked x → IsTracked y → IsTracked (if b then x else y)
choose-IsTracked true x y p q = p
choose-IsTracked false x y p q = q

bound_ports-IsTracked :
    (name : Text) (svc : Options) (trunk_if : Text) (avail : Available) (t : Ports)
    (bs : List Options)
    → IsTracked t
    → IsTracked (bound_ports name svc trunk_if avail t bs)
unfolding bound_ports
bound_ports-IsTracked name svc trunk_if avail t [] h = h
bound_ports-IsTracked name svc trunk_if avail t (b ∷ bs) h =
    let iface = fallback_iface (or_default (option "interface" b) trunk_if) avail in
    bound_ports-IsTracked name svc trunk_if avail
      (if equal (option "service" b) name then add_port (port_name svc iface) t else t) bs
      (choose-IsTracked (equal (option "service" b) name) (add_port (port_name svc iface) t) t
        (add_port-IsTracked (port_name svc iface) t h) h)

abbrev pub has_port : List Text → Bool
has_port [] = false
has_port (p ∷ ps) = true

or_trunk-distinct :
    (svc : Options) (trunk_if : Text) (avail : Available) (ps : List Text)
    → distinct ps ≡ true
    → (has_port (or_trunk svc trunk_if avail ps) ≡ true)
      × (distinct (or_trunk svc trunk_if avail ps) ≡ true)
unfolding or_trunk distinct member
or_trunk-distinct svc trunk_if avail [] d = (refl, refl)
or_trunk-distinct svc trunk_if avail (p ∷ ps) d = (refl, d)

-- The bridge of every service has a port, and no port stands in it twice, however many bindings name
-- the same interface.
pub service_ports-distinct :
    (st : Config) (name : Text) (svc : Options) (trunk_if : Text) (avail : Available)
    → (has_port (service_ports st name svc trunk_if avail) ≡ true)
      × (distinct (service_ports st name svc trunk_if avail) ≡ true)
unfolding service_ports distinct member
service_ports-distinct st name svc trunk_if avail =
    or_trunk-distinct svc trunk_if avail
      (bound_ports name svc trunk_if avail (record { ports = []; seen = [] })
        (sorted_bindings st)).ports
      (bound_ports-IsTracked name svc trunk_if avail (record { ports = []; seen = [] })
        (sorted_bindings st) (record { same = (λ k. refl); once = refl })).once
