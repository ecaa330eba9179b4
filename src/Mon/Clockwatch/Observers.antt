-- ===== src/Mon/Clockwatch/Observers.antt =====
-- The observers of internal/mon/clockwatch.go by interface: the map `clockObs` of the collector. Which
-- sockets can be opened is an argument.
use stageneth.Prelude.{
  Bool, false, ◌&&◌, List, [], ◌∷◌, Option, none, some, Text, lit, equal, equal_iff, if◌then◌else◌,
  has_prefix, select, member, Dict, lookup, insert, select_entries, IsMap, lookup-insert,
  lookup-select_entries, ◌≡◌, refl, ◌∙◌, arith, Bool-cases, Option-cases, inl, inr, ap,
}
use stageneth.Mon.Clockwatch.{DomainStats, no_obs}

abbrev pub Observers : Type 0
Observers = Dict DomainStats

-- the zero value of the struct
abbrev pub no_stats : DomainStats
no_stats = record { v1 = no_obs; v2 = no_obs; v2_l2 = no_obs; gptp = no_obs }

-- the set `want`
unfoldable pub wanted : List Text → List Text
wanted names = select (λ name. has_prefix name (lit "br_")) names

abbrev pub open_observer : (Text → Bool) → Text → Observers → Option DomainStats → Observers
open_observer opens name obs none = if opens name then insert name no_stats obs else obs
open_observer opens name obs (some st) = obs

-- the second loop of `syncClockObservers`
unfoldable pub open_observers : (Text → Bool) → List Text → Observers → Observers
open_observers opens [] obs = obs
open_observers opens (name ∷ names) obs =
    open_observers opens names (open_observer opens name obs (lookup name obs))

-- `syncClockObservers`
unfoldable pub sync_clock_observers : (Text → Bool) → List Text → Observers → Observers
unfolding wanted open_observers
sync_clock_observers opens names obs =
    let want = wanted names in
    open_observers opens want (select_entries (λ name st. member name want) obs)

-- `stopClockObservers`, whose loop deletes every entry
unfoldable pub stop_clock_observers : Observers → Observers
stop_clock_observers obs = select_entries (λ name st. false) obs

-- what stands in the map for a wanted name
abbrev pub kept_or_opened : (Text → Bool) → Text → Option DomainStats → Option DomainStats
kept_or_opened opens name none = if opens name then some no_stats else none
kept_or_opened opens name (some st) = some st

kept_or_opened-again :
    (opens : Text → Bool) (name : Text) (o : Option DomainStats)
    → kept_or_opened opens name (kept_or_opened opens name o) ≡ kept_or_opened opens name o
kept_or_opened-again opens name none = elim (Bool-cases (opens name)) [
  | inl e ↦ rw e refl
  | inr e ↦ rw (e, e) refl
]
kept_or_opened-again opens name (some st) = refl

lookup-open_observer :
    (opens : Text → Bool) (name k : Text) (obs : Observers)
    → lookup k (open_observer opens name obs (lookup name obs))
      ≡ (if equal name k then kept_or_opened opens k (lookup k obs) else lookup k obs)
lookup-open_observer opens name k obs = elim (Option-cases (lookup name obs)) [
  | inl e ↦ elim (Bool-cases (opens name)) [
    | inl yes_opens ↦
        rw (e, yes_opens, lookup-insert) (ground (arith, e, yes_opens, equal_iff name k))
    | inr no_opens ↦ rw (e, no_opens) (ground (arith, e, no_opens, equal_iff name k))
  ]
  | inr (st, e) ↦ rw e (ground (arith, e, equal_iff name k))
]

lookup-open_observers :
    (opens : Text → Bool) (k : Text) (names : List Text) (obs : Observers)
    → lookup k (open_observers opens names obs)
      ≡ (if member k names then kept_or_opened opens k (lookup k obs) else lookup k obs)
unfolding open_observers member
lookup-open_observers opens k [] obs = refl
lookup-open_observers opens k (name ∷ names) obs =
    let next = open_observer opens name obs (lookup name obs) in
    lookup-open_observers opens k names next ∙ elim (Bool-cases (equal name k)) [
      | inl e ↦ elim (Bool-cases (member k names)) [
        | inl e' ↦ rw (lookup-open_observer, e, e', kept_or_opened-again) refl
        | inr e' ↦ rw (lookup-open_observer, e, e') refl
      ]
      | inr e ↦ rw (lookup-open_observer, e) refl
    ]

member-select :
    (p : Text → Bool) (k : Text) (names : List Text)
    → member k (select p names) ≡ (member k names && p k)
unfolding member select
member-select p k [] = refl
member-select p k (name ∷ names) = elim (Bool-cases (equal name k)) [
  | inl e ↦
      let same : p name ≡ p k = ap p ((equal_iff name k).0 e) in
      ground (arith, e, same, member-select p k names)
  | inr e ↦ ground (arith, e, member-select p k names)
]

-- After the collector has synchronised its observers with a list of interfaces, there is one for a name
-- only if the list has it and it is that of a service bridge: the one of before, with what it has
-- counted, or else a new one, if its socket could be opened.
pub lookup-sync_clock_observers :
    (opens : Text → Bool) (names : List Text) (obs : Observers) (k : Text)
    → IsMap obs
    → lookup k (sync_clock_observers opens names obs) ≡ (
        if member k names && has_prefix k (lit "br_")
        then kept_or_opened opens k (lookup k obs)
        else none)
unfolding sync_clock_observers wanted
lookup-sync_clock_observers opens names obs k is_map =
    let want = wanted names in
    let still = select_entries (λ name st. member name want) obs in
    let bridge : member k want ≡ (member k names && has_prefix k (lit "br_")) =
      member-select (λ name. has_prefix name (lit "br_")) k names in
    let kept = lookup-select_entries (λ name st. member name want) k obs is_map in
    lookup-open_observers opens k want still ∙ ground (arith, bridge, kept)
