-- ===== src/Examples/RolledBack.antt =====
-- `SaveLastGood` and `Rollback` of internal/engine/engine.go at one system.
use stageneth.Prelude.{
  true, false, [], ◌∷◌, none, some, Text, lit, equal, equal_iff, lookup, insert, IsMap, keys, ◌≡◌,
  refl, subst, Bool-cases, inl, inr, lookup-insert, member, any, has_prefix,
}
use stageneth.Engine.Disk.{Files, Engine, Snapshot}
use stageneth.Engine.LastGood.{
  IndexFormat, index_of, last_good_dir, save_last_good, rollback, rolled_back,
}
use stageneth.Engine.LastGood.Laws.{put_back, no_faults, rollback-save_last_good}
use stageneth.Engine.LastGood.Laws.Kept.{Apart, inside}

abbrev system : Engine
system = record {
  config_dir = lit "/etc/config";
  manifest_path = lit "/etc/sn/m.json";
  rsyslog_conf = lit "/etc/rsyslog.conf";
  avail = [];
}

abbrev network : Text
network = lit "/etc/config/network"

-- a file that was there, and one that was not
abbrev snap : Snapshot
snap = (network, some (lit "good")) ∷ (lit "/etc/config/dhcp", none) ∷ []

-- a format for one index
abbrev one_format : IndexFormat
one_format = record { encode = λ m. lit "{}"; decode = λ t. some (index_of snap []) }

abbrev before : Files
before = (network, lit "good") ∷ []

abbrev saved : Files
saved = (save_last_good one_format system no_faults snap before).0

abbrev later : Files
later = insert network (lit "broken") saved

snap-Apart : Apart (last_good_dir system) snap
unfolding member stageneth.Engine.LastGood.base_name any equal has_prefix last_good_dir
    stageneth.Engine.LastGood.dir_name
snap-Apart = (refl, refl, refl, (refl, refl, refl, tt))

saved-ok : (save_last_good one_format system no_faults snap before).1 ≡ true
unfolding save_last_good last_good_dir stageneth.Engine.LastGood.dir_name any
    stageneth.Engine.LastGood.keep_files stageneth.Engine.LastGood.save_index
saved-ok = refl

before-IsMap : IsMap before
unfolding lookup
before-IsMap = (refl, tt)

network-outside : inside (last_good_dir system) network ≡ false
unfolding has_prefix last_good_dir stageneth.Engine.LastGood.dir_name any
network-outside = refl

later-same : (p : Text) → inside (last_good_dir system) p ≡ true → lookup p later ≡ lookup p saved
later-same p within_dir = elim (Bool-cases (equal network p)) [
  | inl e ↦ cc (
    within_dir,
    subst (λ q. inside (last_good_dir system) q ≡ false) ((equal_iff network p).0 e)
        network-outside,
  )
  | inr e ↦ rw (lookup-insert, e) refl
]

rollback-save_last_good_example :
    ((p : Text)
      → lookup p (rollback one_format system no_faults later).0
        ≡ put_back (lookup p snap) (lookup p later))
    × ((rollback one_format system no_faults later).1 ≡ rolled_back (keys snap) [])
rollback-save_last_good_example =
    rollback-save_last_good one_format system no_faults snap before later refl snap-Apart
      before-IsMap saved-ok later-same
