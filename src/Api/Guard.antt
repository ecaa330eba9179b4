-- ===== src/Api/Guard.antt =====
-- `requireTech` of internal/api/common.go in front of the handlers of internal/api/v1.go. The session
-- is found by the identifier in the cookie.
use stageneth.Prelude.{
  ℕ, ◌≤◌, true, not, Option, none, some, Text, lit, equal, if◌then◌else◌, lookup, ◌≡◌, ◌≢◌, refl,
  ◌∙◌, arith, Bool-cases, inl, inr,
}
use stageneth.Auth.Users.{Disk, Faults}
use stageneth.Auth.Sessions.{Session, Store, expired, get}
use stageneth.Auth.Sessions.Laws.{get_cases, get_expired}
use stageneth.Api.{Host}
use stageneth.Api.V1.{Reply, Request, handle_v1}

-- What the daemon keeps: its sessions, and the configuration file.
pub record State : Type 0 where
  pub sessions : Store
  pub disk : Disk

-- `requireTech` behind the lookup of the session
unfoldable pub with_session :
    Host → Faults → Request → Disk → Store × Option Session → State × Reply
with_session host io_faults req disk (s, none) = (
  record { sessions = s; disk = disk },
  record { status = 401; message = lit "authentication required" },
)
with_session host io_faults req disk (s, some se) =
    let (after, reply) = handle_v1 host io_faults req disk in
    if not (equal se.role (lit "tech"))
    then (
      record { sessions = s; disk = disk },
      record { status = 403; message = lit "tech role required" },
    )
    else (record { sessions = s; disk = after }, reply)

-- a request that changes the configuration, as `Register` guards it
unfoldable pub guarded_v1 : Host → Faults → Text → ℕ → ℕ → Request → State → State × Reply
unfolding with_session
guarded_v1 host io_faults id now later req st =
    with_session host io_faults req st.disk (get id now later st.sessions)

with_session-changed :
    (host : Host) (io_faults : Faults) (req : Request) (disk : Disk) (got : Store × Option Session)
    → (with_session host io_faults req disk got).0.disk ≢ disk
    → (se : Session) × (got.1 ≡ some se) × (equal se.role (lit "tech") ≡ true)
unfolding with_session
with_session-changed host io_faults req disk (s, none) h = elim (h refl) [ ]
with_session-changed host io_faults req disk (s, some se) h =
    elim (Bool-cases (equal se.role (lit "tech"))) [
      | inl tech ↦ (se, refl, tech)
      | inr other ↦ elim (h (rw other refl)) [ ]
    ]

get-live :
    (id : Text) (now later : ℕ) (s : Store) (slid : Session)
    → (get id now later s).1 ≡ some slid
    → (se : Session) × (lookup id s ≡ some se) × (se.role ≡ slid.role) × (now ≤ se.expires)
get-live id now later s slid h = elim (get_cases id now later s) [
  | inl gone ↦ cc (gone, h)
  | inr (se, found, kept) ↦ elim (Bool-cases (expired now se)) [
    | inl late ↦ cc ((get_expired id now later s se found (ground (arith, late))).0, h)
    | inr live ↦ (se, found, cc (kept, h), ground (arith, live))
  ]
]

-- A request to the handlers of api/v1.go changes the configuration file only with the identifier of a
-- session that the store holds, that has not expired, and whose role is `tech`.
pub guarded_v1-changed :
    (host : Host) (io_faults : Faults) (id : Text) (now later : ℕ) (req : Request) (st : State)
    → (guarded_v1 host io_faults id now later req st).0.disk ≢ st.disk
    → (se : Session) × (lookup id st.sessions ≡ some se)
      × (se.role ≡ lit "tech")
      × (now ≤ se.expires)
guarded_v1-changed host io_faults id now later req st h =
    let got =
      with_session-changed host io_faults req st.disk (get id now later st.sessions)
        (unfold guarded_v1 in h) in
    let live = get-live id now later st.sessions got.0 got.1 in
    (live.0, live.1, live.2 ∙ (stageneth.Prelude.equal_iff got.0.role (lit "tech")).0 got.2, live.3)
