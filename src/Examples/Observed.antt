-- ===== src/Examples/Observed.antt =====
-- The observer of internal/mon/clockwatch.go at concrete frames, and a machine that runs its filter.
use stageneth.Prelude.{
  ℕ, zero, suc, ◌+◌, ◌*◌, ◌%◌, Bool, true, List, [], ◌∷◌, ◌++◌, none, some, lit, if◌then◌else◌, leb,
  ◌==◌, length, get_elem?, drop, replicate, lookup, IsMap, member, has_prefix, ◌&&◌, ◌≡◌, refl, ap,
  ◌∙◌, arith,
}
use stageneth.Mon.Ptp.{byte_at, uint16_at}
use stageneth.Mon.Clockwatch.{RateOps, handle_frame}
use stageneth.Mon.Clockwatch.Filter.{
  SockFilter, f, Machine, ldh_abs, ldb_abs, ldh_ind, ldx_msh, jeq, ret_k,
}
use stageneth.Mon.Clockwatch.Dropped.{handle_frame-ptp_bpf}
use stageneth.Mon.Clockwatch.Tally.{AllTallied, observe, observe-Tallied}
use stageneth.Mon.Clockwatch.Observers.{
  Observers, no_stats, sync_clock_observers, kept_or_opened, lookup-sync_clock_observers,
}

-- what each instruction of a program gives for a frame, from the accumulator and the index register on
abbrev Verdicts : Type 0
Verdicts = List (ℕ → ℕ → ℕ)

abbrev nth : ℕ → Verdicts → ℕ → ℕ → ℕ
nth i [] a x = 0
nth zero (v ∷ vs) a x = v a x
nth (suc i) (v ∷ vs) a x = nth i vs a x

abbrev step : List ℕ → SockFilter → Verdicts → ℕ → ℕ → ℕ
step b i next a x =
    if i.code == ldh_abs
    then (if leb (i.k + 2) (length b) then nth 0 next (uint16_at i.k b) x else 0)
    else if i.code == ldb_abs
    then (if leb (i.k + 1) (length b) then nth 0 next (byte_at i.k b) x else 0)
    else if i.code == ldh_ind
    then (if leb (x + i.k + 2) (length b) then nth 0 next (uint16_at (x + i.k) b) x else 0)
    else if i.code == ldx_msh
    then (if leb (i.k + 1) (length b) then nth 0 next a (byte_at i.k b % 16 * 4) else 0)
    else if i.code == jeq
    then nth (if a == i.k then i.jt else i.jf) next a x
    else i.k

abbrev verdicts : List ℕ → List SockFilter → Verdicts
verdicts b [] = []
verdicts b (i ∷ prog) = let next = verdicts b prog in step b i next ∷ next

nth-drop : (n i : ℕ) (vs : Verdicts) (a x : ℕ) → nth i (drop n vs) a x ≡ nth (n + i) vs a x
nth-drop zero i vs a x = ap (λ j. nth j vs a x) (omega arith)
nth-drop (suc n) i [] a x = nothing i
  where
    nothing : (j : ℕ) → nth j [] a x ≡ 0
    nothing zero = refl
    nothing (suc j) = refl
nth-drop (suc n) i (v ∷ vs) a x =
    let next : suc (n + i) ≡ suc n + i = omega arith in
    nth-drop n i vs a x ∙ ap (λ j. nth j (v ∷ vs) a x) next

nth-verdicts :
    (b : List ℕ) (prog : List SockFilter) (pc a x : ℕ) (i : SockFilter)
    → get_elem? prog pc ≡ some i
    → nth pc (verdicts b prog) a x ≡ step b i (drop (suc pc) (verdicts b prog)) a x
nth-verdicts b [] pc a x i h = cc h
nth-verdicts b (j ∷ prog) zero a x i h =
    let same : j ≡ i = cc h in ap (λ k. step b k (verdicts b prog) a x) same
nth-verdicts b (j ∷ prog) (suc pc) a x i h = nth-verdicts b prog pc a x i h

-- the next instruction
nth-next : (pc : ℕ) (vs : Verdicts) (a x : ℕ) → nth 0 (drop (suc pc) vs) a x ≡ nth (suc pc) vs a x
nth-next pc vs a x =
    let next : suc pc + 0 ≡ suc pc = omega arith in
    nth-drop (suc pc) 0 vs a x ∙ ap (λ j. nth j vs a x) next

if-same : (c : Bool) (u v : ℕ) → u ≡ v → (if c then u else 0) ≡ (if c then v else 0)
if-same c u v h = ap (λ w. if c then w else 0) h

abbrev machine : Machine
machine = record {
  exec = λ prog b r. nth r.pc (verdicts b prog) r.a r.x;
  load_half = λ prog b pc a x t e k h.
      nth-verdicts b prog pc a x (f ldh_abs t e k) h
      ∙ if-same (leb (k + 2) (length b)) _ _ (nth-next pc (verdicts b prog) (uint16_at k b) x);
  load_byte = λ prog b pc a x t e k h.
      nth-verdicts b prog pc a x (f ldb_abs t e k) h
      ∙ if-same (leb (k + 1) (length b)) _ _ (nth-next pc (verdicts b prog) (byte_at k b) x);
  load_indexed = λ prog b pc a x t e k h.
      nth-verdicts b prog pc a x (f ldh_ind t e k) h
      ∙ if-same (leb (x + k + 2) (length b)) _ _
          (nth-next pc (verdicts b prog) (uint16_at (x + k) b) x);
  load_header = λ prog b pc a x t e k h.
      nth-verdicts b prog pc a x (f ldx_msh t e k) h
      ∙ if-same (leb (k + 1) (length b)) _ _
          (nth-next pc (verdicts b prog) a (byte_at k b % 16 * 4));
  jump_equal = λ prog b pc a x t e k h.
      nth-verdicts b prog pc a x (f jeq t e k) h
      ∙ nth-drop (suc pc) (if a == k then t else e) (verdicts b prog) a x;
  return_constant = λ prog b pc a x t e k h. nth-verdicts b prog pc a x (f ret_k t e k) h;
}

abbrev rates : RateOps
rates = record { per_second = λ dt. dt; is_zero = λ hz. hz == 0; smooth = λ hz rate. rate }

-- an ARP request, which the filter drops
abbrev arp : List ℕ
arp = replicate 12 0 ++ (0x08 ∷ 0x06 ∷ replicate 46 0)

handle_frame-ptp_bpf_example : handle_frame rates arp 5 no_stats ≡ no_stats
handle_frame-ptp_bpf_example = handle_frame-ptp_bpf machine rates arp 5 no_stats refl

-- a sync of 802.1AS, from 00:00:00:00:00:00
abbrev sync : List ℕ
sync = replicate 12 0 ++ (0x88 ∷ 0xf7 ∷ 0x10 ∷ 0x02 ∷ replicate 42 0)

no_stats-AllTallied : AllTallied no_stats
no_stats-AllTallied =
    ((λ h. refl, λ h. cc h), (λ h. refl, λ h. cc h), (λ h. refl, λ h. cc h), (λ h. refl, λ h. cc h))

observe-Tallied_example :
    AllTallied (observe rates ((sync, 5) ∷ (arp, 6) ∷ (sync, 7) ∷ []) no_stats)
observe-Tallied_example =
    observe-Tallied rates ((sync, 5) ∷ (arp, 6) ∷ (sync, 7) ∷ []) no_stats no_stats-AllTallied

abbrev running : Observers
running = (lit "br_audio", no_stats) ∷ (lit "br_light", no_stats) ∷ []

running-IsMap : IsMap running
unfolding lookup stageneth.Prelude.equal
running-IsMap = (refl, (refl, tt))

lookup-sync_clock_observers_example :
    lookup (lit "br_light") (sync_clock_observers (λ name. true) (lit "br_audio" ∷ []) running) ≡ (
      if member (lit "br_light") (lit "br_audio" ∷ []) && has_prefix (lit "br_light") (lit "br_")
      then kept_or_opened (λ name. true) (lit "br_light") (lookup (lit "br_light") running)
      else none)
lookup-sync_clock_observers_example =
    lookup-sync_clock_observers (λ name. true) (lit "br_audio" ∷ []) running (lit "br_light")
      running-IsMap
