-- ===== src/Api/Ntp/Quotes.antt =====
-- What a request to internal/api/ntp.go puts between quotes stays there.
use stageneth.Prelude.{
  ℕ, suc, ◌+◌, Bool, true, false, not, ◌||◌, List, [], ◌∷◌, ◌++◌, Text, lit, is_empty, ltb,
  if◌then◌else◌, ◌==◌, ==_iff, &&_split, all, any, All, ◌≡◌, refl, arith, Bool-cases, ◌⊎◌, inl, inr,
  byte_len, trim_space,
}
use stageneth.Api.Raw.{Commands, batch, invalid, prepend}
use stageneth.Api.Raw.Lines.{IsOneLine, append-IsOneLine}
use stageneth.Api.Ntp.{
  NtpRequest, host_char, zone_char, ntp_host_re, ntp_tz_re, setting, server_commands, flag, zone_of,
  setting_commands, ntp_commands,
}

-- the number of single quotes in a text
unfoldable pub quotes : Text → ℕ
quotes [] = 0
quotes (c ∷ s) = let n = quotes s in if c == 39 then suc n else n

quotes-append : (s t : Text) → quotes (s ++ t) ≡ quotes s + quotes t
unfolding quotes
quotes-append [] t = omega arith
quotes-append (c ∷ s) t = ground (arith, quotes-append s t)

-- A text with neither a line feed nor a single quote.
abbrev IsPlain : Text → Type 0
IsPlain s = IsOneLine s × (quotes s ≡ 0)

-- One line, with no quotes or with one pair.
abbrev pub IsDirective : Text → Type 0
IsDirective s = IsOneLine s × ((quotes s ≡ 0) ⊎ (quotes s ≡ 2))

-- The directives, if the request is accepted, are such lines.
abbrev pub AreDirectives : Commands → Type 0
AreDirectives (batch cs) = All IsDirective cs
AreDirectives (invalid m) = Unit

other : (p : ℕ → Bool) (k c : ℕ) → p k ≡ false → p c ≡ true → (c == k) ≡ false
other p k c n h = elim (Bool-cases (c == k)) [ inl e ↦ cc ((==_iff c k).0 e, n, h) | inr e ↦ e ]

any-all :
    (p : ℕ → Bool) (k : ℕ) → p k ≡ false → (s : Text) → all p s ≡ true → any (λ c. c == k) s ≡ false
unfolding all any
any-all p k n [] h = refl
any-all p k n (c ∷ s) h =
    let both = &&_split (p c) (all p s) h in rw (other p k c n both.0, any-all p k n s both.1) refl

quotes-any : (s : Text) → any (λ c. c == 39) s ≡ false → quotes s ≡ 0
unfolding any quotes
quotes-any [] h = refl
quotes-any (c ∷ s) h = ground (arith, quotes-any s)

all-IsPlain : (p : ℕ → Bool) → p 10 ≡ false → p 39 ≡ false → (s : Text) → all p s ≡ true → IsPlain s
all-IsPlain p n q s h = (any-all p 10 n s h, quotes-any s (any-all p 39 q s h))

flag-IsPlain : (b : Bool) → IsPlain (flag b)
unfolding any quotes
flag-IsPlain true = (refl, refl)
flag-IsPlain false = (refl, refl)

quotes-setting : (key val : Text) → quotes key ≡ 0 → quotes val ≡ 0 → quotes (setting key val) ≡ 2
quotes-setting key val k v =
    rw
      (
        quotes-append key (lit "='" ++ (val ++ lit "'")),
        k,
        quotes-append (lit "='") (val ++ lit "'"),
        quotes-append val (lit "'"),
        v,
      )
      (unfold quotes in refl)

quoted-IsDirective : (key val : Text) → IsPlain key → IsPlain val → IsDirective (setting key val)
quoted-IsDirective key val k v = (
  append-IsOneLine key (lit "='" ++ (val ++ lit "'")) k.0 (
      append-IsOneLine (lit "='") (val ++ lit "'") (unfold any in refl)
        (append-IsOneLine val (lit "'") v.0 (unfold any in refl))),
  inr (quotes-setting key val k.1 v.1),
)

prepend-AreDirectives :
    (cs : List Text) (d : Commands)
    → All IsDirective cs
    → AreDirectives d
    → AreDirectives (prepend cs d)
prepend-AreDirectives cs (invalid m) p q = tt
prepend-AreDirectives [] (batch ds) p q = q
prepend-AreDirectives (c ∷ cs) (batch ds) p q = (p.0, prepend-AreDirectives cs (batch ds) p.1 q)

if-AreDirectives :
    (b : Bool) (c d : Commands)
    → AreDirectives c
    → (b ≡ false → AreDirectives d)
    → AreDirectives (if b then c else d)
if-AreDirectives true c d p h = p
if-AreDirectives false c d p h = h refl

accepted : (a b : Bool) → (a || not b) ≡ false → b ≡ true
accepted a b h = ground arith

server-IsDirective :
    (s : Text) → ntp_host_re s ≡ true → IsDirective (setting (lit "add_list system.ntp.server") s)
server-IsDirective s h =
    let host = &&_split (not (is_empty s)) (all host_char s) (unfold ntp_host_re in h) in
    quoted-IsDirective (lit "add_list system.ntp.server") s (unfold any quotes in (refl, refl))
      (all-IsPlain host_char refl refl s host.1)

server-AreDirectives : (servers : List Text) → AreDirectives (server_commands servers)
unfolding server_commands
server-AreDirectives [] = tt
server-AreDirectives (given ∷ servers) =
    let s = trim_space given in
    if-AreDirectives (is_empty s) _ _ (server-AreDirectives servers) (λ _.
      if-AreDirectives (ltb 253 (byte_len s) || not (ntp_host_re s))
        (invalid (lit "invalid server: " ++ s)) _ tt
        (λ ok.
          prepend-AreDirectives (setting (lit "add_list system.ntp.server") s ∷ [])
            (server_commands servers)
            (server-IsDirective s (accepted (ltb 253 (byte_len s)) (ntp_host_re s) ok), tt)
            (server-AreDirectives servers)))

settings-AreDirectives :
    (req : NtpRequest) (zone : Text)
    → ntp_tz_re zone ≡ true
    → All IsDirective (setting_commands req zone)
settings-AreDirectives req zone h =
    let chars = &&_split (not (is_empty zone)) (all zone_char zone) (unfold ntp_tz_re in h) in
    (
      (unfold any quotes in (refl, inl refl)),
      (
        quoted-IsDirective (lit "set system.ntp.enabled") (flag req.enabled)
            (unfold any quotes in (refl, refl)) (flag-IsPlain req.enabled),
        (
          quoted-IsDirective (lit "set system.ntp.enable_server") (flag req.enable_server)
              (unfold any quotes in (refl, refl)) (flag-IsPlain req.enable_server),
          (
            (unfold any quotes in (refl, inl refl)),
            (
              quoted-IsDirective (lit "set system.@system[0].timezone") zone
                  (unfold any quotes in (refl, refl))
                  (all-IsPlain zone_char refl refl zone chars.1),
              tt,
            ),
          ),
        ),
      ),
    )

-- Whatever a request to set the time service holds, it is refused, or each directive for `uci batch` is
-- one line, and its single quotes are none or one pair: no server and no time zone closes its quotes,
-- starts another directive or splits its own.
pub ntp_commands-AreDirectives : (req : NtpRequest) → AreDirectives (ntp_commands req)
unfolding ntp_commands
ntp_commands-AreDirectives req =
    let zone = zone_of req.timezone in
    if-AreDirectives (ltb 64 (byte_len zone) || not (ntp_tz_re zone))
      (invalid (lit "invalid timezone")) _ tt
      (λ ok.
        prepend-AreDirectives (setting_commands req zone) (server_commands req.servers)
          (settings-AreDirectives req zone (accepted (ltb 64 (byte_len zone)) (ntp_tz_re zone) ok))
          (server-AreDirectives req.servers))
