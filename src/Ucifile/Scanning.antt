-- ===== src/Ucifile/Scanning.antt =====
-- What `splitArgs` does on each kind of token that the printer of internal/ucifile/ucifile.go emits.
use stageneth.Prelude.{
  ℕ, true, false, List, [], ◌∷◌, ◌++◌, Text, is_empty, any, ◌≡◌, refl, ◌∙◌, ap, arith, append-nil,
  append_assoc, is_space, is_control, ◌==◌, Bool-cases, inl, inr,
}
use stageneth.Ucifile.Reader.{Scan, scan, scan_step}
use stageneth.Ucifile.Printer.{unsafe_ident, clean_char, clean, escape, quote, ident_token}

abbrev pub between : List Text → Scan
between o = record { out = o; buf = []; quote = 0; in_tok = false }

abbrev pub inside : List Text → Text → Scan
inside o b = record { out = o; buf = b; quote = 0; in_tok = true }

abbrev quoted : List Text → Text → Scan
quoted o b = record { out = o; buf = b; quote = b'\''; in_tok = true }

scan-escape :
    (o : List Text) (b v rest : Text)
    → scan (quoted o b) (escape v ++ (b'\'' ∷ rest)) ≡ scan (inside o (b ++ v)) rest
unfolding scan escape
scan-escape o b [] rest = rw append-nil
scan-escape o b (c ∷ v) rest = elim (Bool-cases (c == b'\'')) [
  | inl e ↦ ground (arith, scan-escape o (b ++ c ∷ []) v rest, append_assoc b (c ∷ []) v)
  | inr e ↦ ground (arith, scan-escape o (b ++ c ∷ []) v rest, append_assoc b (c ∷ []) v)
]

pub scan-quote :
    (o : List Text) (v rest : Text)
    → scan (between o) (quote v ++ rest) ≡ scan (inside o (clean v)) rest
unfolding quote
scan-quote o v rest = rw append_assoc (unfold scan in scan-escape o [] (clean v) rest)

-- no quote, no white space, no control character
abbrev pub IsBare : Text → Type 0
IsBare s = unsafe_ident s ≡ false

pub IsBare-cons : (c : ℕ) (s : Text) → IsBare (c ∷ s) → IsBare s
unfolding unsafe_ident any
IsBare-cons c s h = ground arith

step-bare :
    (o : List Text) (b : Text) (c : ℕ) (s : Text)
    → IsBare (c ∷ s)
    → scan_step (inside o b) c ≡ inside o (b ++ c ∷ [])
unfolding scan_step unsafe_ident any is_space
step-bare o b c s h = ground arith

scan-bare :
    (o : List Text) (b s rest : Text)
    → IsBare s
    → scan (inside o b) (s ++ rest) ≡ scan (inside o (b ++ s)) rest
unfolding scan
scan-bare o b [] rest h = rw append-nil
scan-bare o b (c ∷ s) rest h =
    ap (λ t. scan t (s ++ rest)) (unfold scan_step in step-bare o b c s h)
    ∙ scan-bare o (b ++ c ∷ []) s rest (IsBare-cons c s h)
    ∙ ap (λ u. scan (inside o u) rest) (append_assoc b (c ∷ []) s)

clean_char-bare : (c : ℕ) (s : Text) → IsBare (c ∷ s) → clean_char c ≡ c
unfolding clean_char unsafe_ident any is_control
clean_char-bare c s h = ground arith

pub clean-bare : (s : Text) → IsBare s → clean s ≡ s
clean-bare [] h = refl
clean-bare (c ∷ s) h = cc (clean_char-bare c s h, clean-bare s (IsBare-cons c s h))

first-bare :
    (o : List Text) (c : ℕ) (s : Text)
    → IsBare (c ∷ s)
    → scan_step (between o) c ≡ inside o (c ∷ [])
unfolding scan_step unsafe_ident any is_space
first-bare o c s h = ground arith

scan_first :
    (o : List Text) (c : ℕ) (s rest : Text)
    → IsBare (c ∷ s)
    → scan (between o) (c ∷ (s ++ rest)) ≡ scan (inside o (c ∷ s)) rest
unfolding scan
scan_first o c s rest h =
    ap (λ t. scan t (s ++ rest)) (unfold scan_step in first-bare o c s h)
    ∙ scan-bare o (c ∷ []) s rest (IsBare-cons c s h)

-- A token that is not empty is read back with its line breaks replaced.
pub scan-ident_token :
    (o : List Text) (s rest : Text)
    → is_empty s ≡ false
    → scan (between o) (ident_token s ++ rest) ≡ scan (inside o (clean s)) rest
unfolding ident_token
scan-ident_token o [] rest e = cc
scan-ident_token o (c ∷ s) rest e = elim (Bool-cases (unsafe_ident (c ∷ s))) [
  | inl h ↦ rw h (scan-quote o (c ∷ s) rest)
  | inr h ↦ rw (h, clean-bare (c ∷ s) h) (scan_first o c s rest h)
]
