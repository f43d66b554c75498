-- ===== src/Nav/Utf8.antt =====
-- What `sanitizeTag` stores: at most 256 sequences of the form of UTF-8, without NUL.
use gpsxdb.Prelude.{
  ℕ, zero, suc, ◌-◌, ◌≤◌, ◌≡◌, ◌≢◌, refl, ap, true, Bool-cases, inl, inr, [], ◌∷◌, arith,
}
use gpsxdb.Wkb.Hex.{Text}
use gpsxdb.Nav.Sanitize.{
  lead_length, is_continuation, continues, is_kept, sanitize_from, sanitize_utf8, cut_length,
  cut_from, sanitize_tag,
}

-- `k` continuation bytes, then `n` sequences of one to four bytes, none of them a NUL: a leading byte
-- and as many continuation bytes as it asks for. Well-formed UTF-8 has this form; so have overlong
-- encodings, surrogates and numbers above 0x10ffff.
pub data Utf8Form : ℕ → ℕ → Text → Type 0 where
  done : Utf8Form 0 0 []
  more :
      {k n : ℕ} {c : ℕ} {s : Text}
      → is_continuation c ≡ true
      → Utf8Form k n s
      → Utf8Form (suc k) n (c ∷ s)
  lead :
      {k n : ℕ} {c : ℕ} {s : Text}
      → lead_length c ≡ suc k
      → c ≢ 0
      → Utf8Form k n s
      → Utf8Form 0 (suc n) (c ∷ s)

is_kept-true :
    (c : ℕ) (s : Text)
    → is_kept c s ≡ true
    → (lead_length c ≡ suc (lead_length c - 1)) × (c ≢ 0) × (continues (lead_length c - 1) s ≡ true)
unfolding is_kept
is_kept-true c s h = (ground arith, ground arith, ground arith)

is_kept-of :
    (k c : ℕ) (s : Text) → lead_length c ≡ suc k → c ≢ 0 → continues k s ≡ true → is_kept c s ≡ true
unfolding is_kept
is_kept-of k c s len ne h =
    let less : lead_length c - 1 ≡ k = omega (arith, len) in rw less (ground arith)

sanitize_from-Utf8Form :
    (k : ℕ) (s : Text) → continues k s ≡ true → (n : ℕ) × Utf8Form k n (sanitize_from k s)
unfolding sanitize_from continues
sanitize_from-Utf8Form zero [] h = (0, done)
sanitize_from-Utf8Form (suc k) [] h = ground arith
sanitize_from-Utf8Form (suc k) (c ∷ s) h = elim (Bool-cases (is_continuation c)) [
  | inl e ↦ let (n, u) = sanitize_from-Utf8Form k s (rw e at h) in (n, more e u)
  | inr e ↦ ground (arith, e, h)
]
sanitize_from-Utf8Form zero (c ∷ s) h = elim (Bool-cases (is_kept c s)) [
  | inl e ↦
      let (len, ne, cont) = is_kept-true c s e in
      let (n, u) = sanitize_from-Utf8Form (lead_length c - 1) s cont in
      (suc n, (rw (e, sanitize_from) (lead len ne u)))
  | inr e ↦ let (n, u) = sanitize_from-Utf8Form 0 s refl in (n, (rw (e, sanitize_from) u))
]

-- At a leading byte the cut counts what the sanitizing counted.
cut_length-lead_length : (k c : ℕ) → lead_length c ≡ suc k → cut_length c - 1 ≡ k
unfolding lead_length cut_length
cut_length-lead_length k c h = ground arith

cut_from-Utf8Form :
    (m k n : ℕ) (s : Text) → Utf8Form k n s → (j : ℕ) × (j ≤ m) × Utf8Form k j (cut_from m k s)
unfolding cut_from
cut_from-Utf8Form m k n s done = (0, omega arith, done)
cut_from-Utf8Form m (suc k) n (c ∷ s) (more e u) =
    let (j, le, v) = cut_from-Utf8Form m k n s u in (j, le, more e v)
cut_from-Utf8Form zero zero (suc n) (c ∷ s) (lead e ne u) = (0, omega arith, done)
cut_from-Utf8Form (suc m) zero (suc n) (c ∷ s) (lead {k = k} e ne u) =
    let (j, le, v) = cut_from-Utf8Form m k n s u in
    (suc j, omega arith, rw (cut_length-lead_length k c e) (lead e ne v))

-- Any text that `sanitizeTag` gives consists of at most 256 sequences of one to four bytes, without
-- NUL, each of which is a leading byte of UTF-8 with exactly the continuation bytes that it asks for.
pub sanitize_tag-Utf8Form : (s : Text) → (n : ℕ) × (n ≤ 256) × Utf8Form 0 n (sanitize_tag s)
unfolding sanitize_tag sanitize_utf8
sanitize_tag-Utf8Form s =
    let (n, u) = sanitize_from-Utf8Form 0 s (unfold continues in refl) in
    cut_from-Utf8Form 256 0 n (sanitize_from 0 s) u

continues-Utf8Form : (k n : ℕ) (s : Text) → Utf8Form k n s → continues k s ≡ true
unfolding continues
continues-Utf8Form k n s done = refl
continues-Utf8Form (suc k) n (c ∷ s) (more e u) = rw e (continues-Utf8Form k n s u)
continues-Utf8Form zero (suc n) (c ∷ s) (lead e ne u) = refl

sanitize_from_self : (k n : ℕ) (s : Text) → Utf8Form k n s → sanitize_from k s ≡ s
unfolding sanitize_from
sanitize_from_self k n s done = refl
sanitize_from_self (suc k) n (c ∷ s) (more e u) = ap (λ r. c ∷ r) (sanitize_from_self k n s u)
sanitize_from_self zero (suc n) (c ∷ s) (lead {k = k} e ne u) =
    let is : is_kept c s ≡ true = is_kept-of k c s e ne (continues-Utf8Form k n s u) in
    let less : lead_length c - 1 ≡ k = omega (arith, e) in
    rw (is, sanitize_from, less) (ap (λ r. c ∷ r) (sanitize_from_self k n s u))

cut_from_self : (m k n : ℕ) (s : Text) → n ≤ m → Utf8Form k n s → cut_from m k s ≡ s
unfolding cut_from
cut_from_self m k n s le done = refl
cut_from_self m (suc k) n (c ∷ s) le (more e u) = ap (λ r. c ∷ r) (cut_from_self m k n s le u)
cut_from_self zero zero (suc n) (c ∷ s) le (lead e ne u) = absurd (omega arith)
cut_from_self (suc m) zero (suc n) (c ∷ s) le (lead {k = k} e ne u) =
    rw (cut_length-lead_length k c e) (ap (λ r. c ∷ r) (cut_from_self m k n s (omega arith) u))

-- At most 256 sequences of the form of UTF-8, as those of well-formed text, without NUL bytes, are
-- stored as they are; so a second pass of `sanitizeTag` changes nothing.
pub sanitize_tag_self : (n : ℕ) (s : Text) → n ≤ 256 → Utf8Form 0 n s → sanitize_tag s ≡ s
unfolding sanitize_tag sanitize_utf8
sanitize_tag_self n s le u = rw (sanitize_from_self 0 n s u) (cut_from_self 256 0 n s le u)
