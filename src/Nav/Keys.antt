-- ===== src/Nav/Keys.antt =====
-- Which keys a list of tags holds, and what the operations on it do to them.
use gpsxdb.Prelude.{
  ◌≡◌, refl, sym, Bool, true, false, not, ◌&&◌, ◌||◌, ◌==◌, ==_iff, if◌then◌else◌, Bool-cases, inl,
  inr, [], ◌∷◌, ◌++◌, none, some, arith, ◌∙◌, ap₂,
}
use gpsxdb.Wkb.Hex.{Text}
use gpsxdb.Nav.{Tags, same_text, find_tag, store, store_all, erase, set_value, erase_all}

abbrev pub has_key : Text → Tags → Bool
has_key k [] = false
has_key k ((j, v) ∷ tags) = if same_text j k then true else has_key k tags

pub same_text_refl : (s : Text) → same_text s s ≡ true
unfolding same_text
same_text_refl [] = refl
same_text_refl (c ∷ s) = rw ((==_iff c c).1 refl) (same_text_refl s)

pub same_text-eq : (s t : Text) → same_text s t ≡ true → s ≡ t
unfolding same_text
same_text-eq [] [] h = refl
same_text-eq [] (b ∷ t) h = ground arith
same_text-eq (a ∷ s) [] h = ground arith
same_text-eq (a ∷ s) (b ∷ t) h = elim (Bool-cases (a == b)) [
  | inl e ↦ ap₂ (λ x y. x ∷ y) ((==_iff a b).0 e) (same_text-eq s t (rw e at h))
  | inr e ↦ ground arith
]

pub same_text-apart :
    (i j k : Text) → same_text i j ≡ false → same_text i k ≡ true → same_text j k ≡ false
same_text-apart i j k apart e = elim (Bool-cases (same_text j k)) [
  | inl e' ↦
      let same : i ≡ j = same_text-eq i k e ∙ sym (same_text-eq j k e') in
      ground (arith, rw same at apart, same_text_refl j)
  | inr e' ↦ e'
]

pub has_key-find_tag : (k : Text) (tags : Tags) → find_tag k tags ≡ none → has_key k tags ≡ false
unfolding find_tag
has_key-find_tag k [] h = refl
has_key-find_tag k ((j, v) ∷ tags) h = elim (Bool-cases (same_text j k)) [
  | inl e ↦ ground arith
  | inr e ↦ rw e (has_key-find_tag k tags (rw e at h))
]

pub find_tag-has_key : (k v : Text) (tags : Tags) → find_tag k tags ≡ some v → has_key k tags ≡ true
unfolding find_tag
find_tag-has_key k v [] h = ground arith
find_tag-has_key k v ((j, u) ∷ tags) h = elim (Bool-cases (same_text j k)) [
  | inl e ↦ rw e
  | inr e ↦ rw e (find_tag-has_key k v tags (rw e at h))
]

pub has_key-erase :
    (k j : Text) (tags : Tags) → has_key k (erase j tags) ≡ (not (same_text j k) && has_key k tags)
unfolding erase
has_key-erase k j [] = ground arith
has_key-erase k j ((i, v) ∷ tags) = elim (Bool-cases (same_text i j)) [
  | inl e ↦
      let same : i ≡ j = same_text-eq i j e in
      rw e (rw same (ground (arith, has_key-erase k j tags)))
  | inr e ↦ rw e (ground (arith, has_key-erase k j tags, same_text-apart i j k e))
]

pub has_key-erase_all :
    (k : Text) (ex rows : Tags)
    → has_key k (erase_all ex rows) ≡ (not (has_key k ex) && has_key k rows)
unfolding erase_all
has_key-erase_all k [] rows = refl
has_key-erase_all k ((j, v) ∷ ex) rows =
    rw (has_key-erase_all k ex (erase j rows), has_key-erase k j rows) (ground arith)

pub has_key-append :
    (k : Text) (xs ys : Tags) → has_key k (xs ++ ys) ≡ (has_key k xs || has_key k ys)
has_key-append k [] ys = refl
has_key-append k ((j, v) ∷ xs) ys = ground (arith, has_key-append k xs ys)

pub has_key-set_value :
    (k j v : Text) (rows : Tags) → has_key k (set_value j v rows) ≡ has_key k rows
unfolding set_value
has_key-set_value k j v [] = refl
has_key-set_value k j v ((i, u) ∷ rows) = ground (arith, has_key-set_value k j v rows)

pub has_key-store :
    (k j v : Text) (m : Tags) → has_key k (store j v m) ≡ (same_text j k || has_key k m)
unfolding store
has_key-store k j v [] = ground arith
has_key-store k j v ((i, u) ∷ m) = elim (Bool-cases (same_text i j)) [
  | inl e ↦ let same : i ≡ j = same_text-eq i j e in rw e (rw same (ground arith))
  | inr e ↦ rw (e, has_key-store k j v m) (ground arith)
]

pub has_key-store_all :
    (k : Text) (rows m : Tags) → has_key k (store_all rows m) ≡ (has_key k rows || has_key k m)
unfolding store_all
has_key-store_all k [] m = refl
has_key-store_all k ((j, v) ∷ rows) m =
    rw (has_key-store_all k rows (store j v m), has_key-store k j v m) (ground arith)
