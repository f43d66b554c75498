-- ===== src/Import/Areas.antt =====
-- `isArea` of src/main.cpp, by the rules that it follows.
use gpsxdb.Prelude.{
  ◌≡◌, ◌≢◌, ◌↔◌, ◌⊎◌, inl, inr, refl, ◌∙◌, ap, Bool, true, false, Bool-cases, Option-cases, List,
  [], ◌∷◌, none, some, none-ne-some, Option, if◌then◌else◌, arith,
}
use gpsxdb.Wkb.Hex.{Text}
use gpsxdb.Nav.{Tags, same_text, among, find_tag}
use gpsxdb.Nav.Keys.{same_text_refl, same_text-eq}
use gpsxdb.Import.{any_key, any_value, implies_area, is_area}
use gpsxdb.Import.Names.{area_text, yes_text, no_text, linear_keys, linear_tag_values, area_keys}

abbrev pub IsAmong : Text → List Text → Type 0
IsAmong s [] = ⊥
IsAmong s (t ∷ ts) = (s ≡ t) ⊎ IsAmong s ts

-- Some tag has one of the keys.
abbrev pub HasKeyOf : List Text → Tags → Type 0
HasKeyOf keys [] = ⊥
HasKeyOf keys ((k, v) ∷ tags) = IsAmong k keys ⊎ HasKeyOf keys tags

-- Some key has the value that stands with it.
abbrev pub HasValueOf : Tags → List (Text × Text) → Type 0
HasValueOf tags [] = ⊥
HasValueOf tags ((k, v) ∷ pairs) = (find_tag k tags ≡ some v) ⊎ HasValueOf tags pairs

-- No tag of linear use, and some tag of area use.
abbrev pub ImpliesArea : Tags → Type 0
ImpliesArea tags =
    (¬ HasKeyOf linear_keys tags) × (¬ HasValueOf tags linear_tag_values) × HasKeyOf area_keys tags

-- The rules: a way that does not close is no area; else area=yes and area=no decide; else the other
-- tags do.
abbrev pub IsArea : Bool → Tags → Type 0
IsArea is_closed tags =
    (is_closed ≡ true)
    × ((find_tag area_text tags ≡ some yes_text)
        ⊎ ((find_tag area_text tags ≢ some no_text) × ImpliesArea tags))

among-IsAmong : (s : Text) (ts : List Text) → among s ts ≡ true → IsAmong s ts
unfolding among
among-IsAmong s [] h = ground arith
among-IsAmong s (t ∷ ts) h = elim (Bool-cases (same_text s t)) [
  | inl e ↦ inl (same_text-eq s t e)
  | inr e ↦ inr (among-IsAmong s ts (rw e at h))
]

IsAmong-among : (s : Text) (ts : List Text) → IsAmong s ts → among s ts ≡ true
unfolding among
IsAmong-among s [] h = absurd h
IsAmong-among s (t ∷ ts) (inl e) = rw (e, same_text_refl t) refl
IsAmong-among s (t ∷ ts) (inr h) = elim (Bool-cases (same_text s t)) [
  | inl e ↦ rw e refl
  | inr e ↦ rw e (IsAmong-among s ts h)
]

any_key-HasKeyOf : (keys : List Text) (tags : Tags) → any_key keys tags ≡ true → HasKeyOf keys tags
unfolding any_key
any_key-HasKeyOf keys [] h = ground arith
any_key-HasKeyOf keys ((k, v) ∷ tags) h = elim (Bool-cases (among k keys)) [
  | inl e ↦ inl (among-IsAmong k keys e)
  | inr e ↦ inr (any_key-HasKeyOf keys tags (rw e at h))
]

HasKeyOf-any_key : (keys : List Text) (tags : Tags) → HasKeyOf keys tags → any_key keys tags ≡ true
unfolding any_key
HasKeyOf-any_key keys [] h = absurd h
HasKeyOf-any_key keys ((k, v) ∷ tags) (inl i) = rw (IsAmong-among k keys i) refl
HasKeyOf-any_key keys ((k, v) ∷ tags) (inr h) = elim (Bool-cases (among k keys)) [
  | inl e ↦ rw e refl
  | inr e ↦ rw e (HasKeyOf-any_key keys tags h)
]

any_value-HasValueOf :
    (tags : Tags) (pairs : List (Text × Text)) → any_value tags pairs ≡ true → HasValueOf tags pairs
unfolding any_value
any_value-HasValueOf tags [] h = ground arith
any_value-HasValueOf tags ((k, v) ∷ pairs) h = elim (Option-cases (find_tag k tags)) [
  | inl e ↦ inr (any_value-HasValueOf tags pairs (rw (e, any_value) at h))
  | inr (u, e) ↦ elim (Bool-cases (same_text u v)) [
    | inl s ↦ inl (e ∙ ap some (same_text-eq u v s))
    | inr s ↦ inr (any_value-HasValueOf tags pairs (rw (e, s, any_value) at h))
  ]
]

HasValueOf-any_value :
    (tags : Tags) (pairs : List (Text × Text)) → HasValueOf tags pairs → any_value tags pairs ≡ true
unfolding any_value
HasValueOf-any_value tags [] h = absurd h
HasValueOf-any_value tags ((k, v) ∷ pairs) (inl e) = rw (e, any_value, same_text_refl v) refl
HasValueOf-any_value tags ((k, v) ∷ pairs) (inr h) = elim (Option-cases (find_tag k tags)) [
  | inl e ↦ rw (e, any_value) (HasValueOf-any_value tags pairs h)
  | inr (u, e) ↦ elim (Bool-cases (same_text u v)) [
    | inl s ↦ rw (e, any_value, s) refl
    | inr s ↦ rw (e, any_value, s) (HasValueOf-any_value tags pairs h)
  ]
]

untrue {ℓ} : {P : Type ℓ} (b : Bool) → (P → b ≡ true) → b ≡ false → ¬ P
untrue b f e p = ground (arith, e, f p)

implies_area_iff : (tags : Tags) → (implies_area tags ≡ true) ↔ ImpliesArea tags
unfolding implies_area
implies_area_iff tags =
    let key = HasKeyOf-any_key linear_keys tags in
    let value = HasValueOf-any_value tags linear_tag_values in
    elim (Bool-cases (any_key linear_keys tags)) [
      | inl e ↦ (
        λ h. absurd (ground (arith, rw (e, implies_area) at h)),
        λ (none_of, _, _). absurd (none_of (any_key-HasKeyOf linear_keys tags e)),
      )
      | inr e ↦ elim (Bool-cases (any_value tags linear_tag_values)) [
        | inl f ↦ (
          λ h. absurd (ground (arith, rw (e, f, implies_area) at h)),
          λ (_, none_of, _). absurd (none_of (any_value-HasValueOf tags linear_tag_values f)),
        )
        | inr f ↦ (
          λ h. (
            untrue (any_key linear_keys tags) key e,
            untrue (any_value tags linear_tag_values) value f,
            any_key-HasKeyOf area_keys tags (rw (e, f, implies_area) at h),
          ),
          λ (_, _, has). rw (e, f, implies_area) (HasKeyOf-any_key area_keys tags has),
        )
      ]
    ]

some_text : (u v : Text) → some u ≡ some v → same_text u v ≡ true
some_text u v e =
    let same : u ≡ v = ap (λ o. elim o [ none ↦ u | some t ↦ t ]) e in rw same (same_text_refl v)

-- What the tag `area` says, before the other rules.
by_area_tag :
    (value : Option Text) (rest : Bool) (Rules : Type 0)
    → (rest ≡ true) ↔ Rules
    → ((elim value [
      | none ↦ rest
      | some v ↦ if same_text v yes_text then true else if same_text v no_text then false else rest
    ])
        ≡ true)
      ↔ ((value ≡ some yes_text) ⊎ ((value ≢ some no_text) × Rules))
by_area_tag none rest Rules iff = (
  λ h. inr (λ e. none-ne-some no_text e, iff.0 h),
  λ r. elim r [ inl e ↦ absurd (none-ne-some yes_text e) | inr (_, rules) ↦ iff.1 rules ],
)
by_area_tag (some v) rest Rules iff = elim (Bool-cases (same_text v yes_text)) [
  | inl e ↦ (λ h. inl (ap some (same_text-eq v yes_text e)), λ r. rw e refl)
  | inr e ↦
      let not_yes : ¬ (some v ≡ some yes_text) =
        untrue (same_text v yes_text) (some_text v yes_text) e in
      elim (Bool-cases (same_text v no_text)) [
        | inl f ↦ (
          λ h. absurd (ground (arith, rw (e, f) at h)),
          λ r. elim r [
            | inl y ↦ absurd (not_yes y)
            | inr (n, _) ↦ absurd (n (ap some (same_text-eq v no_text f)))
          ],
        )
        | inr f ↦ (
          λ h. inr (untrue (same_text v no_text) (some_text v no_text) f, iff.0 (rw (e, f) at h)),
          λ r. elim r [ inl y ↦ absurd (not_yes y) | inr (_, rules) ↦ rw (e, f) (iff.1 rules) ],
        )
      ]
]

-- `isArea` follows the rules of `IsArea`.
pub is_area_iff :
    (is_closed : Bool) (tags : Tags) → (is_area is_closed tags ≡ true) ↔ IsArea is_closed tags
unfolding is_area
is_area_iff false tags = (λ h. absurd (ground (arith, h)), λ (h, _). absurd (ground (arith, h)))
is_area_iff true tags =
    let by_tag =
      by_area_tag (find_tag area_text tags) (implies_area tags) (ImpliesArea tags)
        (implies_area_iff tags) in
    (λ h. (refl, by_tag.0 h), λ (_, rules). by_tag.1 rules)
