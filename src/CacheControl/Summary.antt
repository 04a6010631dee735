-- ===== src/CacheControl/Summary.antt =====
-- The one pass of `parse_values` of cache_control.rs and the searches by the name of a directive.
use Prim.Native.String.{String}
use biei.Prelude.{
  ℕ, ◌≡◌, refl, ap, ◌∙◌, inl, inr, min, Bool, true, false, List, [], ◌∷◌, ◌++◌, map, filter, any,
  Option, none, some, if◌then◌else◌, Bool-cases, list_Eq, nat_Eq, eqb→eq,
}
use biei.CacheControl.{
  codes, to_ascii_lowercase, Directive, name_eq, directives, or_zero, value_seconds, delta_seconds,
  ParsedCacheControl, no_control, merge_conservative, apply_directive, apply_directives,
  apply_values, parse_values, all_directives, least, least_from, conservative_delta_seconds_values,
}

-- A flag after the directives, and a number of seconds.
abbrev flag : List ℕ → Bool → List Directive → Bool
flag name b [] = b
flag name b (d ∷ rest) = flag name (if name_eq d name then true else b) rest

abbrev seconds : List ℕ → Option ℕ → List Directive → Option ℕ
seconds name n [] = n
seconds name n (d ∷ rest) =
    seconds name (if name_eq d name then merge_conservative n (delta_seconds d) else n) rest

-- Every field after the directives, on its own.
abbrev fields : ParsedCacheControl → List Directive → ParsedCacheControl
fields c ds = record {
  no_store = flag (codes "no-store") c.no_store ds;
  no_cache = flag (codes "no-cache") c.no_cache ds;
  is_private = flag (codes "private") c.is_private ds;
  must_revalidate = flag (codes "must-revalidate") c.must_revalidate ds;
  proxy_revalidate = flag (codes "proxy-revalidate") c.proxy_revalidate ds;
  no_transform = flag (codes "no-transform") c.no_transform ds;
  immutable = flag (codes "immutable") c.immutable ds;
  max_age = seconds (codes "max-age") c.max_age ds;
  s_maxage = seconds (codes "s-maxage") c.s_maxage ds;
  stale_while_revalidate = seconds (codes "stale-while-revalidate") c.stale_while_revalidate ds;
}

abbrev IsAlone : ParsedCacheControl → Directive → Type 0
IsAlone c d = apply_directive c d ≡ fields c (d ∷ [])

lower_name :
    (d : Directive) (name : List ℕ)
    → name_eq d name ≡ true
    → map to_ascii_lowercase d.name ≡ map to_ascii_lowercase name
unfolding name_eq
lower_name d name h = eqb→eq (map to_ascii_lowercase d.name) (map to_ascii_lowercase name) h

-- The directive has none of the names that the policy reads.
abbrev IsUnknown : Directive → Type 0
IsUnknown d =
    (name_eq d (codes "no-store") ≡ false)
    × (name_eq d (codes "no-cache") ≡ false)
    × (name_eq d (codes "private") ≡ false)
    × (name_eq d (codes "must-revalidate") ≡ false)
    × (name_eq d (codes "proxy-revalidate") ≡ false)
    × (name_eq d (codes "no-transform") ≡ false)
    × (name_eq d (codes "immutable") ≡ false)
    × (name_eq d (codes "max-age") ≡ false)
    × (name_eq d (codes "s-maxage") ≡ false)
    × (name_eq d (codes "stale-while-revalidate") ≡ false)

apply_directive-unknown : (c : ParsedCacheControl) (d : Directive) → IsUnknown d → IsAlone c d
unfolding apply_directive
apply_directive-unknown c d h = rw (h.0, h.1, h.2, h.3, h.4, h.5, h.6, h.7, h.8, h.9) refl

apply_directive-IsAlone : (c : ParsedCacheControl) (d : Directive) → IsAlone c d
unfolding apply_directive name_eq
apply_directive-IsAlone c d = elim (Bool-cases (name_eq d (codes "no-store"))) [
  | inl t ↦ rw (lower_name d (codes "no-store") t) refl
  | inr f0 ↦ elim (Bool-cases (name_eq d (codes "no-cache"))) [
    | inl t ↦ rw (lower_name d (codes "no-cache") t) refl
    | inr f1 ↦ elim (Bool-cases (name_eq d (codes "private"))) [
      | inl t ↦ rw (lower_name d (codes "private") t) refl
      | inr f2 ↦ elim (Bool-cases (name_eq d (codes "must-revalidate"))) [
        | inl t ↦ rw (lower_name d (codes "must-revalidate") t) refl
        | inr f3 ↦ elim (Bool-cases (name_eq d (codes "proxy-revalidate"))) [
          | inl t ↦ rw (lower_name d (codes "proxy-revalidate") t) refl
          | inr f4 ↦ elim (Bool-cases (name_eq d (codes "no-transform"))) [
            | inl t ↦ rw (lower_name d (codes "no-transform") t) refl
            | inr f5 ↦ elim (Bool-cases (name_eq d (codes "immutable"))) [
              | inl t ↦ rw (lower_name d (codes "immutable") t) refl
              | inr f6 ↦ elim (Bool-cases (name_eq d (codes "max-age"))) [
                | inl t ↦ rw (lower_name d (codes "max-age") t) refl
                | inr f7 ↦ elim (Bool-cases (name_eq d (codes "s-maxage"))) [
                  | inl t ↦ rw (lower_name d (codes "s-maxage") t) refl
                  | inr f8 ↦ elim (Bool-cases (name_eq d (codes "stale-while-revalidate"))) [
                    | inl t ↦ rw (lower_name d (codes "stale-while-revalidate") t) refl
                    | inr f9 ↦ apply_directive-unknown c d (f0, f1, f2, f3, f4, f5, f6, f7, f8, f9)
                  ]
                ]
              ]
            ]
          ]
        ]
      ]
    ]
  ]
]

fields-step :
    (c : ParsedCacheControl) (d : Directive) (rest : List Directive)
    → fields (apply_directive c d) rest ≡ fields c (d ∷ rest)
fields-step c d rest = ap (λ x. fields x rest) (apply_directive-IsAlone c d)

apply_directives-fields :
    (c : ParsedCacheControl) (ds : List Directive) → apply_directives c ds ≡ fields c ds
apply_directives-fields c [] = refl
apply_directives-fields c (d ∷ rest) =
    apply_directives-fields (apply_directive c d) rest ∙ fields-step c d rest

apply_directives-append :
    (c : ParsedCacheControl) (ds es : List Directive)
    → apply_directives (apply_directives c ds) es ≡ apply_directives c (ds ++ es)
apply_directives-append c [] es = refl
apply_directives-append c (d ∷ ds) es = apply_directives-append (apply_directive c d) ds es

apply_values-apply_directives :
    (c : ParsedCacheControl) (values : List (List ℕ))
    → apply_values c values ≡ apply_directives c (all_directives values)
apply_values-apply_directives c [] = refl
apply_values-apply_directives c (value ∷ rest) =
    apply_values-apply_directives (apply_directives c (directives value)) rest
    ∙ apply_directives-append c (directives value) (all_directives rest)

flag-true : (name : List ℕ) (ds : List Directive) → flag name true ds ≡ true
flag-true name [] = refl
flag-true name (d ∷ rest) = elim (Bool-cases (name_eq d name)) [
  | inl t ↦ rw t (flag-true name rest)
  | inr f ↦ rw f (flag-true name rest)
]

flag-any : (name : List ℕ) (ds : List Directive) → flag name false ds ≡ any (λ d. name_eq d name) ds
flag-any name [] = refl
flag-any name (d ∷ rest) = elim (Bool-cases (name_eq d name)) [
  | inl t ↦ rw t (flag-true name rest)
  | inr f ↦ rw f (flag-any name rest)
]

-- The seconds of the directives of a name.
abbrev seconds_of : List ℕ → List Directive → List ℕ
seconds_of name ds = map (λ d. or_zero (value_seconds d.value)) (filter (λ d. name_eq d name) ds)

seconds-least_from :
    (name : List ℕ) (n : ℕ) (ds : List Directive)
    → seconds name (some n) ds ≡ some (least_from n (seconds_of name ds))
unfolding delta_seconds
seconds-least_from name n [] = refl
seconds-least_from name n (d ∷ rest) = elim (Bool-cases (name_eq d name)) [
  | inl t ↦ rw t (seconds-least_from name (min n (or_zero (value_seconds d.value))) rest)
  | inr f ↦ rw f (seconds-least_from name n rest)
]

seconds-least :
    (name : List ℕ) (ds : List Directive) → seconds name none ds ≡ least (seconds_of name ds)
unfolding delta_seconds
seconds-least name [] = refl
seconds-least name (d ∷ rest) = elim (Bool-cases (name_eq d name)) [
  | inl t ↦ rw t (seconds-least_from name (or_zero (value_seconds d.value)) rest)
  | inr f ↦ rw f (seconds-least name rest)
]

-- Of the fields of a header that is there, every flag of the policy says whether a directive of
-- that name occurs in any of them, and every number of seconds is what
-- `conservative_delta_seconds_values` finds for the name, the least value that is given, with 0
-- for one that is malformed or missing.
pub parse_values-summary :
    (value : List ℕ) (rest : List (List ℕ))
    → let has : String → Bool =
        λ name. any (λ d. name_eq d (codes name)) (all_directives (value ∷ rest)) in
      let age : String → Option ℕ =
        λ name. conservative_delta_seconds_values (value ∷ rest) (codes name) in
      parse_values (value ∷ rest)
      ≡ some (record {
        no_store = has "no-store";
        no_cache = has "no-cache";
        is_private = has "private";
        must_revalidate = has "must-revalidate";
        proxy_revalidate = has "proxy-revalidate";
        no_transform = has "no-transform";
        immutable = has "immutable";
        max_age = age "max-age";
        s_maxage = age "s-maxage";
        stale_while_revalidate = age "stale-while-revalidate";
      })
unfolding parse_values conservative_delta_seconds_values
parse_values-summary value rest =
    let ds = all_directives (value ∷ rest) in
    let passed : apply_values no_control (value ∷ rest) ≡ fields no_control ds =
      apply_values-apply_directives no_control (value ∷ rest)
      ∙ apply_directives-fields no_control ds in
    ap some (
      passed ∙ (λ i. record {
        no_store = flag-any (codes "no-store") ds i;
        no_cache = flag-any (codes "no-cache") ds i;
        is_private = flag-any (codes "private") ds i;
        must_revalidate = flag-any (codes "must-revalidate") ds i;
        proxy_revalidate = flag-any (codes "proxy-revalidate") ds i;
        no_transform = flag-any (codes "no-transform") ds i;
        immutable = flag-any (codes "immutable") ds i;
        max_age = seconds-least (codes "max-age") ds i;
        s_maxage = seconds-least (codes "s-maxage") ds i;
        stale_while_revalidate = seconds-least (codes "stale-while-revalidate") ds i;
      }))
