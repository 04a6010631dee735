-- ===== src/CacheControl.antt =====
-- crates/mmpf-http/src/cache_control.rs: the directives of a `Cache-Control` header, and the policy
-- that `parse_values` reads from every field of it. A text is the list of its characters.
pub mod Summary
pub mod Tokens
use Prim.Native.Char.{code}
use Prim.Native.String.{String}
use biei.Prelude.{
  ℕ, zero, suc, ◌+◌, ◌-◌, ◌*◌, ◌^◌, min, Bool, true, false, not, ◌&&◌, ◌||◌, ◌==◌, List, [], ◌∷◌,
  ◌++◌, map, length, take, drop, filter, any, Option, none, some, if◌then◌else◌, ltb, leb, eqb,
  list_Eq, nat_Eq, u64_mod,
}

-- The characters of a text.
abbrev pub codes : String → List ℕ
codes String.[] = []
codes (String.◌∷◌ c rest) = code c ∷ codes rest

-- `char::is_whitespace`.
abbrev pub is_whitespace : ℕ → Bool
is_whitespace c =
    (leb 9 c && leb c 13)
    || c == 32
    || c == 133
    || c == 160
    || c == 5760
    || (leb 8192 c && leb c 8202)
    || c == 8232
    || c == 8233
    || c == 8239
    || c == 8287
    || c == 12288

abbrev pub trim_start : List ℕ → List ℕ
trim_start [] = []
trim_start (c ∷ rest) = if is_whitespace c then trim_start rest else c ∷ rest

abbrev pub keep_end : ℕ → List ℕ → List ℕ
keep_end c [] = if is_whitespace c then [] else c ∷ []
keep_end c (d ∷ rest) = c ∷ d ∷ rest

abbrev pub trim_end : List ℕ → List ℕ
trim_end [] = []
trim_end (c ∷ rest) = keep_end c (trim_end rest)

-- `str::trim`.
unfoldable pub trim : List ℕ → List ℕ
trim text = trim_end (trim_start text)

abbrev pub to_ascii_lowercase : ℕ → ℕ
to_ascii_lowercase c = if leb 65 c && leb c 90 then c + 32 else c

pub record Directive : Type 0 where
  pub name : List ℕ
  pub value : Option (List ℕ)

-- `name_eq`, by `eq_ignore_ascii_case`.
unfoldable pub name_eq : Directive → List ℕ → Bool
name_eq d expected = eqb (map to_ascii_lowercase d.name) (map to_ascii_lowercase expected)

abbrev pub quote : ℕ
quote = 34

abbrev pub backslash : ℕ
backslash = 92

abbrev pub comma : ℕ
comma = 44

abbrev pub equals : ℕ
equals = 61

-- The loop for `boundary` in `Directives::next`: the first comma outside quotes, or the end.
unfoldable pub boundary : Bool → Bool → List ℕ → ℕ
boundary quoted escaped [] = 0
boundary quoted true (c ∷ rest) = suc (boundary quoted false rest)
boundary true false (c ∷ rest) =
    if c == backslash
    then suc (boundary true true rest)
    else if c == quote
    then suc (boundary false false rest)
    else suc (boundary true false rest)
boundary false false (c ∷ rest) =
    if c == quote
    then suc (boundary true false rest)
    else if c == comma
    then 0
    else suc (boundary false false rest)

abbrev pub cons_first : ℕ → Option (List ℕ × List ℕ) → Option (List ℕ × List ℕ)
cons_first c none = none
cons_first c (some (name, value)) = some (c ∷ name, value)

-- `split_once('=')`.
unfoldable pub split_once : List ℕ → Option (List ℕ × List ℕ)
split_once [] = none
split_once (c ∷ rest) = if c == equals then some ([], rest) else cons_first c (split_once rest)

-- The loop of `normalize_value`: no quote but escaped ones, and no open escape at the end.
unfoldable pub is_quotable : Bool → List ℕ → Bool
is_quotable escaped [] = not escaped
is_quotable true (c ∷ rest) = is_quotable false rest
is_quotable false (c ∷ rest) =
    if c == backslash
    then is_quotable true rest
    else if c == quote
    then false
    else is_quotable false rest

-- `&value[1..value.len() - 1]`.
abbrev pub inside : List ℕ → List ℕ
inside value = take (length value - 2) (drop 1 value)

abbrev pub is_quoted : List ℕ → Bool
is_quoted value =
    leb 2 (length value)
    && eqb (take 1 value) (quote ∷ [])
    && eqb (drop (length value - 1) value) (quote ∷ [])

unfoldable pub normalize_value : List ℕ → List ℕ
normalize_value value =
    if is_quoted value && is_quotable false (inside value) then inside value else value

-- The name and the value of a token.
abbrev pub directive_parts : List ℕ → Option (List ℕ × List ℕ) → Directive
directive_parts token none = record { name = token; value = none }
directive_parts token (some (name, value)) = record {
  name = trim name;
  value = some (normalize_value (trim value));
}

abbrev pub is_empty : List ℕ → Bool
is_empty [] = true
is_empty (c ∷ rest) = false

abbrev pub put_token : List ℕ → List Directive → List Directive
put_token token later =
    if is_empty token then later else directive_parts token (split_once token) ∷ later

-- The items of `Directives`, by rounds of the loop of `next`: each takes one character at least.
unfoldable pub collect_directives : ℕ → List ℕ → List Directive
collect_directives rounds [] = []
collect_directives zero (c ∷ rest) = []
collect_directives (suc rounds) (c ∷ rest) =
    let end = boundary false false (c ∷ rest) in
    let later = collect_directives rounds (drop (suc end) (c ∷ rest)) in
    put_token (trim (take end (c ∷ rest))) later

unfoldable pub directives : List ℕ → List Directive
directives value = collect_directives (length value) value

abbrev pub is_ascii_digit : ℕ → Bool
is_ascii_digit c = leb 48 c && leb c 57

abbrev pub u64_max : ℕ
u64_max = u64_mod - 1

-- The fold of `parse_delta_seconds`.
abbrev pub fold_digits : ℕ → List ℕ → ℕ
fold_digits seconds [] = seconds
fold_digits seconds (c ∷ rest) =
    fold_digits (min u64_max (min u64_max (seconds * 10) + (c - 48))) rest

unfoldable pub parse_delta_seconds : List ℕ → Option ℕ
parse_delta_seconds value =
    if is_empty value || any (λ c. not (is_ascii_digit c)) value
    then none
    else some (fold_digits 0 value)

-- `unwrap_or(0)`.
abbrev pub or_zero : Option ℕ → ℕ
or_zero none = 0
or_zero (some n) = n

-- `and_then(parse_delta_seconds)`.
abbrev pub value_seconds : Option (List ℕ) → Option ℕ
value_seconds none = none
value_seconds (some value) = parse_delta_seconds value

-- `delta_seconds`.
unfoldable pub delta_seconds : Directive → Option ℕ
delta_seconds d = value_seconds d.value

-- `ParsedCacheControl`.
pub record ParsedCacheControl : Type 0 where
  pub no_store : Bool
  pub no_cache : Bool
  pub is_private : Bool
  pub must_revalidate : Bool
  pub proxy_revalidate : Bool
  pub no_transform : Bool
  pub immutable : Bool
  pub max_age : Option ℕ
  pub s_maxage : Option ℕ
  pub stale_while_revalidate : Option ℕ

abbrev pub no_control : ParsedCacheControl
no_control = record {
  no_store = false;
  no_cache = false;
  is_private = false;
  must_revalidate = false;
  proxy_revalidate = false;
  no_transform = false;
  immutable = false;
  max_age = none;
  s_maxage = none;
  stale_while_revalidate = none;
}

abbrev pub merge_conservative : Option ℕ → Option ℕ → Option ℕ
merge_conservative none parsed = some (or_zero parsed)
merge_conservative (some current) parsed = some (min current (or_zero parsed))

-- The body of the inner loop of `parse_values`.
unfoldable pub apply_directive : ParsedCacheControl → Directive → ParsedCacheControl
apply_directive control d =
    if name_eq d (codes "no-store")
    then record control { no_store = true }
    else if name_eq d (codes "no-cache")
    then record control { no_cache = true }
    else if name_eq d (codes "private")
    then record control { is_private = true }
    else if name_eq d (codes "must-revalidate")
    then record control { must_revalidate = true }
    else if name_eq d (codes "proxy-revalidate")
    then record control { proxy_revalidate = true }
    else if name_eq d (codes "no-transform")
    then record control { no_transform = true }
    else if name_eq d (codes "immutable")
    then record control { immutable = true }
    else if name_eq d (codes "max-age")
    then record control { max_age = merge_conservative control.max_age (delta_seconds d) }
    else if name_eq d (codes "s-maxage")
    then record control { s_maxage = merge_conservative control.s_maxage (delta_seconds d) }
    else if name_eq d (codes "stale-while-revalidate")
    then record control {
      stale_while_revalidate = merge_conservative control.stale_while_revalidate (delta_seconds d);
    }
    else control

abbrev pub apply_directives : ParsedCacheControl → List Directive → ParsedCacheControl
apply_directives control [] = control
apply_directives control (d ∷ rest) = apply_directives (apply_directive control d) rest

-- The outer loop of `parse_values`.
abbrev pub apply_values : ParsedCacheControl → List (List ℕ) → ParsedCacheControl
apply_values control [] = control
apply_values control (value ∷ rest) =
    apply_values (apply_directives control (directives value)) rest

-- `parse_values`.
unfoldable pub parse_values : List (List ℕ) → Option ParsedCacheControl
parse_values [] = none
parse_values (value ∷ rest) = some (apply_values no_control (value ∷ rest))

-- `flat_map(directives)`.
abbrev pub all_directives : List (List ℕ) → List Directive
all_directives [] = []
all_directives (value ∷ rest) = directives value ++ all_directives rest

abbrev pub least_from : ℕ → List ℕ → ℕ
least_from n [] = n
least_from n (m ∷ rest) = least_from (min n m) rest

-- `Iterator::min`.
abbrev pub least : List ℕ → Option ℕ
least [] = none
least (n ∷ rest) = some (least_from n rest)

-- `conservative_delta_seconds_values`.
unfoldable pub conservative_delta_seconds_values : List (List ℕ) → List ℕ → Option ℕ
conservative_delta_seconds_values values expected = least (
    map (λ d. or_zero (value_seconds d.value))
      (filter (λ d. name_eq d expected) (all_directives values)))
