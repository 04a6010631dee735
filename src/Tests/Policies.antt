-- ===== src/Tests/Policies.antt =====
-- Headers that repeat, quote and spoil their directives.
use biei.Prelude.{◌++◌, length, ℕ, ◌≡◌, refl, true, false, List, [], ◌∷◌, none, some}
use biei.CacheControl.{
  codes, comma, name_eq, boundary, trim, split_once, is_quotable, normalize_value,
  collect_directives, directives, parse_delta_seconds, delta_seconds, apply_directive, parse_values,
  conservative_delta_seconds_values,
}
use biei.CacheControl.Summary.{parse_values-summary}
use biei.CacheControl.Tokens.{directives-append, IsItem, plain, opens, inner, closes, ends}

abbrev header : List ℕ
header = codes " x=\"no-store,y\", MAX-AGE = \"60\" ,, max-age=30"

tokens :
    directives header
    ≡ record { name = codes "x"; value = some (codes "no-store,y") }
      ∷ record { name = codes "MAX-AGE"; value = some (codes "60") }
      ∷ record { name = codes "max-age"; value = some (codes "30") }
      ∷ []
unfolding directives collect_directives boundary trim split_once normalize_value is_quotable
tokens = refl

seconds : parse_delta_seconds (codes "18446744073709551616") ≡ some 18446744073709551615
unfolding parse_delta_seconds
seconds = refl

policy :
    parse_values (header ∷ codes "s-maxage, no-cache" ∷ [])
    ≡ some (record {
      no_store = false;
      no_cache = true;
      is_private = false;
      must_revalidate = false;
      proxy_revalidate = false;
      no_transform = false;
      immutable = false;
      max_age = some 30;
      s_maxage = some 0;
      stale_while_revalidate = none;
    })
unfolding parse_values apply_directive delta_seconds parse_delta_seconds name_eq directives
    collect_directives boundary trim split_once normalize_value is_quotable
policy = refl

parse_values-summary_example :
    parse_values (header ∷ codes "s-maxage, no-cache" ∷ [])
    ≡ some (record {
      no_store = false;
      no_cache = true;
      is_private = false;
      must_revalidate = false;
      proxy_revalidate = false;
      no_transform = false;
      immutable = false;
      max_age =
          conservative_delta_seconds_values
            (header ∷ codes "s-maxage, no-cache" ∷ [])
            (codes "max-age");
      s_maxage = some 0;
      stale_while_revalidate = none;
    })
unfolding conservative_delta_seconds_values parse_delta_seconds name_eq directives
    collect_directives boundary trim split_once normalize_value is_quotable
parse_values-summary_example = parse_values-summary header (codes "s-maxage, no-cache" ∷ [])

abbrev item : List ℕ
item = codes "x=\"a,b\""

item-IsItem : IsItem false item
item-IsItem = plain 120 _ refl refl (
    plain 61 _ refl refl (
      opens _ (inner 97 _ refl refl (inner 44 _ refl refl (inner 98 _ refl refl (closes _ ends))))))

directives-append_example :
    (directives (item ++ (comma ∷ codes "no-store"))
      ≡ directives item ++ directives (codes "no-store"))
    × (length (directives item) ≡ 1)
unfolding trim
directives-append_example = directives-append item (codes "no-store") item-IsItem
