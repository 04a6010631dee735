-- ===== src/Renders/Identity.antt =====
-- `addlayer_identity` of crates/biei-core/src/render_cache.rs. A text is the list of its bytes.
pub mod Injective
use biei.Prelude.{
  ℕ, zero, suc, ◌+◌, ◌/◌, ◌%◌, List, [], ◌∷◌, ◌++◌, Option, none, some, if◌then◌else◌, ltb, length,
}

pub record AddLayerSource : Type 0 where
  pub tileset_id : List ℕ
  pub json : List ℕ

pub record AddLayer : Type 0 where
  pub json : List ℕ
  pub hash : ℕ
  pub source : Option AddLayerSource

abbrev pub colon : ℕ
colon = 58

abbrev pub digit : ℕ → ℕ
digit d = 48 + d

-- The decimal digits of a number before those that are written; `rounds` is at least the number.
unfoldable pub put_digits : ℕ → ℕ → List ℕ → List ℕ
put_digits zero n written = digit (n % 10) ∷ written
put_digits (suc rounds) n written =
    let more = put_digits rounds (n / 10) (digit (n % 10) ∷ written) in
    if ltb n 10 then digit n ∷ written else more

-- `{}` of a `usize`.
abbrev pub decimal : ℕ → List ℕ
decimal n = put_digits n n []

-- `frame`: `<byte-len>:<bytes>`.
abbrev pub frame : List ℕ → List ℕ
frame component = decimal (length component) ++ (colon ∷ component)

unfoldable pub addlayer_identity : AddLayer → List ℕ
addlayer_identity layer =
    frame layer.json
    ++ elim layer.source [ none ↦ [] | some source ↦ frame source.tileset_id ++ frame source.json ]
