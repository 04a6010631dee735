-- ===== src/Dispatch/TopHrw.antt =====
-- `top_hrw_candidates` of crates/biei-core/src/dispatcher.rs.
pub mod Ranked
pub mod Stable
use Prim.Native.String.{String}
use biei.Prelude.{
  ℕ, suc, Bool, List, [], ◌∷◌, map, none, if◌then◌else◌, ltb, drop, ◌++◌, take, filter,
}
use biei.Dispatch.View.{ForwardCandidate}

-- `top.iter().position(|(existing, _)| weight > *existing).unwrap_or(top.len())`.
unfoldable pub insert_position : ℕ → List (ℕ × String) → ℕ
insert_position weight [] = 0
insert_position weight (existing ∷ top) =
    let later = suc (insert_position weight top) in if ltb existing.0 weight then 0 else later

-- `Vec::insert`.
abbrev pub insert_at {ℓ} : {A : Type ℓ} → ℕ → A → List A → List A
insert_at n a xs = take n xs ++ (a ∷ drop n xs)

-- One turn of the loop.
unfoldable pub offer : ℕ → ℕ × String → List (ℕ × String) → List (ℕ × String)
offer limit entry top =
    let at = insert_position entry.0 top in
    if ltb at limit then take limit (insert_at at entry top) else top

unfoldable pub top_loop : (String → ℕ) → ℕ → List (ℕ × String) → List String → List (ℕ × String)
top_loop weight limit top [] = top
top_loop weight limit top (node_id ∷ members) =
    top_loop weight limit (offer limit (weight node_id, node_id) top) members

abbrev pub candidate_for : String → ForwardCandidate
candidate_for node_id = record { node_id = node_id; drain_worker = none }

-- `top_hrw_candidates`; `weight` is `hrw_weight` for the profile.
unfoldable pub top_hrw_candidates :
    (String → ℕ) → List String → ℕ → (String → Bool) → List ForwardCandidate
top_hrw_candidates weight members limit eligible =
    map (λ entry. candidate_for entry.1) (top_loop weight limit [] (filter eligible members))
